-- ===== src/Auth.antt =====
-- httpx2/httpx2/_auth.py: basic and digest authentication.
pub mod Challenge
pub mod Digest
pub mod Counting
use httpx.Prelude.{Str, codes, ◌++◌}
use httpx.Headers.{Headers, set}

-- `_build_auth_header` of BasicAuth; `b64encode` is Python's.
unfoldable pub basic_header : (Str → Str) → Str → Str → Str
basic_header b64encode username password =
    codes "Basic " ++ b64encode (username ++ codes ":" ++ password)

-- `auth_flow` of BasicAuth, on the headers of the request
unfoldable pub basic_flow : (Str → Str) → Str → Str → Headers → Headers
unfolding basic_header set
basic_flow b64encode username password hs =
    set (codes "Authorization") (basic_header b64encode username password) hs
