-- ===== src/Proxy/Socks.antt =====
-- httpcore2/httpcore2/_sync/socks_proxy.py: the SOCKS5 handshake and the connection behind it.
-- `socksio` parses what the proxy sends, so its replies enter as values.
pub mod Handshake
use httpx.Prelude.{
  ℕ, Bool, true, false, not, ◌&&◌, ◌||◌, Option, none, some, List, [], ◌∷◌, ◌++◌, if◌then◌else◌,
  ◌==◌, Str, codes, str_eq,
}
use httpx.Origin.{Origin, origin_eq}
use httpx.Http11
use httpx.Http2
use httpx.Connection.{
  Inner, http11, http2, Moment, Options, inner_available, inner_expired, inner_idle, inner_closed,
  inner_connected, close_inner,
}
use httpx.Pool.{Interface}

-- The method codes of the handshake, and the others that a proxy may answer.
pub data Method : Type 0 where
  no_auth_required username_password : Method
  other_method : ℕ → Method

abbrev same_method : Method → Method → Bool
same_method no_auth_required no_auth_required = true
same_method no_auth_required username_password = false
same_method no_auth_required (other_method n) = false
same_method username_password no_auth_required = false
same_method username_password username_password = true
same_method username_password (other_method n) = false
same_method (other_method n) no_auth_required = false
same_method (other_method n) username_password = false
same_method (other_method n) (other_method k) = n == k

pub data SocksRequest : Type 0 where
  auth_methods : Method → SocksRequest
  credentials : Str → Str → SocksRequest
  command_connect : Str → ℕ → SocksRequest

-- What the parser returns for the bytes of one read; `succeeded` is the reply code 0.
pub data SocksReply : Type 0 where
  auth_reply : Method → SocksReply
  password_reply : Bool → SocksReply
  connect_reply : Bool → SocksReply

pub data Outcome : Type 0 where
  established proxy_error assertion_error waiting : Outcome

abbrev pub auth_method : Option (Str × Str) → Method
auth_method none = no_auth_required
auth_method (some a) = username_password

abbrev connect_result : List SocksReply → Outcome
connect_result [] = waiting
connect_result (connect_reply true ∷ rs) = established
connect_result (connect_reply false ∷ rs) = proxy_error
connect_result (auth_reply m ∷ rs) = assertion_error
connect_result (password_reply b ∷ rs) = assertion_error

-- The CONNECT command: what was sent, and how it ended.
unfoldable pub request_connect : Str → ℕ → List SocksReply → List SocksRequest × Outcome
request_connect host port rs = (command_connect host port ∷ [], connect_result rs)

abbrev then_send : SocksRequest → List SocksRequest × Outcome → List SocksRequest × Outcome
then_send r (sent, o) = (r ∷ sent, o)

abbrev after_password : Str → ℕ → List SocksReply → List SocksRequest × Outcome
after_password host port [] = ([], waiting)
after_password host port (password_reply true ∷ rs) = request_connect host port rs
after_password host port (password_reply false ∷ rs) = ([], proxy_error)
after_password host port (auth_reply m ∷ rs) = ([], assertion_error)
after_password host port (connect_reply b ∷ rs) = ([], assertion_error)

-- After the proxy agreed to the method that was asked for.
unfoldable pub authenticate :
    Option (Str × Str) → Str → ℕ → List SocksReply → List SocksRequest × Outcome
unfolding request_connect
authenticate none host port rs = request_connect host port rs
authenticate (some (user, password)) host port rs =
    then_send (credentials user password) (after_password host port rs)

abbrev after_method : Option (Str × Str) → Str → ℕ → List SocksReply → List SocksRequest × Outcome
after_method auth host port [] = ([], waiting)
after_method auth host port (auth_reply m ∷ rs) =
    if same_method m (auth_method auth) then authenticate auth host port rs else ([], proxy_error)
after_method auth host port (password_reply b ∷ rs) = ([], assertion_error)
after_method auth host port (connect_reply b ∷ rs) = ([], assertion_error)

-- `_init_socks5_connection`: the requests that were sent, in order, and how it ended.
unfoldable pub init_socks5_connection :
    Option (Str × Str) → Str → ℕ → List SocksReply → List SocksRequest × Outcome
unfolding authenticate
init_socks5_connection auth host port rs =
    then_send (auth_methods (auth_method auth)) (after_method auth host port rs)

-- Socks5Connection
pub record Socks5 : Type 0 where
  pub proxy_origin : Origin
  pub remote_origin : Origin
  pub proxy_auth : Option (Str × Str)
  pub keepalive_expiry : Option ℕ
  pub http1_enabled : Bool
  pub http2_enabled : Bool
  pub inner : Option Inner
  pub connect_failed : Bool

unfoldable pub create_socks : Options → Origin → Option (Str × Str) → Origin → Socks5
create_socks opts proxy auth remote = record {
  proxy_origin = proxy;
  remote_origin = remote;
  proxy_auth = auth;
  keepalive_expiry = opts.keepalive;
  http1_enabled = opts.use_http1;
  http2_enabled = opts.use_http2;
  inner = none;
  connect_failed = false;
}

pub data Error : Type 0 where
  connect_raised handshake_raised tls_raised connection_not_available : Error

-- How connecting ended: at the socket, in the handshake with its replies, or in the upgrade, whose
-- flag says that HTTP/2 was negotiated.
pub record Steps : Type 0 where
  pub tcp : Bool
  pub replies : List SocksReply
  pub tls : Option Bool

unfoldable pub choose_protocol : ℕ → Bool → Socks5 → Socks5
unfolding Http11.create Http2.create
choose_protocol local_max h2_negotiated c = record c {
  inner = some (
      if h2_negotiated || (c.http2_enabled && not c.http1_enabled)
      then http2 (Http2.create c.remote_origin c.keepalive_expiry local_max)
      else http11 (Http11.create c.remote_origin c.keepalive_expiry));
}

abbrev is_established : Outcome → Bool
is_established established = true
is_established proxy_error = false
is_established assertion_error = false
is_established waiting = false

-- The upgrade, for the schemes that have one; a plain stream negotiates nothing.
unfoldable pub finish_connect : ℕ → Option Bool → Socks5 → Option Error × Socks5
unfolding choose_protocol
finish_connect local_max tls c =
    if str_eq c.remote_origin.scheme (codes "https") || str_eq c.remote_origin.scheme (codes "wss")
    then elim tls [
      | none ↦ (some tls_raised, record c { connect_failed = true })
      | some h2 ↦ (none, choose_protocol local_max h2 c)
    ]
    else (none, choose_protocol local_max false c)

unfoldable pub connect : ℕ → Steps → Socks5 → Option Error × Socks5
unfolding init_socks5_connection finish_connect
connect local_max steps c =
    if not steps.tcp
    then (some connect_raised, record c { connect_failed = true })
    else if not (
        is_established
          (init_socks5_connection c.proxy_auth c.remote_origin.host c.remote_origin.port
            steps.replies).1)
    then (some handshake_raised, record c { connect_failed = true })
    else finish_connect local_max steps.tls c

-- The section of `handle_request` under the lock.
unfoldable pub ensure_connection : ℕ → Steps → Moment → Socks5 → Option Error × Socks5
unfolding connect
ensure_connection local_max steps m c = elim c.inner [
  | none ↦ connect local_max steps c
  | some i ↦ if not (inner_available m i) then (some connection_not_available, c) else (none, c)
]

unfoldable pub is_available : Moment → Socks5 → Bool
is_available m c = elim c.inner [
  | none ↦
      c.http2_enabled
      && ((str_eq c.remote_origin.scheme (codes "https") || not c.http1_enabled)
          && not c.connect_failed)
  | some i ↦ inner_available m i
]

unfoldable pub has_expired : Moment → Socks5 → Bool
has_expired m c = elim c.inner [ none ↦ c.connect_failed | some i ↦ inner_expired m i ]

unfoldable pub is_idle : Socks5 → Bool
is_idle c = elim c.inner [ none ↦ c.connect_failed | some i ↦ inner_idle i ]

unfoldable pub is_closed : Socks5 → Bool
is_closed c = elim c.inner [ none ↦ c.connect_failed | some i ↦ inner_closed i ]

unfoldable pub is_connected : Socks5 → Bool
is_connected c = elim c.inner [ none ↦ false | some i ↦ inner_connected i ]

unfoldable pub close : Socks5 → Socks5
close c = elim c.inner [ none ↦ c | some i ↦ record c { inner = some (close_inner i) } ]

-- The connection as the pool sees it.
unfoldable pub socks_connections : Options → Origin → Option (Str × Str) → Moment → Interface Socks5
unfolding is_available has_expired is_idle is_closed is_connected close create_socks origin_eq
socks_connections opts proxy auth m = record {
  can_handle_request = λ c o. origin_eq o c.remote_origin;
  is_available = is_available m;
  has_expired = has_expired m;
  is_idle = is_idle;
  can_multiplex = λ c. false;
  is_closed = is_closed;
  is_connected = is_connected;
  close = close;
  create_connection = create_socks opts proxy auth;
}
