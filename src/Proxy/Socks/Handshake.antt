-- ===== src/Proxy/Socks/Handshake.antt =====
-- What the SOCKS5 handshake sends, and what it takes to end well.
use httpx.Prelude.{ℕ, ◌≡◌, refl, ap, true, false, Option, none, some, List, [], ◌∷◌, Str}
use httpx.Proxy.Socks.{
  no_auth_required, username_password, other_method, SocksRequest, auth_methods, credentials,
  command_connect, SocksReply, auth_reply, password_reply, connect_reply, established,
  init_socks5_connection, authenticate, request_connect,
}

-- The replies that lead to a connection, and what is sent for them.
abbrev pub script : Option (Str × Str) → List SocksReply → List SocksReply
script none rest = auth_reply no_auth_required ∷ connect_reply true ∷ rest
script (some a) rest =
    auth_reply username_password ∷ password_reply true ∷ connect_reply true ∷ rest

abbrev pub requests : Option (Str × Str) → Str → ℕ → List SocksRequest
requests none host port = auth_methods no_auth_required ∷ command_connect host port ∷ []
requests (some (user, password)) host port =
    auth_methods username_password ∷ credentials user password ∷ command_connect host port ∷ []

connected_reply :
    (host : Str) (port : ℕ) (rs : List SocksReply)
    → (request_connect host port rs).1 ≡ established
    → (rest : List SocksReply) × (rs ≡ connect_reply true ∷ rest)
unfolding request_connect
connected_reply host port [] h = cc
connected_reply host port (connect_reply true ∷ rs) h = (rs, refl)
connected_reply host port (connect_reply false ∷ rs) h = cc
connected_reply host port (auth_reply m ∷ rs) h = cc
connected_reply host port (password_reply b ∷ rs) h = cc

-- The handshake ends with a connection only if the proxy accepted the method that was asked for,
-- the credentials if there are any, and the target, in that order; and then exactly these requests
-- were sent.
pub established-script :
    (auth : Option (Str × Str)) (host : Str) (port : ℕ) (rs : List SocksReply)
    → (init_socks5_connection auth host port rs).1 ≡ established
    → ((rest : List SocksReply) × (rs ≡ script auth rest))
      × ((init_socks5_connection auth host port rs).0 ≡ requests auth host port)
unfolding init_socks5_connection authenticate
established-script auth host port [] h = cc
established-script auth host port (password_reply b ∷ rs) h = cc
established-script auth host port (connect_reply b ∷ rs) h = cc
established-script none host port (auth_reply no_auth_required ∷ rs) h =
    let (rest, e) = connected_reply host port rs h in
    ((rest, ap (λ t. auth_reply no_auth_required ∷ t) e), refl)
established-script none host port (auth_reply username_password ∷ rs) h = cc
established-script none host port (auth_reply (other_method n) ∷ rs) h = cc
established-script (some (u, p)) host port (auth_reply no_auth_required ∷ rs) h = cc
established-script (some (u, p)) host port (auth_reply (other_method n) ∷ rs) h = cc
established-script (some (u, p)) host port (auth_reply username_password ∷ []) h = cc
established-script (some (u, p)) host port (auth_reply username_password ∷ password_reply true ∷ rs)
      h =
    let (rest, e) = connected_reply host port rs h in
    ((rest, ap (λ t. auth_reply username_password ∷ password_reply true ∷ t) e), refl)
established-script (some (u, p)) host port
      (auth_reply username_password ∷ password_reply false ∷ rs) h =
    cc
established-script (some (u, p)) host port (auth_reply username_password ∷ auth_reply m ∷ rs) h = cc
established-script (some (u, p)) host port (auth_reply username_password ∷ connect_reply b ∷ rs) h =
    cc
