-- ===== src/Tests/ProxyTests.antt =====
-- Proxies and mounted transports at concrete inputs.
use httpx.Prelude.{
  ℕ, All, count, arith, ◌≡◌, refl, true, false, Option, none, some, List, [], ◌∷◌, ◌==◌, Str, codes,
}
use httpx.Origin.{Origin}
use httpx.Http11
use httpx.Http11.{Http11}
use httpx.Connection.{Connection, Options, Moment, http11}
use httpx.Pool.{Interface, Pool, assign_requests_to_connections, request_connections}
use httpx.Pool.Lifecycle.{starts, passes, not_available, finishes}
use httpx.Pool.Retained.Forever.{Event, spares, run, IsStuck}
use httpx.Proxy.{Tunnel, answered, to_proxy, ensure_tunnel, tunnels}
use httpx.Proxy.Leak.{tls_failure-retained}
use httpx.Proxy.Socks.{
  SocksReply, auth_reply, password_reply, connect_reply, username_password, established,
  init_socks5_connection, authenticate, request_connect,
}
use httpx.Proxy.Socks.Handshake.{script, requests, established-script}
use httpx.Mounts.{Url, Networks, Mount, any_host, exactly, sorted_mounts, transport_for_url}
use httpx.Mounts.Specific.{Chosen, transport_for_url-Chosen}

abbrev proxy_origin : Origin
proxy_origin = record { scheme = codes "http"; host = codes "p.org"; port = 3128 }

abbrev target_origin : Origin
target_origin = record { scheme = codes "https"; host = codes "a.org"; port = 443 }

abbrev options : Options
options = record { keepalive = some 5; use_http1 = true; use_http2 = false; connect_retries = 0 }

abbrev later : Moment
later = record { now = 1000; readable = true; h2_closed = false }

-- The proxy's connection, whose answer to the CONNECT request is open.
abbrev tunneled : Http11
tunneled = record {
  origin = proxy_origin;
  keepalive_expiry = some 5;
  expire_at = none;
  state = Http11.active;
  request_count = 1;
}

abbrev to_the_proxy : Connection
to_the_proxy = record {
  origin = proxy_origin;
  keepalive_expiry = some 5;
  http1_enabled = true;
  http2_enabled = false;
  retries = 0;
  inner = some (http11 tunneled);
  connect_failed = false;
}

abbrev tunnel : Tunnel
tunnel = record {
  carrier = to_proxy to_the_proxy;
  proxy_origin = proxy_origin;
  remote_origin = target_origin;
  headers = [];
  keepalive_expiry = some 5;
  http1_enabled = true;
  http2_enabled = false;
  connected = false;
}

-- A pool that holds the failed tunnel and no request, and what happens then.
abbrev pool : Pool Tunnel
pool = record {
  max_connections = 1;
  max_keepalive_connections = 1;
  connections = 0 ∷ [];
  requests = [];
  heap = λ k. (ensure_tunnel (answered 200 to_the_proxy) 100 none tunnel).1;
  next = 1;
}

abbrev at : Moment → Interface Tunnel
at m = tunnels options proxy_origin [] m

abbrev events : List (Event at 0)
events =
    (later, starts 7 (codes "https") target_origin)
    ∷ (later, passes)
    ∷ (later, not_available 7)
    ∷ (later, finishes 7)
    ∷ []

events_spare : All (λ e. spares at 0 e ≡ true) events
unfolding spares
events_spare = (refl, (refl, (refl, (refl, tt))))

tls_failure-retained_example :
    IsStuck 0 1
      ((ensure_tunnel (answered 200 to_the_proxy) 100 none tunnel).1)
      (run at 0 events pool)
    × ((m : Moment) → count 0 (assign_requests_to_connections (at m) (run at 0 events pool)).1 ≡ 0)
unfolding request_connections
tls_failure-retained_example =
    tls_failure-retained options proxy_origin [] 0 tunnel to_the_proxy tunneled 200 100 pool events
      refl refl refl (refl, refl, refl) refl (omega arith) refl events_spare

abbrev login : Option (Str × Str)
login = some (codes "u", codes "p")

abbrev replies : List SocksReply
replies = auth_reply username_password ∷ password_reply true ∷ connect_reply true ∷ []

replies_connect : (init_socks5_connection login (codes "a.org") 443 replies).1 ≡ established
unfolding init_socks5_connection authenticate request_connect
replies_connect = refl

established-script_example :
    ((rest : List SocksReply) × (replies ≡ script login rest))
    × ((init_socks5_connection login (codes "a.org") 443 replies).0
        ≡ requests login (codes "a.org") 443)
established-script_example = established-script login (codes "a.org") 443 replies replies_connect

-- Networks and addresses that are numbers.
abbrev nets : Networks ℕ ℕ
nets = record { ip_address = λ s. none; contains = λ n a. n == a; num_addresses = λ n. 1 }

abbrev mounts : List (Mount ℕ ℕ)
mounts =
    (record { network = none; scheme = []; host = []; port = none; host_regex = any_host }, some 1)
    ∷ (
      record {
        network = none;
        scheme = codes "https";
        host = codes "a.org";
        port = none;
        host_regex = exactly (codes "a.org");
      },
      none,
    )
    ∷ []

abbrev url : Url
url = record { scheme = codes "https"; host = codes "a.org"; port = none }

transport_for_url-Chosen_example :
    Chosen nets 7 mounts url (transport_for_url nets 7 (sorted_mounts nets mounts) url)
transport_for_url-Chosen_example = transport_for_url-Chosen nets 7 mounts url
