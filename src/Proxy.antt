-- ===== src/Proxy.antt =====
-- httpcore2/httpcore2/_sync/http_proxy.py: connections by way of an HTTP proxy. The URLs and the
-- extensions of the requests that are made up for the proxy are left out.
pub mod Leak
pub mod Socks
use httpx.Prelude.{
  ℕ, ◌+◌, Bool, true, false, not, ◌&&◌, ◌||◌, Option, none, some, List, [], ◌∷◌, ◌++◌,
  if◌then◌else◌, ltb, Str, codes, str_eq,
}
use httpx.Origin.{Origin, origin_eq}
use httpx.Headers.{lower}
use httpx.Http11
use httpx.Http2
use httpx.Connection
use httpx.Connection.{
  Connection, Inner, http11, http2, Moment, Options, inner_available, inner_expired, inner_idle,
  inner_closed, inner_connected, close_inner,
}
use httpx.Pool.{Interface}

abbrev pub Pairs : Type 0
Pairs = List (Str × Str)

-- `key.lower() in has_override`
unfoldable pub overrides : Str → Pairs → Bool
unfolding lower
overrides k [] = false
overrides k ((j, v) ∷ hs) = str_eq (lower j) (lower k) || overrides k hs

unfoldable pub not_overridden : Pairs → Pairs → Pairs
unfolding overrides
not_overridden [] others = []
not_overridden ((k, v) ∷ hs) others =
    let rest = not_overridden hs others in if overrides k others then rest else (k, v) ∷ rest

unfoldable pub merge_headers : Pairs → Pairs → Pairs
unfolding not_overridden
merge_headers defaults others = not_overridden defaults others ++ others

-- `proxy_auth` as `HTTPProxy.__init__` makes a header of it; `b64encode` is Python's.
unfoldable pub proxy_headers : (Str → Str) → Option (Str × Str) → Pairs → Pairs
proxy_headers b64encode none hs = hs
proxy_headers b64encode (some (user, password)) hs =
    (codes "Proxy-Authorization", codes "Basic " ++ b64encode (user ++ codes ":" ++ password)) ∷ hs

-- ForwardHTTPConnection: the proxy's connection carries the requests.
pub record Forward : Type 0 where
  pub connection : Connection
  pub proxy_headers : Pairs
  pub remote_origin : Origin

unfoldable pub forward_headers : Forward → Pairs → Pairs
unfolding merge_headers
forward_headers f hs = merge_headers f.proxy_headers hs

-- TunnelHTTPConnection: `self._connection` is the proxy's connection until the tunnel is there.
pub data Carrier : Type 0 where
  to_proxy : Connection → Carrier
  through_tunnel : Inner → Carrier

pub record Tunnel : Type 0 where
  pub carrier : Carrier
  pub proxy_origin : Origin
  pub remote_origin : Origin
  pub headers : Pairs
  pub keepalive_expiry : Option ℕ
  pub http1_enabled : Bool
  pub http2_enabled : Bool
  pub connected : Bool

-- The options of the connection to the proxy: `http1` and `http2` keep their defaults.
abbrev proxy_options : Options → Options
proxy_options opts = record opts { use_http1 = true; use_http2 = false; connect_retries = 0 }

unfoldable pub create_forward : Options → Origin → Pairs → Origin → Forward
unfolding Connection.create
create_forward opts proxy hs remote = record {
  connection = Connection.create (proxy_options opts) proxy;
  proxy_headers = hs;
  remote_origin = remote;
}

unfoldable pub create_tunnel : Options → Origin → Pairs → Origin → Tunnel
unfolding Connection.create
create_tunnel opts proxy hs remote = record {
  carrier = to_proxy (Connection.create (proxy_options opts) proxy);
  proxy_origin = proxy;
  remote_origin = remote;
  headers = hs;
  keepalive_expiry = opts.keepalive;
  http1_enabled = opts.use_http1;
  http2_enabled = opts.use_http2;
  connected = false;
}

-- The headers of the CONNECT request to `target`.
unfoldable pub connect_headers : Str → Tunnel → Pairs
unfolding merge_headers
connect_headers target t =
    merge_headers ((codes "Host", target) ∷ (codes "Accept", codes "*/*") ∷ []) t.headers

-- What the proxy's connection made of the CONNECT request, and how it stands after it.
pub data Answer : Type 0 where
  failed : Connection → Answer
  answered : ℕ → Connection → Answer

pub data Error : Type 0 where
  proxy_error request_raised tls_raised : Error

-- `start_tls`: it raised, or the flag says that HTTP/2 was negotiated.
unfoldable pub upgrade : ℕ → Option Bool → Tunnel → Option Error × Tunnel
unfolding Http11.create Http2.create
upgrade local_max none t = (some tls_raised, t)
upgrade local_max (some h2_negotiated) t = (
  none,
  record t {
    carrier = through_tunnel (
        if h2_negotiated || (t.http2_enabled && not t.http1_enabled)
        then http2 (Http2.create t.remote_origin t.keepalive_expiry local_max)
        else http11 (Http11.create t.remote_origin t.keepalive_expiry));
    connected = true;
  },
)

-- The section of `handle_request` under the lock, with what it raises.
unfoldable pub ensure_tunnel : Answer → ℕ → Option Bool → Tunnel → Option Error × Tunnel
unfolding upgrade Connection.close
ensure_tunnel answer local_max tls t = if t.connected then (none, t) else elim answer [
  | failed c ↦ (some request_raised, record t { carrier = to_proxy c })
  | answered status c ↦
      if ltb status 200 || ltb 299 status
      then (some proxy_error, record t { carrier = to_proxy (Connection.close c) })
      else upgrade local_max tls (record t { carrier = to_proxy c })
]

-- What the pool asks, passed on to the connection that carries the requests.
unfoldable pub is_available : Moment → Carrier → Bool
unfolding Connection.is_available
is_available m (to_proxy c) = Connection.is_available m c
is_available m (through_tunnel i) = inner_available m i

unfoldable pub has_expired : Moment → Carrier → Bool
unfolding Connection.has_expired
has_expired m (to_proxy c) = Connection.has_expired m c
has_expired m (through_tunnel i) = inner_expired m i

unfoldable pub is_idle : Carrier → Bool
unfolding Connection.is_idle
is_idle (to_proxy c) = Connection.is_idle c
is_idle (through_tunnel i) = inner_idle i

unfoldable pub is_closed : Carrier → Bool
unfolding Connection.is_closed
is_closed (to_proxy c) = Connection.is_closed c
is_closed (through_tunnel i) = inner_closed i

unfoldable pub is_connected : Carrier → Bool
unfolding Connection.is_connected
is_connected (to_proxy c) = Connection.is_connected c
is_connected (through_tunnel i) = inner_connected i

unfoldable pub close_carrier : Carrier → Carrier
unfolding Connection.close
close_carrier (to_proxy c) = to_proxy (Connection.close c)
close_carrier (through_tunnel i) = through_tunnel (close_inner i)

-- TunnelHTTPConnection as the pool sees it; `can_multiplex` is the default of the interface.
unfoldable pub tunnels : Options → Origin → Pairs → Moment → Interface Tunnel
unfolding is_available has_expired is_idle is_closed is_connected close_carrier create_tunnel
    origin_eq
tunnels opts proxy hs m = record {
  can_handle_request = λ t o. origin_eq o t.remote_origin;
  is_available = λ t. is_available m t.carrier;
  has_expired = λ t. has_expired m t.carrier;
  is_idle = λ t. is_idle t.carrier;
  can_multiplex = λ t. false;
  is_closed = λ t. is_closed t.carrier;
  is_connected = λ t. is_connected t.carrier;
  close = λ t. record t { carrier = close_carrier t.carrier };
  create_connection = create_tunnel opts proxy hs;
}

-- ForwardHTTPConnection as the pool sees it.
unfoldable pub forwards : Options → Origin → Pairs → Moment → Interface Forward
unfolding Connection.is_available Connection.has_expired Connection.is_idle Connection.is_closed
    Connection.is_connected Connection.close create_forward origin_eq
forwards opts proxy hs m = record {
  can_handle_request = λ f o. origin_eq o f.remote_origin;
  is_available = λ f. Connection.is_available m f.connection;
  has_expired = λ f. Connection.has_expired m f.connection;
  is_idle = λ f. Connection.is_idle f.connection;
  can_multiplex = λ f. false;
  is_closed = λ f. Connection.is_closed f.connection;
  is_connected = λ f. Connection.is_connected f.connection;
  close = λ f. record f { connection = Connection.close f.connection };
  create_connection = create_forward opts proxy hs;
}
