-- ===== src/Connection.antt =====
-- httpcore2/httpcore2/_sync/connection.py: an origin's connection, which becomes an HTTP/1.1 or an
-- HTTP/2 connection when it is first used. The network backend is not modelled: each attempt to
-- connect ends as the argument says.
pub mod Retries
use httpx.Prelude.{
  ℕ, zero, suc, ◌+◌, ◌-◌, ◌*◌, ◌^◌, Bool, true, false, not, ◌&&◌, ◌||◌, Option, none, some, List,
  [], ◌∷◌, ◌++◌, if◌then◌else◌, ltb, leb, ◌==◌, Str, codes, str_eq,
}
use httpx.Origin.{Origin, origin_eq}
use httpx.Http11
use httpx.Http11.{Http11}
use httpx.Http2
use httpx.Http2.{Http2}
use httpx.Pool.{Interface}

-- `exponential_backoff`: the n-th delay that the generator yields.
unfoldable pub exponential_backoff : ℕ → ℕ → ℕ
exponential_backoff factor zero = 0
exponential_backoff factor (suc n) = factor * 2 ^ n

pub data Failure : Type 0 where
  connect_error connect_timeout other_error : Failure

-- How one attempt ended: with a stream, where the flag says that TLS negotiated HTTP/2.
pub data Attempt : Type 0 where
  connected : Bool → Attempt
  failed : Failure → Attempt

-- `except (ConnectError, ConnectTimeout)`
abbrev pub is_retried : Failure → Bool
is_retried connect_error = true
is_retried connect_timeout = true
is_retried other_error = false

-- What `_connect` returns or raises, and the delays that it slept. `attempts` numbers the calls of
-- the backend from the first one on.
pub record Connected : Type 0 where
  pub result : Attempt
  pub delays : List ℕ

-- The loop of `_connect`, by the retries left; `slept` counts the delays taken from the generator.
unfoldable pub connect_loop : (ℕ → Attempt) → ℕ → ℕ → ℕ → Connected
unfolding exponential_backoff
connect_loop attempts factor zero slept = record { result = attempts slept; delays = [] }
connect_loop attempts factor (suc left) slept =
    let rest = connect_loop attempts factor left (suc slept) in
    let again = record rest { delays = exponential_backoff factor slept ∷ rest.delays } in
    elim (attempts slept) [
      | connected h2 ↦ record { result = connected h2; delays = [] }
      | failed f ↦ if is_retried f then again else record { result = failed f; delays = [] }
    ]

unfoldable pub connect : (ℕ → Attempt) → ℕ → ℕ → Connected
unfolding connect_loop
connect attempts factor retries = connect_loop attempts factor retries 0

-- The connection below, once there is one.
pub data Inner : Type 0 where
  http11 : Http11 → Inner
  http2 : Http2 → Inner

pub record Connection : Type 0 where
  pub origin : Origin
  pub keepalive_expiry : Option ℕ
  pub http1_enabled : Bool
  pub http2_enabled : Bool
  pub retries : ℕ
  pub inner : Option Inner
  pub connect_failed : Bool

pub record Options : Type 0 where
  pub keepalive : Option ℕ
  pub use_http1 : Bool
  pub use_http2 : Bool
  pub connect_retries : ℕ

unfoldable pub create : Options → Origin → Connection
create opts o = record {
  origin = o;
  keepalive_expiry = opts.keepalive;
  http1_enabled = opts.use_http1;
  http2_enabled = opts.use_http2;
  retries = opts.connect_retries;
  inner = none;
  connect_failed = false;
}

-- The choice of the protocol after a connect; `local_max` is the local limit on HTTP/2 streams.
unfoldable pub establish : ℕ → Bool → Connection → Connection
unfolding Http11.create Http2.create
establish local_max h2_negotiated c = record c {
  inner = some (
      if h2_negotiated || (c.http2_enabled && not c.http1_enabled)
      then http2 (Http2.create c.origin c.keepalive_expiry local_max)
      else http11 (Http11.create c.origin c.keepalive_expiry));
}

pub data Error : Type 0 where
  runtime_error : Error
  connect_raised : Failure → Error

pub data Result {ℓ} (A : Type ℓ) : Type ℓ where
  ok : A → Result A
  err : Error → Result A

connected_to : ℕ → Connection → Attempt → Result Connection × Connection
unfolding establish
connected_to local_max c (connected h2) = let c' = establish local_max h2 c in (ok c', c')
connected_to local_max c (failed f) = (err (connect_raised f), record c { connect_failed = true })

-- `handle_request` up to the call of the connection below: the test of the origin, and the connect
-- if there is no connection yet.
unfoldable pub ensure_connection :
    Origin → (ℕ → Attempt) → ℕ → ℕ → Connection → Result Connection × Connection
unfolding connect connected_to
ensure_connection o attempts factor local_max c =
    if not (origin_eq o c.origin) then (err runtime_error, c) else elim c.inner [
      | some _ ↦ (ok c, c)
      | none ↦ connected_to local_max c (connect attempts factor c.retries).result
    ]

-- What the pool asks of the connection at one moment.
pub record Moment : Type 0 where
  pub now : ℕ
  pub readable : Bool
  pub h2_closed : Bool

abbrev pub inner_available : Moment → Inner → Bool
inner_available m (http11 c) = Http11.is_available c
inner_available m (http2 c) = Http2.is_available m.h2_closed c

unfoldable pub is_available : Moment → Connection → Bool
unfolding Http11.is_available Http2.is_available
is_available m c = elim c.inner [
  | none ↦
      c.http2_enabled
      && ((str_eq c.origin.scheme (codes "https") || not c.http1_enabled) && not c.connect_failed)
  | some i ↦ inner_available m i
]

abbrev pub inner_expired : Moment → Inner → Bool
inner_expired m (http11 c) = Http11.has_expired m.now m.readable c
inner_expired m (http2 c) = Http2.has_expired m.now c

unfoldable pub has_expired : Moment → Connection → Bool
unfolding Http11.has_expired Http2.has_expired
has_expired m c = elim c.inner [ none ↦ c.connect_failed | some i ↦ inner_expired m i ]

abbrev pub inner_idle : Inner → Bool
inner_idle (http11 c) = Http11.is_idle c
inner_idle (http2 c) = Http2.is_idle c

unfoldable pub is_idle : Connection → Bool
unfolding Http11.is_idle Http2.is_idle
is_idle c = elim c.inner [ none ↦ c.connect_failed | some i ↦ inner_idle i ]

abbrev pub inner_multiplexes : Inner → Bool
inner_multiplexes (http11 c) = false
inner_multiplexes (http2 c) = Http2.can_multiplex c

unfoldable pub can_multiplex : Connection → Bool
unfolding Http2.can_multiplex
can_multiplex c = elim c.inner [ none ↦ false | some i ↦ inner_multiplexes i ]

abbrev pub inner_closed : Inner → Bool
inner_closed (http11 c) = Http11.is_closed c
inner_closed (http2 c) = Http2.is_closed c

unfoldable pub is_closed : Connection → Bool
unfolding Http11.is_closed Http2.is_closed
is_closed c = elim c.inner [ none ↦ c.connect_failed | some i ↦ inner_closed i ]

abbrev pub inner_connected : Inner → Bool
inner_connected (http11 c) = Http11.is_connected c
inner_connected (http2 c) = Http2.is_connected c

unfoldable pub is_connected : Connection → Bool
unfolding Http11.is_connected Http2.is_connected
is_connected c = elim c.inner [ none ↦ false | some i ↦ inner_connected i ]

abbrev pub close_inner : Inner → Inner
close_inner (http11 c) = http11 (Http11.close c)
close_inner (http2 c) = http2 (Http2.close c)

unfoldable pub close : Connection → Connection
unfolding Http11.close Http2.close
close c = elim c.inner [ none ↦ c | some i ↦ record c { inner = some (close_inner i) } ]

unfoldable pub can_handle_request : Connection → Origin → Bool
can_handle_request c o = origin_eq o c.origin

-- The interface that the pool uses, with the branch of `ConnectionPool.create_connection` that has
-- no proxy.
abbrev pub http_connections : Options → Moment → Interface Connection
http_connections opts m = record {
  can_handle_request = can_handle_request;
  is_available = is_available m;
  has_expired = has_expired m;
  is_idle = is_idle;
  can_multiplex = can_multiplex;
  is_closed = is_closed;
  is_connected = is_connected;
  close = close;
  create_connection = create opts;
}
