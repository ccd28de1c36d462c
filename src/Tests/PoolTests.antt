-- ===== src/Tests/PoolTests.antt =====
-- A pool of two connections: an idle one to the first origin, and one in use to the second.
use httpx.Prelude.{
  ℕ, ◌≤◌, ◌≡◌, refl, true, false, some, none, [], ◌∷◌, ◌==◌, if◌then◌else◌, codes, str_eq, keep,
  get_elem?, arith, count, length, Option,
}
use httpx.Origin.{Origin, origin_eq, origin_eq_iff}
use httpx.Http11
use httpx.Http11.{Http11}
use httpx.Connection.{
  Connection, Options, Moment, http_connections, http11, is_idle, can_multiplex, is_closed,
  is_connected, has_expired, is_available, create, can_handle_request,
}
use httpx.Pool.Cases.{handler, idle}
use httpx.Pool.{
  Interface, serve, first, del_first, saturated, is_queued, idle_unreserved, Pool, PoolRequest,
  assign_requests_to_connections, scan, scan_start, scan_all, request_connections,
}
use httpx.Pool.EarlyStop.{scan-scan_all}
use httpx.Pool.Limits.{keepalive_limit}
use httpx.Pool.Starved.{queued_means_full}
use httpx.Pool.Assigned.{RefsKnown, Outcome, pass-assigns}
use httpx.Pool.Exclusive.{holders, one_request}
use httpx.Pool.Reserved.{held_stays}
use httpx.Pool.Lifecycle.{starts, passes, finishes, run}
use httpx.Pool.Lifecycle.Invariant.{Inv, run-Inv}

abbrev options : Options
options = record { keepalive = some 5; use_http1 = true; use_http2 = false; connect_retries = 0 }

abbrev moment : Moment
moment = record { now = 100; readable = false; h2_closed = false }

abbrev alpha : Origin
alpha = record { scheme = codes "https"; host = codes "a.org"; port = 443 }

abbrev beta : Origin
beta = record { scheme = codes "http"; host = codes "b.org"; port = 80 }

abbrev gamma : Origin
gamma = record { scheme = codes "http"; host = codes "c.org"; port = 80 }

abbrev over_http11 : Origin → Http11.State → Connection
over_http11 o state = record {
  origin = o;
  keepalive_expiry = some 5;
  http1_enabled = true;
  http2_enabled = false;
  retries = 0;
  inner = some (
      http11 (record {
        origin = o;
        keepalive_expiry = some 5;
        expire_at = none;
        state = state;
        request_count = 1;
      }));
  connect_failed = false;
}

abbrev objects : ℕ → Connection
objects c = if c == 0 then over_http11 alpha Http11.idle else over_http11 beta Http11.active

abbrev request : ℕ → Origin → Option ℕ → PoolRequest
request key o c = record { key = key; origin = o; connection = c; acquired = false }

abbrev two : Pool Connection
two = record {
  max_connections = 2;
  max_keepalive_connections = 1;
  connections = 0 ∷ 1 ∷ [];
  requests = request 7 beta (some 1) ∷ request 8 alpha none ∷ request 9 gamma none ∷ [];
  heap = objects;
  next = 2;
}

abbrev ops : Interface Connection
ops = http_connections options moment

-- The second request gets the idle connection, and the third stays in the queue.
two_pass :
    (assign_requests_to_connections ops two).0.requests
    ≡ request 7 beta (some 1)
      ∷ record (request 8 alpha (some 0)) { acquired = true }
      ∷ request 9 gamma none
      ∷ []
unfolding assign_requests_to_connections origin_eq serve first del_first can_handle_request str_eq
    is_idle can_multiplex is_closed is_connected has_expired is_available saturated
two_pass = refl

two_known : RefsKnown two
two_known = record { at = λ a h. ground arith }

creates : (o : Origin) → ops.can_handle_request (ops.create_connection o) o ≡ true
unfolding can_handle_request create
creates o = (origin_eq_iff o o).1 refl

scan-scan_all_example :
    scan ops two.requests (scan_start ops two) ≡ scan_all ops two.requests (scan_start ops two)
scan-scan_all_example = scan-scan_all ops two.requests (scan_start ops two)

keepalive_limit_example :
    length (
      keep
        (idle_unreserved ops two.heap (request_connections two.requests))
        (scan_start ops two).conns)
    ≤ 1
keepalive_limit_example = keepalive_limit ops two

third_waits :
    get_elem? (assign_requests_to_connections ops two).0.requests 2 ≡ some (request 9 gamma none)
third_waits = rw two_pass

queued_means_full_example :
    (length (assign_requests_to_connections ops two).0.connections ≡ 2)
    × (handler ops (request 9 gamma none) (scan ops two.requests (scan_start ops two)).0 ≡ none)
    × (idle ops (scan ops two.requests (scan_start ops two)).0 ≡ none)
unfolding is_queued
queued_means_full_example =
    queued_means_full ops two 2 (request 9 gamma none) (omega arith) third_waits refl

pass-assigns_example :
    (r' : PoolRequest) × (get_elem? (assign_requests_to_connections ops two).0.requests 1 ≡ some r')
    × Outcome ops (scan ops two.requests (scan_start ops two)).0 (request 8 alpha none) r'
pass-assigns_example = pass-assigns ops two 1 (request 8 alpha none) creates two_known refl

one_request_example : holders 0 (assign_requests_to_connections ops two).0.requests ≤ 1
unfolding is_idle can_multiplex request_connections
one_request_example = one_request ops two 0 (omega arith) (omega arith) refl refl (omega arith)

held_stays_example :
    (count 1 (assign_requests_to_connections ops two).0.connections ≡ 1)
    × (count 1 (assign_requests_to_connections ops two).1 ≡ 0)
unfolding is_closed can_multiplex request_connections
held_stays_example = held_stays ops two 1 (omega arith) refl refl refl

two-Inv : Inv two
two-Inv = record { limit = omega arith; known = λ a h. ground arith; once = λ a. ground arith }

run-Inv_example : Inv (run ops (starts 10 (codes "http") beta ∷ passes ∷ finishes 8 ∷ []) two)
run-Inv_example = run-Inv ops (starts 10 (codes "http") beta ∷ passes ∷ finishes 8 ∷ []) two two-Inv
