-- ===== src/Pool.antt =====
-- httpcore2/httpcore2/_sync/connection_pool.py. Connection objects are shared between the pool's
-- list and the requests that were assigned to them, so both hold references into a store of
-- objects. A pass under the pool's lock reads one snapshot of the store.
pub mod EarlyStop
pub mod Limits
pub mod Refs
pub mod Cases
pub mod Starved
pub mod Lifecycle
pub mod Reserved
pub mod Retained
pub mod Exclusive
pub mod Assigned
use httpx.Prelude.{
  ℕ, ◌+◌, ◌-◌, Bool, true, false, ◌&&◌, ◌||◌, not, Option, none, some, List, [], ◌∷◌, ◌++◌, ltb,
  leb, ◌==◌, if◌then◌else◌, length, keep, has, min,
}
use httpx.Origin.{Origin}

-- interfaces.py, ConnectionInterface: what the pool asks of a connection of class `C`, at the
-- moment of the pass (`has_expired` reads the clock and the socket), and what creates one.
pub record Interface (C : Type 0) : Type 0 where
  pub can_handle_request : C → Origin → Bool
  pub is_available : C → Bool
  pub has_expired : C → Bool
  pub is_idle : C → Bool
  pub can_multiplex : C → Bool
  pub is_closed : C → Bool
  pub is_connected : C → Bool
  pub close : C → C
  pub create_connection : Origin → C

-- PoolRequest: `connection` is a reference; the event that wakes the waiter is set exactly when
-- a connection was assigned since the last clear.
pub record PoolRequest : Type 0 where
  pub key : ℕ
  pub origin : Origin
  pub connection : Option ℕ
  pub acquired : Bool

unfoldable pub assign_to_connection : PoolRequest → Option ℕ → PoolRequest
assign_to_connection r c = record r { connection = c; acquired = true }

unfoldable pub clear_connection : PoolRequest → PoolRequest
clear_connection r = record r { connection = none; acquired = false }

unfoldable pub is_queued : PoolRequest → Bool
is_queued r = elim r.connection [ none ↦ true | some _ ↦ false ]

-- The store of connection objects; `next` is the reference that the next object gets.
pub record Pool (C : Type 0) : Type 0 where
  pub max_connections : ℕ
  pub max_keepalive_connections : ℕ
  pub connections : List ℕ
  pub requests : List PoolRequest
  pub heap : ℕ → C
  pub next : ℕ

abbrev pub maxsize : ℕ
maxsize = 9223372036854775807

abbrev or_maxsize : Option ℕ → ℕ
or_maxsize none = maxsize
or_maxsize (some n) = n

-- The limits as `ConnectionPool.__init__` sets them. The heap is given.
unfoldable pub init : {C : Type 0} → Option ℕ → Option ℕ → (ℕ → C) → Pool C
init max_conn max_keep heap = record {
  max_connections = or_maxsize max_conn;
  max_keepalive_connections = min (or_maxsize max_conn) (or_maxsize max_keep);
  connections = [];
  requests = [];
  heap = heap;
  next = 0;
}

abbrev pub update : {C : Type 0} → (ℕ → C) → ℕ → C → ℕ → C
update h k v j = if j == k then v else h j

-- { r.connection for r in self._requests }
unfoldable pub request_connections : List PoolRequest → List ℕ
request_connections [] = []
request_connections (r ∷ rs) = elim r.connection [
  | none ↦ request_connections rs
  | some c ↦ c ∷ request_connections rs
]

module _ {C : Type 0} (ops : Interface C) (heap : ℕ → C) (reserved : List ℕ) where
  open ops use {is_closed, is_connected, is_idle, is_available, has_expired, can_multiplex}

  -- The first loop: the connections to close, and those retained.
  unfoldable pub sweep : List ℕ → List ℕ × List ℕ
  sweep [] = ([], [])
  sweep (c ∷ cs) =
      let rest = sweep cs in
      if is_closed (heap c)
      then rest
      else if not (is_connected (heap c) || has c reserved)
      then rest
      else if not (has c reserved) && has_expired (heap c)
      then (c ∷ rest.0, rest.1)
      else (rest.0, c ∷ rest.1)

  abbrev pub idle_unreserved : ℕ → Bool
  idle_unreserved c = is_idle (heap c) && not (has c reserved)

  -- The second loop, which closes `surplus` idle connections from the front.
  unfoldable pub trim : ℕ → List ℕ → List ℕ × List ℕ
  trim surplus [] = ([], [])
  trim surplus (c ∷ cs) =
      let drop_it = ltb 0 surplus && idle_unreserved c in
      let rest = trim (if drop_it then surplus - 1 else surplus) cs in
      if drop_it then (c ∷ rest.0, rest.1) else (rest.0, c ∷ rest.1)

  -- The connections that queued requests may be assigned to.
  abbrev pub usable : ℕ → Bool
  usable c =
      is_available (heap c)
      && not (is_idle (heap c) && (has c reserved && not (can_multiplex (heap c))))

  unfoldable pub available_connections : List ℕ → List ℕ
  available_connections = keep usable

-- The first element that passes a test, and the list without it.
unfoldable pub first : (ℕ → Bool) → List ℕ → Option ℕ
first p [] = none
first p (x ∷ xs) = let rest = first p xs in if p x then some x else rest

unfoldable pub del_first : (ℕ → Bool) → List ℕ → List ℕ
del_first p [] = []
del_first p (x ∷ xs) = let rest = del_first p xs in if p x then xs else x ∷ rest

-- The variables of the loop over the queued requests.
pub record Scan (C : Type 0) : Type 0 where
  pub available : List ℕ
  pub budget : ℕ
  pub conns : List ℕ
  pub closing : List ℕ
  pub store : ℕ → C
  pub fresh : ℕ

module _ {C : Type 0} (ops : Interface C) where
  open ops use {can_handle_request, is_idle, can_multiplex, create_connection}

  -- A new connection object, and the reference to it at the end of `self._connections`.
  unfoldable pub open_connection : Origin → Scan C → Scan C
  open_connection o s = record s {
    conns = s.conns ++ s.fresh ∷ [];
    store = update s.store s.fresh (create_connection o);
    fresh = s.fresh + 1;
  }

  -- Case 1: an existing connection. An idle HTTP/1.1 connection leaves the snapshot.
  unfoldable pub reuse : Origin → ℕ → Scan C → Scan C
  reuse o c s =
      if is_idle (s.store c) && not (can_multiplex (s.store c))
      then record s { available = del_first (λ d. can_handle_request (s.store d) o) s.available }
      else s

  -- Case 3: close an idle connection, and create one in its place.
  unfoldable pub replace : Origin → ℕ → Scan C → Scan C
  unfolding open_connection
  replace o c s = open_connection o (record s {
    available = del_first (λ d. is_idle (s.store d)) s.available;
    conns = del_first (λ d. d == c) s.conns;
    closing = s.closing ++ c ∷ [];
  })

  -- Cases 2 and 3, when no available connection can handle the request.
  unfoldable pub serve_new : PoolRequest → Scan C → Scan C × PoolRequest
  unfolding open_connection replace assign_to_connection
  serve_new r s =
      if ltb 0 s.budget
      then (
        record (open_connection r.origin s) { budget = s.budget - 1 },
        assign_to_connection r (some s.fresh),
      )
      else elim (first (λ d. is_idle (s.store d)) s.available) [
        | none ↦ (s, r)
        | some c ↦ (replace r.origin c s, assign_to_connection r (some s.fresh))
      ]

  -- The body of the loop over `self._requests`, after the test of the early stop.
  unfoldable pub serve : PoolRequest → Scan C → Scan C × PoolRequest
  unfolding reuse serve_new assign_to_connection is_queued
  serve r s =
      if not (is_queued r)
      then (s, r)
      else elim (first (λ d. can_handle_request (s.store d) r.origin) s.available) [
        | some c ↦ (reuse r.origin c s, assign_to_connection r (some c))
        | none ↦ serve_new r s
      ]

  is_empty : List ℕ → Bool
  is_empty [] = true
  is_empty (x ∷ xs) = false

  -- `if not available_connections and new_connection_budget <= 0: break`
  unfoldable pub saturated : Scan C → Bool
  unfolding is_empty
  saturated s = is_empty s.available && leb s.budget 0

  unfoldable pub scan : List PoolRequest → Scan C → Scan C × List PoolRequest
  scan [] s = (s, [])
  scan (r ∷ rs) s =
      let one = serve r s in
      let rest = scan rs one.0 in if saturated s then (s, r ∷ rs) else (rest.0, one.1 ∷ rest.1)

  -- The loop with no early stop.
  unfoldable pub scan_all : List PoolRequest → Scan C → Scan C × List PoolRequest
  scan_all [] s = (s, [])
  scan_all (r ∷ rs) s =
      let one = serve r s in let rest = scan_all rs one.0 in (rest.0, one.1 ∷ rest.1)

  -- The variables as the loop finds them: `self._connections` is what the second loop retained.
  unfoldable pub scan_start : Pool C → Scan C
  unfolding sweep trim available_connections request_connections
  scan_start p =
      let reserved = request_connections p.requests in
      let swept = sweep ops p.heap reserved p.connections in
      let idle = length (keep (idle_unreserved ops p.heap reserved) swept.1) in
      let trimmed = trim ops p.heap reserved (idle - p.max_keepalive_connections) swept.1 in
      record {
        available = available_connections ops p.heap reserved trimmed.1;
        budget = p.max_connections - length trimmed.1;
        conns = trimmed.1;
        closing = swept.0 ++ trimmed.0;
        store = p.heap;
        fresh = p.next;
      }

  -- `_assign_requests_to_connections`: the pool after the pass, and the connections to close.
  unfoldable pub assign_requests_to_connections : Pool C → Pool C × List ℕ
  unfolding scan scan_start
  assign_requests_to_connections p =
      let done = scan p.requests (scan_start p) in
      (
        record p {
          connections = done.0.conns;
          requests = done.1;
          heap = done.0.store;
          next = done.0.fresh;
        },
        done.0.closing,
      )

  -- `_close_connections`
  unfoldable pub close_connections : List ℕ → Pool C → Pool C
  close_connections [] p = p
  close_connections (c ∷ cs) p =
      close_connections cs (record p { heap = update p.heap c (ops.close (p.heap c)) })

  -- `close`: the pool's list is emptied under the lock, and what it held is to be closed.
  unfoldable pub close_pool : Pool C → Pool C × List ℕ
  close_pool p = (record p { connections = [] }, p.connections)
