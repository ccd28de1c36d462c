-- ===== src/Pool/Lifecycle.antt =====
-- The life of a request in the pool: the sections of `ConnectionPool.handle_request` and of
-- `PoolByteStream.close` that hold the pool's lock, in any interleaving, with the connection
-- objects changed by other code in between.
pub mod Invariant
use httpx.Prelude.{
  ℕ, Bool, true, false, ◌||◌, Option, none, some, List, [], ◌∷◌, ◌++◌, if◌then◌else◌, ◌==◌, Str,
  codes, str_eq,
}
use httpx.Origin.{Origin}
use httpx.Pool.{
  Interface, PoolRequest, Pool, update, clear_connection, assign_requests_to_connections,
  close_connections, close_pool,
}

-- How a section ends: normally, or with an exception that leaves `handle_request`.
pub data Error : Type 0 where
  missing_scheme unsupported_scheme value_error : Error

pub data Result {ℓ} (A : Type ℓ) : Type ℓ where
  ok : A → Result A
  err : Error → Result A

-- The test of the URL's scheme, before anything else.
unfoldable pub check_scheme : Str → Result (Unit {0})
check_scheme scheme =
    if str_eq scheme []
    then err missing_scheme
    else if str_eq scheme (codes "http")
        || (str_eq scheme (codes "https")
            || (str_eq scheme (codes "ws") || str_eq scheme (codes "wss")))
    then ok tt
    else err unsupported_scheme

-- `self._requests.append(PoolRequest(request))`
unfoldable pub submit : {C : Type 0} → ℕ → Origin → Pool C → Pool C
submit key origin p = record p {
  requests =
      p.requests ++ record { key = key; origin = origin; connection = none; acquired = false } ∷ [];
}

-- The start of `handle_request`.
unfoldable pub start_request : {C : Type 0} → ℕ → Str → Origin → Pool C → Result (Pool C)
unfolding check_scheme submit
start_request key scheme origin p = elim (check_scheme scheme) [
  | ok _ ↦ ok (submit key origin p)
  | err e ↦ err e
]

-- `self._requests.remove(pool_request)`: requests are equal when they are the same object.
unfoldable pub remove_request : ℕ → List PoolRequest → Result (List PoolRequest)
remove_request key [] = err value_error
remove_request key (r ∷ rs) =
    let rest = remove_request key rs in
    if r.key == key then ok rs else elim rest [ ok rs' ↦ ok (r ∷ rs') | err e ↦ err e ]

-- `except ConnectionNotAvailable: pool_request.clear_connection()`
unfoldable pub clear_request : ℕ → List PoolRequest → List PoolRequest
unfolding clear_connection
clear_request key [] = []
clear_request key (r ∷ rs) =
    let rest = clear_request key rs in if r.key == key then clear_connection r ∷ rs else r ∷ rest

module _ {C : Type 0} (ops : Interface C) where
  -- What the handler of any other exception and the closing of a response's stream both do under
  -- the lock. The connections to close are returned.
  unfoldable pub finish_request : ℕ → Pool C → Result (Pool C × List ℕ)
  unfolding remove_request
  finish_request key p = elim (remove_request key p.requests) [
    | ok rs ↦ ok (assign_requests_to_connections ops (record p { requests = rs }))
    | err e ↦ err e
  ]

  -- `PoolByteStream.close`, with the stream's `_closed` flag.
  unfoldable pub close_stream : ℕ → Bool → Pool C → Result (Bool × Pool C × List ℕ)
  unfolding finish_request
  close_stream key true p = ok (true, p, [])
  close_stream key false p = elim (finish_request key p) [
    | ok (q, closing) ↦ ok (true, q, closing)
    | err e ↦ err e
  ]

  -- One section by one task; the closing of one connection, which is outside the lock; or a change
  -- of a connection object by the code that uses it.
  pub data Action : Type 0 where
    starts : ℕ → Str → Origin → Action
    passes : Action
    not_available : ℕ → Action
    finishes : ℕ → Action
    closes_connection : ℕ → Action
    changes : ℕ → C → Action
    closes : Action

  -- An exception leaves the pool as it was.
  abbrev pub after_start : Pool C → Result (Pool C) → Pool C
  after_start p (ok q) = q
  after_start p (err e) = p

  abbrev pub after_finish : Pool C → Result (Pool C × List ℕ) → Pool C
  after_finish p (ok q) = q.0
  after_finish p (err e) = p

  unfoldable pub step : Action → Pool C → Pool C
  unfolding start_request clear_request finish_request close_pool close_connections
  step (starts key scheme origin) p = after_start p (start_request key scheme origin p)
  step passes p = (assign_requests_to_connections ops p).0
  step (not_available key) p = record p { requests = clear_request key p.requests }
  step (finishes key) p = after_finish p (finish_request key p)
  step (closes_connection c) p = close_connections ops (c ∷ []) p
  step (changes c state) p = record p { heap = update p.heap c state }
  step closes p = (close_pool ops p).0

  unfoldable pub run : List Action → Pool C → Pool C
  unfolding step
  run [] p = p
  run (a ∷ as') p = run as' (step a p)
