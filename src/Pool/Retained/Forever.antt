-- ===== src/Pool/Retained/Forever.antt =====
-- A connection that the pool takes neither for closed nor for usable at any moment, in any sequence
-- of the sections under the pool's lock.
use httpx.Prelude.{
  ℕ, ◌<◌, ◌≡◌, refl, sym, subst, ◌∙◌, Bool, true, false, not, none, List, [], ◌∷◌, ◌++◌, ◌==◌,
  arith, count, All, Bool-cases, inl, inr,
}
use httpx.Origin.{Origin}
use httpx.Pool.{
  Interface, Pool, PoolRequest, assign_requests_to_connections, request_connections,
  clear_connection, close_connections, update,
}
use httpx.Pool.Exclusive.{holders, holders-cons}
use httpx.Pool.Retained.{IsInert, inert-IsPassedBy}
use httpx.Pool.Lifecycle.{
  Action, Result, ok, err, starts, passes, not_available, finishes, closes_connection, changes,
  closes, after_start, after_finish, check_scheme, submit, remove_request, clear_request, step,
  start_request,
}

-- A request that was just submitted holds nothing.
submit-free :
    (c key : ℕ) (origin : Origin) (rs : List PoolRequest)
    → holders c rs ≡ 0
    → holders c
        (rs ++ record { key = key; origin = origin; connection = none; acquired = false } ∷ [])
      ≡ 0
unfolding request_connections
submit-free c key origin [] h = refl
submit-free c key origin (r ∷ rs) h =
    let new : PoolRequest = record {
      key = key;
      origin = origin;
      connection = none;
      acquired = false;
    } in
    let rest : holders c rs ≡ 0 = omega (arith, holders-cons c r rs) in
    omega (
      arith,
      holders-cons c r rs,
      holders-cons c r (rs ++ new ∷ []),
      submit-free c key origin rs rest,
    )

clear_request-free :
    (c key : ℕ) (rs : List PoolRequest) → holders c rs ≡ 0 → holders c (clear_request key rs) ≡ 0
unfolding clear_request clear_connection request_connections
clear_request-free c key [] h = refl
clear_request-free c key (r ∷ rs) h = ground (
  arith,
  holders-cons c r rs,
  holders-cons c r (clear_request key rs),
  clear_request-free c key rs,
)

-- What the removal of a request leaves.
abbrev AllFree : ℕ → Result (List PoolRequest) → Type 0
AllFree c (ok rs) = holders c rs ≡ 0
AllFree c (err e) = Unit

remove_request-free :
    (c key : ℕ) (rs : List PoolRequest) → holders c rs ≡ 0 → AllFree c (remove_request key rs)
unfolding remove_request request_connections
remove_request-free c key [] h = tt
remove_request-free c key (r ∷ rs) h = elim (Bool-cases (r.key == key)) [
  | inl e ↦ rw e (omega (arith, holders-cons c r rs))
  | inr e ↦ rw e (kept (remove_request key rs) (remove_request-free c key rs rest))
]
  where
    rest : holders c rs ≡ 0
    rest = omega (arith, holders-cons c r rs)

    kept :
        (o : Result (List PoolRequest))
        → AllFree c o
        → AllFree c (elim o [ ok rs' ↦ ok (r ∷ rs') | err e ↦ err e ])
    kept (ok rs') f = omega (arith, holders-cons c r rs, holders-cons c r rs')
    kept (err e) f = tt

update_other :
    {C : Type 0} (heap : ℕ → C) (d c : ℕ) (x : C) → not (d == c) ≡ true → update heap d x c ≡ heap c
update_other heap d c x h = let e : (c == d) ≡ false = ground arith in rw e refl

-- The connection `key` stands in the pool `k` times, in the state `x`, and no request holds it.
pub record IsStuck {C : Type 0} (key k : ℕ) (x : C) (p : Pool C) : Type 0 where
  pub listed : count key p.connections ≡ k
  pub same : p.heap key ≡ x
  pub free : holders key p.requests ≡ 0
  pub known : key < p.next

-- `at` is the interface of the connections at a moment.
module _ {M C : Type 0} (at : M → Interface C) (key : ℕ) where
  -- A section of the pool's code or a change of a connection, and the moment of it.
  abbrev pub Event : Type 0
  Event = (m : M) × Action (at m)

  -- The event is not the closing of the pool, and no code outside the pool's passes closes or
  -- changes the connection `key` in it.
  unfoldable pub spares : Event → Bool
  spares (m, starts k scheme origin) = true
  spares (m, passes) = true
  spares (m, not_available k) = true
  spares (m, finishes k) = true
  spares (m, closes_connection d) = not (d == key)
  spares (m, changes d state) = not (d == key)
  spares (m, closes) = false

  unfoldable pub run : List Event → Pool C → Pool C
  run [] p = p
  run ((m, a) ∷ events) p = run events (step (at m) a p)

  module _ (k : ℕ) (x : C) (inert : (m : M) → IsInert (at m) x) where
    pass-IsStuck :
        (m : M) (p : Pool C)
        → IsStuck key k x p
        → IsStuck key k x (assign_requests_to_connections (at m) p).0
    pass-IsStuck m p v =
        let d =
          inert-IsPassedBy (at m) p key v.known
            (subst (λ y. IsInert (at m) y) (sym v.same) (inert m)) in
        record {
          listed = d.listed ∙ v.listed;
          same = d.same ∙ v.same;
          free = d.free ∙ v.free;
          known = d.known;
        }

    step-IsStuck :
        (m : M) (a : Action (at m)) (p : Pool C)
        → spares (m, a) ≡ true
        → IsStuck key k x p
        → IsStuck key k x (step (at m) a p)
    unfolding step start_request submit close_connections spares
    step-IsStuck m (starts n scheme origin) p h v = started (check_scheme scheme)
      where
        started :
            (r : Result (Unit {0}))
            → IsStuck key k x
                (after_start (at m) p (elim r [ ok _ ↦ ok (submit n origin p) | err e ↦ err e ]))
        started (ok _) = record {
          listed = v.listed;
          same = v.same;
          free = submit-free key n origin p.requests v.free;
          known = v.known;
        }
        started (err e) = v
    step-IsStuck m passes p h v = pass-IsStuck m p v
    step-IsStuck m (not_available n) p h v = record {
      listed = v.listed;
      same = v.same;
      free = clear_request-free key n p.requests v.free;
      known = v.known;
    }
    step-IsStuck m (finishes n) p h v =
        finished (remove_request n p.requests) (remove_request-free key n p.requests v.free)
      where
        finished :
            (r : Result (List PoolRequest))
            → AllFree key r
            → IsStuck key k x (
                after_finish (at m) p (elim r [
                  | ok rs ↦ ok (assign_requests_to_connections (at m) (record p { requests = rs }))
                  | err e ↦ err e
                ]))
        finished (ok rs) f =
            pass-IsStuck m (record p { requests = rs })
              (record { listed = v.listed; same = v.same; free = f; known = v.known })
        finished (err e) f = v
    step-IsStuck m (closes_connection d) p h v = record {
      listed = v.listed;
      same = update_other p.heap d key ((at m).close (p.heap d)) h ∙ v.same;
      free = v.free;
      known = v.known;
    }
    step-IsStuck m (changes d state) p h v = record {
      listed = v.listed;
      same = update_other p.heap d key state h ∙ v.same;
      free = v.free;
      known = v.known;
    }
    step-IsStuck m closes p h v = cc

    pub run-IsStuck :
        (events : List Event) (p : Pool C)
        → All (λ e. spares e ≡ true) events
        → IsStuck key k x p
        → IsStuck key k x (run events p)
    unfolding run
    run-IsStuck [] p h v = v
    run-IsStuck ((m, a) ∷ events) p h v =
        run-IsStuck events (step (at m) a p) h.1 (step-IsStuck m a p h.0 v)
