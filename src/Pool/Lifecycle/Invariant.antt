-- ===== src/Pool/Lifecycle/Invariant.antt =====
-- What holds of the pool after any interleaving of sections.
use httpx.Prelude.{ℕ, ◌≤◌, ◌<◌, List, [], ◌∷◌, ◌==◌, arith, length, count, count-append}
use httpx.Pool.{
  Interface, PoolRequest, Pool, Scan, serve, assign_requests_to_connections, scan_start,
  open_connection, replace, reuse, del_first,
}
use httpx.Pool.Refs.{count-del_first-le}
use httpx.Pool.Cases.{serve_cases, scan_induction}
use httpx.Pool.Limits.{pass-within_limit}
use httpx.Pool.Assigned.{count-start-le}
use httpx.Pool.Lifecycle.{
  Action, Result, ok, err, starts, passes, not_available, finishes, closes_connection, changes,
  after_start, after_finish, check_scheme, submit, remove_request, closes, start_request, step, run,
}

-- The pool keeps within its limit, lists connections that exist, and lists each once.
pub record Inv {C : Type 0} (p : Pool C) : Type 0 where
  pub limit : length p.connections ≤ p.max_connections
  pub known : (a : ℕ) → 0 < count a p.connections → a < p.next
  pub once : (a : ℕ) → count a p.connections ≤ 1

record ListsOnce {C : Type 0} (s : Scan C) : Type 0 where
  known : (a : ℕ) → 0 < count a s.conns → a < s.fresh
  once : (a : ℕ) → count a s.conns ≤ 1

module _ {C : Type 0} (ops : Interface C) where
  serve-ListsOnce : (r : PoolRequest) (s : Scan C) → ListsOnce s → ListsOnce (serve ops r s).0
  unfolding open_connection replace reuse
  serve-ListsOnce r s v =
      serve_cases ops (λ (u : Scan C × PoolRequest). ListsOnce u.0) r s
        (record {
          skipped = λ _. v;
          reused = λ _ d _. record {
            known = λ a. ground (arith, v.known a);
            once = λ a. ground (arith, v.once a);
          };
          opened = λ _ _ _. record {
            known = λ a. ground (arith, v.known a, count-append a s.conns (s.fresh ∷ []));
            once = λ a. ground (arith, v.once a, v.known a, count-append a s.conns (s.fresh ∷ []));
          };
          waits = λ _ _ _ _. v;
          replaced = λ _ _ _ d e. record {
            known = λ a. ground (
              arith,
              v.known a,
              count-append a (del_first (λ x. x == d) s.conns) (s.fresh ∷ []),
              count-del_first-le (λ x. x == d) s.conns a,
            );
            once = λ a. ground (
              arith,
              v.once a,
              v.known a,
              count-append a (del_first (λ x. x == d) s.conns) (s.fresh ∷ []),
              count-del_first-le (λ x. x == d) s.conns a,
            );
          };
        })

  start-ListsOnce : (p : Pool C) → Inv p → ListsOnce (scan_start ops p)
  unfolding scan_start
  start-ListsOnce p v = record {
    known = λ a. ground (arith, v.known a, (count-start-le ops p a).0);
    once = λ a. ground (arith, v.once a, (count-start-le ops p a).0);
  }

  pass-Inv : (p : Pool C) → Inv p → Inv (assign_requests_to_connections ops p).0
  unfolding assign_requests_to_connections
  pass-Inv p v =
      let done =
        scan_induction ops ListsOnce serve-ListsOnce p.requests (scan_start ops p)
          (start-ListsOnce p v) in
      record { limit = pass-within_limit ops p v.limit; known = done.known; once = done.once }

  step-Inv : (a : Action ops) (p : Pool C) → Inv p → Inv (step ops a p)
  unfolding step start_request submit
  step-Inv (starts key scheme origin) p v = started (check_scheme scheme)
    where
      started :
          (r : Result (Unit {0}))
          → Inv (after_start ops p (elim r [ ok _ ↦ ok (submit key origin p) | err e ↦ err e ]))
      started (ok _) = record { limit = v.limit; known = v.known; once = v.once }
      started (err e) = v
  step-Inv passes p v = pass-Inv p v
  step-Inv (not_available key) p v = record { limit = v.limit; known = v.known; once = v.once }
  step-Inv (finishes key) p v = finished (remove_request key p.requests)
    where
      finished :
          (r : Result (List PoolRequest))
          → Inv (
              after_finish ops p (elim r [
                | ok rs ↦ ok (assign_requests_to_connections ops (record p { requests = rs }))
                | err e ↦ err e
              ]))
      finished (ok rs) =
          pass-Inv (record p { requests = rs })
            (record { limit = v.limit; known = v.known; once = v.once })
      finished (err e) = v
  step-Inv (closes_connection c) p v = record { limit = v.limit; known = v.known; once = v.once }
  step-Inv (changes c state) p v = record { limit = v.limit; known = v.known; once = v.once }
  step-Inv closes p v = record {
    limit = omega arith;
    known = λ a h. absurd (omega arith);
    once = λ a. omega arith;
  }

  -- From a pool in order, after any sequence of sections and of changes of connection objects, the
  -- pool is in order: within `max_connections`, every listed connection exists and is listed once.
  pub run-Inv : (as' : List (Action ops)) (p : Pool C) → Inv p → Inv (run ops as' p)
  unfolding run
  run-Inv [] p v = v
  run-Inv (a ∷ as') p v = run-Inv as' (step ops a p) (step-Inv a p v)
