-- ===== src/Pool/Limits.antt =====
-- The limits of the pool: connections in all, and idle ones that nobody has reserved.
use httpx.Prelude.{
  ℕ, ◌+◌, ◌-◌, ◌≤◌, ◌≡◌, true, List, [], ◌∷◌, arith, length, count-append, some, ◌==◌, ltb,
  length-append, keep,
}
use httpx.Pool.Refs.{
  Within, keep-Within, length-del_first, count-del_first-le, first-eq, first-count, replace-Within,
}
use httpx.Pool.Cases.{serve_cases, scan_induction}
use httpx.Pool.{
  Interface, PoolRequest, Pool, Scan, first, reuse, replace, open_connection, del_first, sweep,
  trim, idle_unreserved, serve, scan_start, request_connections, assign_requests_to_connections,
}

module _ {C : Type 0} (ops : Interface C) (heap : ℕ → C) (reserved : List ℕ) where
  length-sweep-le : (cs : List ℕ) → length (sweep ops heap reserved cs).1 ≤ length cs
  unfolding sweep
  length-sweep-le [] = omega arith
  length-sweep-le (c ∷ cs) = ground (arith, length-sweep-le cs)

  length-trim-le : (n : ℕ) (cs : List ℕ) → length (trim ops heap reserved n cs).1 ≤ length cs
  unfolding trim
  length-trim-le n [] = omega arith
  length-trim-le n (c ∷ cs) = ground (arith, length-trim-le n cs, length-trim-le (n - 1) cs)

  -- The second loop drops as many idle connections as it is told to, if there are that many.
  pub idle-trim :
      (n : ℕ) (cs : List ℕ)
      → length (keep (idle_unreserved ops heap reserved) (trim ops heap reserved n cs).1)
        ≡ length (keep (idle_unreserved ops heap reserved) cs) - n
  unfolding trim
  idle-trim n [] = omega arith
  idle-trim n (c ∷ cs) = ground (arith, idle-trim n cs, idle-trim (n - 1) cs)

-- The loop's invariant: what may be assigned is in the pool, and the pool has room for the budget.
pub record Fits {C : Type 0} (max : ℕ) (s : Scan C) : Type 0 where
  pub within : Within s.available s.conns
  pub room : length s.conns + s.budget ≡ max

module _ {C : Type 0} (ops : Interface C) (max : ℕ) where
  reuse-Fits :
      (r : PoolRequest) (c : ℕ) (s : Scan C) → Fits max s → Fits max (reuse ops r.origin c s)
  unfolding reuse
  reuse-Fits r c s v = record {
    within = record {
      at = λ a. ground (
        arith,
        v.within.at a,
        count-del_first-le (λ d. ops.can_handle_request (s.store d) r.origin) s.available a,
      );
    };
    room = ground arith;
  }

  create-Fits :
      (r : PoolRequest) (s : Scan C)
      → ltb 0 s.budget ≡ true
      → Fits max s
      → Fits max (record (open_connection ops r.origin s) { budget = s.budget - 1 })
  unfolding open_connection
  create-Fits r s h v = record {
    within = record {
      at = λ a. omega (arith, v.within.at a, count-append a s.conns (s.fresh ∷ []));
    };
    room = ground (arith, length-append s.conns (s.fresh ∷ []));
  }

  replace-Fits :
      (r : PoolRequest) (c : ℕ) (s : Scan C)
      → first (λ d. ops.is_idle (s.store d)) s.available ≡ some c
      → Fits max s
      → Fits max (replace ops r.origin c s)
  unfolding replace open_connection
  replace-Fits r c s h v = record {
    within = replace-Within (λ d. ops.is_idle (s.store d)) s.available s.conns c s.fresh h v.within;
    room = ground (
      arith,
      length-append (del_first (λ d. d == c) s.conns) (s.fresh ∷ []),
      length-del_first (λ d. d == c) s.conns c
          (first-eq c s.conns (omega (arith, first-count _ s.available c h, v.within.at c))),
    );
  }

  pub serve-Fits : (r : PoolRequest) (s : Scan C) → Fits max s → Fits max (serve ops r s).0
  serve-Fits r s v =
      serve_cases ops (λ (t : Scan C × PoolRequest). Fits max t.0) r s
        (record {
          skipped = λ _. v;
          reused = λ _ c _. reuse-Fits r c s v;
          opened = λ _ _ more. create-Fits r s more v;
          waits = λ _ _ _ _. v;
          replaced = λ _ _ _ c e. replace-Fits r c s e v;
        })

-- The connections that the first two loops leave are no more than there were.
pub scan_start-Fits :
    {C : Type 0} (ops : Interface C) (p : Pool C)
    → length p.connections ≤ p.max_connections
    → Fits p.max_connections (scan_start ops p)
unfolding scan_start
scan_start-Fits ops p h =
    let reserved = request_connections p.requests in
    let swept = sweep ops p.heap reserved p.connections in
    let surplus =
      length (keep (idle_unreserved ops p.heap reserved) swept.1) - p.max_keepalive_connections in
    record {
      within = keep-Within _ (trim ops p.heap reserved surplus swept.1).1;
      room = omega (
        arith,
        length-trim-le ops p.heap reserved surplus swept.1,
        length-sweep-le ops p.heap reserved p.connections,
      );
    }

-- A pass over a pool within its limit leaves it within `max_connections`.
pub pass-within_limit :
    {C : Type 0} (ops : Interface C) (p : Pool C)
    → length p.connections ≤ p.max_connections
    → length (assign_requests_to_connections ops p).0.connections ≤ p.max_connections
unfolding assign_requests_to_connections
pass-within_limit ops p h =
    let done =
      scan_induction ops (Fits p.max_connections) (serve-Fits ops p.max_connections) p.requests
        (scan_start ops p) (scan_start-Fits ops p h) in
    omega (arith, done.room)

-- The idle connections that no request holds, among those that the two clean-up loops retain,
-- are at most `max_keepalive_connections`.
pub keepalive_limit :
    {C : Type 0} (ops : Interface C) (p : Pool C)
    → length (
        keep (idle_unreserved ops p.heap (request_connections p.requests)) (scan_start ops p).conns)
      ≤ p.max_keepalive_connections
unfolding scan_start
keepalive_limit ops p =
    let reserved = request_connections p.requests in
    let swept = sweep ops p.heap reserved p.connections in
    omega (
      arith,
      idle-trim ops p.heap reserved
          (length (keep (idle_unreserved ops p.heap reserved) swept.1)
            - p.max_keepalive_connections)
          swept.1,
    )
