-- ===== src/Pool/Starved.antt =====
-- What is true of a request that is still in the queue after a pass.
use httpx.Prelude.{
  ℕ, ◌≤◌, ◌≡◌, refl, Bool, true, inl, inr, none, some, List, [], ◌∷◌, Bool-cases, All,
  All-get_elem?, get_elem?, arith, length,
}
use httpx.Pool.Limits.{Fits, serve-Fits, scan_start-Fits}
use httpx.Pool.Cases.{handler, idle, serve_cases, scan_induction}
use httpx.Pool.{
  Interface, PoolRequest, Pool, Scan, first, del_first, is_queued, assign_to_connection, reuse,
  serve, saturated, scan, scan_start, assign_requests_to_connections,
}

first-del_first :
    (p q : ℕ → Bool) (xs : List ℕ) → first p xs ≡ none → first p (del_first q xs) ≡ none
unfolding first del_first
first-del_first p q [] h = refl
first-del_first p q (x ∷ xs) h = ground (arith, first-del_first p q xs)

-- No connection can be assigned to the request, none may be opened and none may be replaced.
pub record Stuck {C : Type 0} (ops : Interface C) (r : PoolRequest) (s : Scan C) : Type 0 where
  pub no_handler : handler ops r s ≡ none
  pub no_budget : s.budget ≡ 0
  pub no_idle : idle ops s ≡ none

module _ {C : Type 0} (ops : Interface C) where
  reuse-Stuck :
      (r t : PoolRequest) (c : ℕ) (s : Scan C)
      → Stuck ops r s
      → Stuck ops r (reuse ops t.origin c s)
  unfolding reuse
  reuse-Stuck r t c s h = ground (
    arith,
    first-del_first (λ d. ops.can_handle_request (s.store d) r.origin)
        (λ d. ops.can_handle_request (s.store d) t.origin) s.available,
    first-del_first (λ d. ops.is_idle (s.store d))
        (λ d. ops.can_handle_request (s.store d) t.origin) s.available,
  )

  Stuck-serve :
      (r : PoolRequest) (t : PoolRequest) (s : Scan C)
      → Stuck ops r s
      → Stuck ops r (serve ops t s).0
  Stuck-serve r t s h =
      serve_cases ops (λ (u : Scan C × PoolRequest). Stuck ops r u.0) t s
        (record {
          skipped = λ _. h;
          reused = λ _ c _. reuse-Stuck r t c s h;
          opened = λ _ _ more. absurd (ground (arith, h.no_budget));
          waits = λ _ _ _ _. h;
          replaced = λ _ _ _ c e. absurd (cc (h.no_idle));
        })

  serve-waits :
      (r : PoolRequest) (s : Scan C)
      → is_queued (serve ops r s).1 ≡ true
      → Stuck ops r (serve ops r s).0 × ((serve ops r s).1 ≡ r)
  unfolding is_queued assign_to_connection
  serve-waits r s =
      serve_cases ops
        (λ (u : Scan C × PoolRequest). is_queued u.1 ≡ true → Stuck ops r u.0 × (u.1 ≡ r)) r s
        (record {
          skipped = λ out q. absurd (cc);
          reused = λ _ c _ q. absurd (cc);
          opened = λ _ _ _ q. absurd (cc);
          waits = λ _ n full e q.
              (record { no_handler = n; no_budget = ground arith; no_idle = e }, refl);
          replaced = λ _ _ _ c e q. absurd (cc);
        })

  saturated-Stuck : (r : PoolRequest) (s : Scan C) → saturated ops s ≡ true → Stuck ops r s
  unfolding saturated first
  saturated-Stuck r s h = ground arith

  abbrev WaitsStuck : Scan C → PoolRequest → Type 0
  WaitsStuck s r = is_queued r ≡ true → Stuck ops r s

  All-Stuck : (s : Scan C) (rs : List PoolRequest) → saturated ops s ≡ true → All (WaitsStuck s) rs
  All-Stuck s [] h = tt
  All-Stuck s (r ∷ rs) h = (λ _. saturated-Stuck r s h, All-Stuck s rs h)

  scan-Stuck :
      (rs : List PoolRequest) (s : Scan C) → All (WaitsStuck (scan ops rs s).0) (scan ops rs s).1
  unfolding scan
  scan-Stuck [] s = tt
  scan-Stuck (r ∷ rs) s = elim (Bool-cases (saturated ops s)) [
    | inl full ↦ rw full (All-Stuck s (r ∷ rs) full)
    | inr more ↦ rw more (
      λ q.
          let (stuck, same) = serve-waits r s q in
          scan_induction ops (Stuck ops (serve ops r s).1) (Stuck-serve (serve ops r s).1) rs
            (serve ops r s).0 (rw same stuck),
      scan-Stuck rs (serve ops r s).0,
    )
  ]

  -- If a request is still in the queue after a pass over a pool within its limit, the pool is full,
  -- and of the connections that the pass could still assign none can handle the request's origin
  -- and none is idle.
  pub queued_means_full :
      (p : Pool C) (i : ℕ) (r : PoolRequest)
      → length p.connections ≤ p.max_connections
      → get_elem? (assign_requests_to_connections ops p).0.requests i ≡ some r
      → is_queued r ≡ true
      → let done = (scan ops p.requests (scan_start ops p)).0 in
        (length (assign_requests_to_connections ops p).0.connections ≡ p.max_connections)
        × (handler ops r done ≡ none)
        × (idle ops done ≡ none)
  unfolding assign_requests_to_connections
  queued_means_full p i r within at q =
      let fits =
        scan_induction ops (Fits p.max_connections) (serve-Fits ops p.max_connections) p.requests
          (scan_start ops p) (scan_start-Fits ops p within) in
      let stuck =
        All-get_elem? (WaitsStuck (scan ops p.requests (scan_start ops p)).0)
          (scan ops p.requests (scan_start ops p)).1 i r (scan-Stuck p.requests (scan_start ops p))
          at q in
      (omega (arith, fits.room, stuck.no_budget), stuck.no_handler, stuck.no_idle)
