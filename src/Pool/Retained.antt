-- ===== src/Pool/Retained.antt =====
-- A connection that the pool takes neither for closed nor for usable.
pub mod Forever
use httpx.Prelude.{
  ℕ, ◌-◌, ◌<◌, ◌≡◌, refl, Bool, true, false, inl, inr, some, List, [], ◌∷◌, Bool-cases, keep, arith,
  length, count, ◌==◌, has, count-append,
}
use httpx.Pool.Refs.{count-del_first-le, first-count}
use httpx.Pool.Cases.{serve_cases}
use httpx.Pool.Exclusive.{holders, holders-cons}
use httpx.Pool.{
  Interface, PoolRequest, Pool, Scan, first, del_first, is_queued, assign_to_connection,
  open_connection, reuse, sweep, trim, available_connections, idle_unreserved, replace, serve,
  saturated, scan, scan_start, assign_requests_to_connections, request_connections,
}
use httpx.Pool.Reserved.{count-del_first_ne}

-- What the pool sees of it.
pub record IsInert {C : Type 0} (ops : Interface C) (x : C) : Type 0 where
  pub open' : ops.is_closed x ≡ false
  pub connected : ops.is_connected x ≡ true
  pub alive : ops.has_expired x ≡ false
  pub busy : ops.is_idle x ≡ false
  pub unavailable : ops.is_available x ≡ false

module _ {C : Type 0} (ops : Interface C) (c k : ℕ) (x : C) where
  -- The connection stands in the pool `k` times, is not to be closed, and is not in the snapshot of
  -- the available connections.
  record IsKept (s : Scan C) : Type 0 where
    listed : count c s.conns ≡ k
    open' : count c s.closing ≡ 0
    known : c < s.fresh
    same : s.store c ≡ x
    unavailable : count c s.available ≡ 0

  replace-IsKept :
      (r : PoolRequest) (d : ℕ) (s : Scan C)
      → first (λ e. ops.is_idle (s.store e)) s.available ≡ some d
      → IsKept s
      → IsKept (replace ops r.origin d s)
  unfolding replace open_connection
  replace-IsKept r d s e v =
      let found = first-count (λ e. ops.is_idle (s.store e)) s.available d e in
      record {
        listed = ground (
          arith,
          v.listed,
          v.known,
          v.unavailable,
          found,
          count-append c (del_first (λ e. e == d) s.conns) (s.fresh ∷ []),
          count-del_first_ne (λ e. e == d) s.conns c,
        );
        open' = ground (arith, v.open', v.unavailable, found, count-append c s.closing (d ∷ []));
        known = ground (arith, v.known);
        same = ground (arith, v.known, v.same);
        unavailable =
            ground (
              arith,
              v.unavailable,
              count-del_first-le (λ e. ops.is_idle (s.store e)) s.available c,
            );
      }

  serve-IsKept : (r : PoolRequest) (s : Scan C) → IsKept s → IsKept (serve ops r s).0
  unfolding open_connection reuse
  serve-IsKept r s v =
      serve_cases ops (λ (u : Scan C × PoolRequest). IsKept u.0) r s
        (record {
          skipped = λ _. v;
          reused = λ _ d _. record {
            listed = ground (arith, v.listed);
            open' = ground (arith, v.open');
            known = ground (arith, v.known);
            same = ground (arith, v.same);
            unavailable = ground (
              arith,
              v.unavailable,
              count-del_first-le (λ e. ops.can_handle_request (s.store e) r.origin) s.available c,
            );
          };
          opened = λ _ _ _. record {
            listed = ground (arith, v.listed, v.known, count-append c s.conns (s.fresh ∷ []));
            open' = v.open';
            known = ground (arith, v.known);
            same = ground (arith, v.known, v.same);
            unavailable = v.unavailable;
          };
          waits = λ _ _ _ _. v;
          replaced = λ _ _ _ d e. replace-IsKept r d s e v;
        })

  -- No request gets it.
  serve-holders :
      (r : PoolRequest) (s : Scan C)
      → IsKept s
      → holders c ((serve ops r s).1 ∷ []) ≡ holders c (r ∷ [])
  unfolding request_connections assign_to_connection is_queued
  serve-holders r s v =
      serve_cases ops (λ (u : Scan C × PoolRequest). holders c (u.1 ∷ []) ≡ holders c (r ∷ [])) r s
        (record {
          skipped = λ _. refl;
          reused = λ q d h. ground (
            arith,
            v.unavailable,
            first-count (λ e. ops.can_handle_request (s.store e) r.origin) s.available d h,
          );
          opened = λ q _ _. ground (arith, v.known);
          waits = λ _ _ _ _. refl;
          replaced = λ q _ _ d e. ground (arith, v.known);
        })

  scan-IsKept :
      (rs : List PoolRequest) (s : Scan C)
      → IsKept s
      → IsKept (scan ops rs s).0 × (holders c (scan ops rs s).1 ≡ holders c rs)
  unfolding scan
  scan-IsKept [] s v = (v, refl)
  scan-IsKept (r ∷ rs) s v = elim (Bool-cases (saturated ops s)) [
    | inl full ↦ rw full (v, refl)
    | inr more ↦
        let later = scan-IsKept rs (serve ops r s).0 (serve-IsKept r s v) in
        rw more (
          later.0,
          omega (
            arith,
            holders-cons c r rs,
            holders-cons c (serve ops r s).1 (scan ops rs (serve ops r s).0).1,
            serve-holders r s v,
            later.1,
          ),
        )
  ]

module _ {C : Type 0} (ops : Interface C) (heap : ℕ → C) (reserved : List ℕ) (c : ℕ)
    (v : IsInert ops (heap c)) where
  sweep-inert :
      (cs : List ℕ)
      → (count c (sweep ops heap reserved cs).1 ≡ count c cs)
        × (count c (sweep ops heap reserved cs).0 ≡ 0)
  unfolding sweep
  sweep-inert [] = (refl, refl)
  sweep-inert (d ∷ cs) = ground (arith, sweep-inert cs, v.open', v.connected, v.alive)

  trim-inert :
      (n : ℕ) (cs : List ℕ)
      → (count c (trim ops heap reserved n cs).1 ≡ count c cs)
        × (count c (trim ops heap reserved n cs).0 ≡ 0)
  unfolding trim
  trim-inert n [] = (refl, refl)
  trim-inert n (d ∷ cs) = ground (arith, trim-inert n cs, trim-inert (n - 1) cs, v.busy)

  available-inert : (cs : List ℕ) → count c (available_connections ops heap reserved cs) ≡ 0
  unfolding available_connections
  available-inert [] = refl
  available-inert (d ∷ cs) = ground (arith, available-inert cs, v.unavailable)

module _ {C : Type 0} (ops : Interface C) (p : Pool C) (c : ℕ) where
  start-IsKept :
      c < p.next
      → IsInert ops (p.heap c)
      → IsKept ops c (count c p.connections) (p.heap c) (scan_start ops p)
  unfolding scan_start
  start-IsKept l v =
      let reserved = request_connections p.requests in
      let swept = sweep ops p.heap reserved p.connections in
      let surplus =
        length (keep (idle_unreserved ops p.heap reserved) swept.1) - p.max_keepalive_connections in
      let trimmed = trim ops p.heap reserved surplus swept.1 in
      let s = sweep-inert ops p.heap reserved c v p.connections in
      let t = trim-inert ops p.heap reserved c v surplus swept.1 in
      record {
        listed = omega (arith, s.0, t.0);
        open' = omega (arith, count-append c swept.0 trimmed.0, s.1, t.1);
        known = l;
        same = refl;
        unavailable = available-inert ops p.heap reserved c v trimmed.1;
      }

  -- A pass leaves it in the pool as it was, does not close it, and gives it to no request.
  pub record IsPassedBy (done : Pool C × List ℕ) : Type 0 where
    pub listed : count c done.0.connections ≡ count c p.connections
    pub open' : count c done.1 ≡ 0
    pub known : c < done.0.next
    pub same : done.0.heap c ≡ p.heap c
    pub free : holders c done.0.requests ≡ holders c p.requests

  pub inert-IsPassedBy :
      c < p.next → IsInert ops (p.heap c) → IsPassedBy (assign_requests_to_connections ops p)
  unfolding assign_requests_to_connections
  inert-IsPassedBy l v =
      let (kept, free) =
        scan-IsKept ops c (count c p.connections) (p.heap c) p.requests (scan_start ops p)
          (start-IsKept l v) in
      record {
        listed = kept.listed;
        open' = kept.open';
        known = kept.known;
        same = kept.same;
        free = free;
      }
