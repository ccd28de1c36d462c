-- ===== src/Pool/Reserved.antt =====
-- A connection that a request holds is not taken from it by the pool.
use httpx.Prelude.{
  ℕ, ◌-◌, ◌<◌, ◌≡◌, refl, Bool, true, false, inl, inr, ◌⊎◌, some, List, [], ◌∷◌, Bool-cases, keep,
  arith, length, count, ◌==◌, has, count-append,
}
use httpx.Pool.Refs.{count-del_first-le, first-count, first-passes}
use httpx.Pool.Cases.{serve_cases, scan_induction}
use httpx.Pool.Exclusive.{reserved-count}
use httpx.Pool.{
  Interface, PoolRequest, Pool, Scan, first, del_first, open_connection, reuse, idle_unreserved,
  sweep, trim, replace, serve, scan_start, assign_requests_to_connections, request_connections,
}

pub count-del_first_ne :
    (p : ℕ → Bool) (xs : List ℕ) (c : ℕ) → p c ≡ false → count c (del_first p xs) ≡ count c xs
unfolding del_first
count-del_first_ne p [] c h = refl
count-del_first_ne p (x ∷ xs) c h = ground (arith, count-del_first_ne p xs c h)

module _ {C : Type 0} (ops : Interface C) (c k : ℕ) where
  -- The connection stands in the pool `k` times, is not to be closed, and cannot be picked as idle.
  record IsHeld (s : Scan C) : Type 0 where
    listed : count c s.conns ≡ k
    open' : count c s.closing ≡ 0
    known : c < s.fresh
    safe : (ops.is_idle (s.store c) ≡ false) ⊎ (count c s.available ≡ 0)

  replace-IsHeld :
      (r : PoolRequest) (d : ℕ) (s : Scan C)
      → first (λ e. ops.is_idle (s.store e)) s.available ≡ some d
      → IsHeld s
      → IsHeld (replace ops r.origin d s)
  unfolding replace open_connection
  replace-IsHeld r d s e v =
      let passes = first-passes (λ e. ops.is_idle (s.store e)) s.available d e in
      let found = first-count (λ e. ops.is_idle (s.store e)) s.available d e in
      record {
        listed = ground (
          arith,
          v.listed,
          v.known,
          v.safe,
          passes,
          found,
          count-append c (del_first (λ e. e == d) s.conns) (s.fresh ∷ []),
          count-del_first_ne (λ e. e == d) s.conns c,
        );
        open' = ground (arith, v.open', v.safe, passes, found, count-append c s.closing (d ∷ []));
        known = ground (arith, v.known);
        safe = ground (
          arith,
          v.known,
          v.safe,
          count-del_first-le (λ e. ops.is_idle (s.store e)) s.available c,
        );
      }

  serve-IsHeld : (r : PoolRequest) (s : Scan C) → IsHeld s → IsHeld (serve ops r s).0
  unfolding open_connection reuse
  serve-IsHeld r s v =
      serve_cases ops (λ (u : Scan C × PoolRequest). IsHeld u.0) r s
        (record {
          skipped = λ _. v;
          reused = λ _ d _. record {
            listed = ground (arith, v.listed);
            open' = ground (arith, v.open');
            known = ground (arith, v.known);
            safe = ground (
              arith,
              v.safe,
              count-del_first-le (λ e. ops.can_handle_request (s.store e) r.origin) s.available c,
            );
          };
          opened = λ _ _ _. record {
            listed = ground (arith, v.listed, v.known, count-append c s.conns (s.fresh ∷ []));
            open' = v.open';
            known = ground (arith, v.known);
            safe = ground (arith, v.known, v.safe);
          };
          waits = λ _ _ _ _. v;
          replaced = λ _ _ _ d e. replace-IsHeld r d s e v;
        })

module _ {C : Type 0} (ops : Interface C) (heap : ℕ → C) (reserved : List ℕ) (c : ℕ)
    (held : has c reserved ≡ true) where
  sweep-held :
      (cs : List ℕ)
      → ops.is_closed (heap c) ≡ false
      → (count c (sweep ops heap reserved cs).1 ≡ count c cs)
        × (count c (sweep ops heap reserved cs).0 ≡ 0)
  unfolding sweep
  sweep-held [] h = (refl, refl)
  sweep-held (d ∷ cs) h = ground (arith, sweep-held cs h)

  trim-held :
      (n : ℕ) (cs : List ℕ)
      → (count c (trim ops heap reserved n cs).1 ≡ count c cs)
        × (count c (trim ops heap reserved n cs).0 ≡ 0)
  unfolding trim
  trim-held n [] = (refl, refl)
  trim-held n (d ∷ cs) = ground (arith, trim-held n cs, trim-held (n - 1) cs)

module _ {C : Type 0} (ops : Interface C) (p : Pool C) (c : ℕ) where
  start-IsHeld :
      c < p.next
      → has c (request_connections p.requests) ≡ true
      → ops.is_closed (p.heap c) ≡ false
      → ops.can_multiplex (p.heap c) ≡ false
      → IsHeld ops c (count c p.connections) (scan_start ops p)
  unfolding scan_start
  start-IsHeld l held open' single =
      let reserved = request_connections p.requests in
      let swept = sweep ops p.heap reserved p.connections in
      let surplus =
        length (keep (idle_unreserved ops p.heap reserved) swept.1) - p.max_keepalive_connections in
      let trimmed = trim ops p.heap reserved surplus swept.1 in
      let s = sweep-held ops p.heap reserved c held p.connections open' in
      let t = trim-held ops p.heap reserved c held surplus swept.1 in
      record {
        listed = omega (arith, s.0, t.0);
        open' = omega (arith, count-append c swept.0 trimmed.0, s.1, t.1);
        known = l;
        safe = elim (Bool-cases (ops.is_idle (p.heap c))) [
          | inl i ↦ inr (reserved-count ops p.heap reserved trimmed.1 c i single held)
          | inr n ↦ inl n
        ];
      }

  -- A connection that a request holds, that is not closed and that cannot multiplex stands in the
  -- pool after a pass as often as before, and is not among the connections to close.
  pub held_stays :
      c < p.next
      → has c (request_connections p.requests) ≡ true
      → ops.is_closed (p.heap c) ≡ false
      → ops.can_multiplex (p.heap c) ≡ false
      → (count c (assign_requests_to_connections ops p).0.connections ≡ count c p.connections)
        × (count c (assign_requests_to_connections ops p).1 ≡ 0)
  unfolding assign_requests_to_connections
  held_stays l held open' single =
      let done =
        scan_induction ops (IsHeld ops c (count c p.connections))
          (serve-IsHeld ops c (count c p.connections)) p.requests (scan_start ops p)
          (start-IsHeld l held open' single) in
      (done.listed, done.open')
