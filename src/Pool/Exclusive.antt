-- ===== src/Pool/Exclusive.antt =====
-- An idle HTTP/1.1 connection serves one request at a time.
use httpx.Prelude.{
  ℕ, ◌+◌, ◌≤◌, ◌<◌, ◌≡◌, refl, true, false, inl, inr, List, [], ◌∷◌, Bool-cases, arith, count, has,
}
use httpx.Pool.Refs.{count-del_first-le, count-del_first}
use httpx.Pool.Cases.{serve_cases}
use httpx.Pool.Assigned.{Grows, serve-Grows, count-start-le}
use httpx.Pool.{
  Interface, PoolRequest, Pool, Scan, is_queued, assign_to_connection, open_connection, reuse,
  replace, serve, saturated, scan, scan_start, assign_requests_to_connections, request_connections,
  available_connections,
}

-- How many requests hold the connection.
abbrev pub holders : ℕ → List PoolRequest → ℕ
holders c rs = count c (request_connections rs)

pub holders-cons :
    (c : ℕ) (r : PoolRequest) (rs : List PoolRequest)
    → holders c (r ∷ rs) ≡ holders c (r ∷ []) + holders c rs
unfolding request_connections
holders-cons c r rs = ground arith

module _ {C : Type 0} (ops : Interface C) (c : ℕ) where
  -- The connection takes one request at a time, and it is there.
  record IsSingle (s : Scan C) : Type 0 where
    idle : ops.is_idle (s.store c) ≡ true
    single : ops.can_multiplex (s.store c) ≡ false
    known : c < s.fresh

  IsSingle-Grows : {s t : Scan C} → Grows s t → IsSingle s → IsSingle t
  IsSingle-Grows g v = record {
    idle = rw (g.same c v.known) v.idle;
    single = rw (g.same c v.known) v.single;
    known = omega (arith, g.older, v.known);
  }

  serve-holders :
      (r : PoolRequest) (s : Scan C)
      → IsSingle s
      → holders c ((serve ops r s).1 ∷ []) + count c (serve ops r s).0.available
        ≤ holders c (r ∷ []) + count c s.available
  unfolding request_connections assign_to_connection reuse replace open_connection is_queued
  serve-holders r s v =
      serve_cases ops
        (λ (u : Scan C × PoolRequest).
          holders c (u.1 ∷ []) + count c u.0.available ≤ holders c (r ∷ []) + count c s.available)
        r s
        (record {
          skipped = λ _. omega arith;
          reused = λ q d h. ground (
            arith,
            v.idle,
            v.single,
            v.known,
            count-del_first (λ e. ops.can_handle_request (s.store e) r.origin) s.available d h c,
          );
          opened = λ q _ _. ground (arith, v.known);
          waits = λ _ _ _ _. omega arith;
          replaced = λ q _ _ d e.
              ground
                (arith, v.known, count-del_first-le (λ e. ops.is_idle (s.store e)) s.available c);
        })

  scan-holders :
      (rs : List PoolRequest) (s : Scan C)
      → IsSingle s
      → holders c (scan ops rs s).1 ≤ holders c rs + count c s.available
  unfolding scan
  scan-holders [] s v = omega arith
  scan-holders (r ∷ rs) s v = elim (Bool-cases (saturated ops s)) [
    | inl full ↦ rw full (omega arith)
    | inr more ↦ rw more (
        omega (
          arith,
          holders-cons c r rs,
          holders-cons c (serve ops r s).1 (scan ops rs (serve ops r s).0).1,
          serve-holders r s v,
          scan-holders rs (serve ops r s).0 (IsSingle-Grows (serve-Grows ops r s) v),
        ))
  ]

-- A reserved idle connection that takes one request at a time is not available.
pub reserved-count :
    {C : Type 0} (ops : Interface C) (heap : ℕ → C) (reserved cs : List ℕ) (c : ℕ)
    → ops.is_idle (heap c) ≡ true
    → ops.can_multiplex (heap c) ≡ false
    → has c reserved ≡ true
    → count c (available_connections ops heap reserved cs) ≡ 0
unfolding available_connections
reserved-count ops heap reserved [] c i m h = refl
reserved-count ops heap reserved (d ∷ cs) c i m h =
    ground (arith, reserved-count ops heap reserved cs c i m h)

not-has-count : (c : ℕ) (xs : List ℕ) → has c xs ≡ false → count c xs ≡ 0
not-has-count c [] h = refl
not-has-count c (x ∷ xs) h = ground (arith, not-has-count c xs)

start-room :
    {C : Type 0} (ops : Interface C) (p : Pool C) (c : ℕ)
    → count c p.connections ≤ 1
    → ops.is_idle (p.heap c) ≡ true
    → ops.can_multiplex (p.heap c) ≡ false
    → holders c p.requests ≤ 1
    → holders c p.requests + count c (scan_start ops p).available ≤ 1
unfolding scan_start
start-room ops p c once idle single held =
    elim (Bool-cases (has c (request_connections p.requests))) [
      | inl reserved ↦ omega (
        arith,
        reserved-count ops p.heap (request_connections p.requests) _ c idle single reserved,
      )
      | inr free ↦ omega (
        arith,
        not-has-count c (request_connections p.requests) free,
        (count-start-le ops p c).0,
        (count-start-le ops p c).1,
      )
    ]

start-IsSingle :
    {C : Type 0} (ops : Interface C) (p : Pool C) (c : ℕ)
    → c < p.next
    → ops.is_idle (p.heap c) ≡ true
    → ops.can_multiplex (p.heap c) ≡ false
    → IsSingle ops c (scan_start ops p)
unfolding scan_start
start-IsSingle ops p c l idle single = record { idle = idle; single = single; known = l }

-- If a connection is listed once, is idle, cannot multiplex and is held by at most one request
-- before a pass, then at most one request holds it after the pass.
pub one_request :
    {C : Type 0} (ops : Interface C) (p : Pool C) (c : ℕ)
    → c < p.next
    → count c p.connections ≤ 1
    → ops.is_idle (p.heap c) ≡ true
    → ops.can_multiplex (p.heap c) ≡ false
    → holders c p.requests ≤ 1
    → holders c (assign_requests_to_connections ops p).0.requests ≤ 1
unfolding assign_requests_to_connections
one_request ops p c l once idle single held = omega (
  arith,
  scan-holders ops c p.requests (scan_start ops p) (start-IsSingle ops p c l idle single),
  start-room ops p c once idle single held,
)
