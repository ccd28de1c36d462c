-- ===== src/Pool/Assigned.antt =====
-- Which connection a pass assigns a request to.
use httpx.Prelude.{
  ℕ, ◌-◌, ◌≤◌, ◌<◌, ◌≡◌, refl, ◌∙◌, true, inl, inr, ◌⊎◌, some, List, [], ◌∷◌, Bool-cases, arith,
  length, keep, count, get_elem?, Pairs, Pairs-refl, Pairs-get_elem?,
}
use httpx.Origin.{Origin}
use httpx.Pool.Refs.{count-del_first-le, keep-Within, first-count, first-passes}
use httpx.Pool.Cases.{serve_cases, scan_induction}
use httpx.Pool.{
  Interface, PoolRequest, Pool, Scan, is_queued, assign_to_connection, open_connection, reuse,
  replace, serve, saturated, scan, scan_start, assign_requests_to_connections, sweep, trim, usable,
  idle_unreserved, request_connections,
}

-- No object that existed is changed, and references are given out in order.
pub record Grows {C : Type 0} (s t : Scan C) : Type 0 where
  pub older : s.fresh ≤ t.fresh
  pub same : (a : ℕ) → a < s.fresh → t.store a ≡ s.store a

-- The connections that may be assigned exist.
pub record Known {C : Type 0} (s : Scan C) : Type 0 where
  pub at : (a : ℕ) → 0 < count a s.available → a < s.fresh

-- What a pass that ends in `t` may make of a request: it is as it was, or it was in the queue and
-- has a connection for its origin.
pub record Outcome {C : Type 0} (ops : Interface C) (t : Scan C) (r r' : PoolRequest) : Type 0 where
  pub key : r'.key ≡ r.key
  pub origin : r'.origin ≡ r.origin
  pub assigned :
      (r' ≡ r)
      ⊎ ((c : ℕ) × (is_queued r ≡ true)
          × (r'.connection ≡ some c)
          × (c < t.fresh)
          × (ops.can_handle_request (t.store c) r.origin ≡ true))

module _ {C : Type 0} where
  Grows-refl : (s : Scan C) → Grows s s
  Grows-refl s = record { older = omega arith; same = λ a h. refl }

  Grows-trans : {s t u : Scan C} → Grows s t → Grows t u → Grows s u
  Grows-trans g h = record {
    older = omega (arith, g.older, h.older);
    same = λ a l. h.same a (omega (arith, g.older)) ∙ g.same a l;
  }

  open-Grows : (ops : Interface C) (o : Origin) (s : Scan C) → Grows s (open_connection ops o s)
  unfolding open_connection
  open-Grows ops o s = record { older = omega arith; same = λ a l. ground arith }

module _ {C : Type 0} (ops : Interface C) where
  pub serve-Grows : (r : PoolRequest) (s : Scan C) → Grows s (serve ops r s).0
  unfolding open_connection replace reuse
  serve-Grows r s =
      serve_cases ops (λ (u : Scan C × PoolRequest). Grows s u.0) r s
        (record {
          skipped = λ _. Grows-refl s;
          reused = λ _ c _. record { older = ground arith; same = λ a h. ground arith };
          opened = λ _ _ _. record { older = ground arith; same = λ a h. ground arith };
          waits = λ _ _ _ _. Grows-refl s;
          replaced = λ _ _ _ c e. record { older = ground arith; same = λ a h. ground arith };
        })

  serve-Known : (r : PoolRequest) (s : Scan C) → Known s → Known (serve ops r s).0
  unfolding open_connection replace reuse
  serve-Known r s k =
      serve_cases ops (λ (u : Scan C × PoolRequest). Known u.0) r s
        (record {
          skipped = λ _. k;
          reused = λ _ c _. record {
            at = λ a. ground (
              arith,
              k.at a,
              count-del_first-le (λ d. ops.can_handle_request (s.store d) r.origin) s.available a,
            );
          };
          opened = λ _ _ _. record { at = λ a. ground (arith, k.at a) };
          waits = λ _ _ _ _. k;
          replaced = λ _ _ _ c e. record {
            at = λ a.
                ground
                  (arith, k.at a, count-del_first-le (λ d. ops.is_idle (s.store d)) s.available a);
          };
        })

  Outcome-Grows :
      (r r' : PoolRequest) {s t : Scan C} → Grows s t → Outcome ops s r r' → Outcome ops t r r'
  Outcome-Grows r r' {s} {t} g o = record {
    key = o.key;
    origin = o.origin;
    assigned = later o.assigned;
  }
    where
      later :
          (r' ≡ r)
            ⊎ ((c : ℕ) × (is_queued r ≡ true)
                × (r'.connection ≡ some c)
                × (c < s.fresh)
                × (ops.can_handle_request (s.store c) r.origin ≡ true))
          → (r' ≡ r)
            ⊎ ((c : ℕ) × (is_queued r ≡ true)
                × (r'.connection ≡ some c)
                × (c < t.fresh)
                × (ops.can_handle_request (t.store c) r.origin ≡ true))
      later (inl e) = inl e
      later (inr (c, q, e, l, h)) = inr (c, q, e, omega (arith, g.older), rw (g.same c l) h)

  unchanged : (t : Scan C) (r : PoolRequest) → Outcome ops t r r
  unchanged t r = record { key = refl; origin = refl; assigned = inl refl }

  scan-Grows : (rs : List PoolRequest) (s : Scan C) → Grows s (scan ops rs s).0
  scan-Grows rs s =
      scan_induction ops (Grows s) (λ r t g. Grows-trans g (serve-Grows r t)) rs s (Grows-refl s)

  module _
      (creates : (o : Origin) → ops.can_handle_request (ops.create_connection o) o ≡ true) where
    serve-Outcome :
        (r : PoolRequest) (s : Scan C) → Known s → Outcome ops (serve ops r s).0 r (serve ops r s).1
    unfolding open_connection replace reuse assign_to_connection
    serve-Outcome r s k =
        serve_cases ops (λ (u : Scan C × PoolRequest). Outcome ops u.0 r u.1) r s
          (record {
            skipped = λ _. record { key = refl; origin = refl; assigned = inl refl };
            reused = λ q c h. record {
              key = refl;
              origin = refl;
              assigned = inr (
                c,
                q,
                refl,
                ground (arith, k.at c, first-count _ s.available c h),
                ground (arith, first-passes _ s.available c h),
              );
            };
            opened = λ q _ _. record {
              key = refl;
              origin = refl;
              assigned = inr (s.fresh, q, refl, ground arith, ground (arith, creates r.origin));
            };
            waits = λ _ _ _ _. record { key = refl; origin = refl; assigned = inl refl };
            replaced = λ q _ _ c e. record {
              key = refl;
              origin = refl;
              assigned = inr (s.fresh, q, refl, ground arith, ground (arith, creates r.origin));
            };
          })

    scan-Outcome :
        (rs : List PoolRequest) (s : Scan C)
        → Known s
        → Pairs (Outcome ops (scan ops rs s).0) rs (scan ops rs s).1
    unfolding scan
    scan-Outcome [] s k = tt
    scan-Outcome (r ∷ rs) s k = elim (Bool-cases (saturated ops s)) [
      | inl full ↦ rw full (Pairs-refl _ (unchanged s) (r ∷ rs))
      | inr more ↦ rw more (
        Outcome-Grows r _ (scan-Grows rs (serve ops r s).0) (serve-Outcome r s k),
        scan-Outcome rs (serve ops r s).0 (serve-Known r s k),
      )
    ]

-- The connections in the pool exist.
pub record RefsKnown {C : Type 0} (p : Pool C) : Type 0 where
  pub at : (a : ℕ) → 0 < count a p.connections → a < p.next

count-sweep-le :
    {C : Type 0} (ops : Interface C) (heap : ℕ → C) (reserved cs : List ℕ) (a : ℕ)
    → count a (sweep ops heap reserved cs).1 ≤ count a cs
unfolding sweep
count-sweep-le ops heap reserved [] a = omega arith
count-sweep-le ops heap reserved (c ∷ cs) a = ground (arith, count-sweep-le ops heap reserved cs a)

count-trim-le :
    {C : Type 0} (ops : Interface C) (heap : ℕ → C) (reserved : List ℕ) (n : ℕ) (cs : List ℕ)
    (a : ℕ)
    → count a (trim ops heap reserved n cs).1 ≤ count a cs
unfolding trim
count-trim-le ops heap reserved n [] a = omega arith
count-trim-le ops heap reserved n (c ∷ cs) a =
    ground
      (arith, count-trim-le ops heap reserved n cs a, count-trim-le ops heap reserved (n - 1) cs a)

pub count-start-le :
    {C : Type 0} (ops : Interface C) (p : Pool C) (a : ℕ)
    → (count a (scan_start ops p).conns ≤ count a p.connections)
      × (count a (scan_start ops p).available ≤ count a (scan_start ops p).conns)
unfolding scan_start
count-start-le ops p a =
    let reserved = request_connections p.requests in
    let swept = sweep ops p.heap reserved p.connections in
    let surplus =
      length (keep (idle_unreserved ops p.heap reserved) swept.1) - p.max_keepalive_connections in
    (
      omega (
        arith,
        count-trim-le ops p.heap reserved surplus swept.1 a,
        count-sweep-le ops p.heap reserved p.connections a,
      ),
      (keep-Within (usable ops p.heap reserved) (trim ops p.heap reserved surplus swept.1).1).at a,
    )

pub start-Known :
    {C : Type 0} (ops : Interface C) (p : Pool C) → RefsKnown p → Known (scan_start ops p)
unfolding scan_start
start-Known ops p known = record {
  at = λ a h. known.at a (omega (arith, (count-start-le ops p a).0, (count-start-le ops p a).1));
}

-- Each request that was in the pool is there after the pass, in its place and with its origin. If
-- the pass changed it, it was in the queue, and now has a connection that can handle its origin.
-- What creates a connection is assumed to create one for the origin asked for.
pub pass-assigns :
    {C : Type 0} (ops : Interface C) (p : Pool C) (i : ℕ) (r : PoolRequest)
    → ((o : Origin) → ops.can_handle_request (ops.create_connection o) o ≡ true)
    → RefsKnown p
    → get_elem? p.requests i ≡ some r
    → (r' : PoolRequest) × (get_elem? (assign_requests_to_connections ops p).0.requests i ≡ some r')
      × Outcome ops (scan ops p.requests (scan_start ops p)).0 r r'
unfolding assign_requests_to_connections
pass-assigns ops p i r creates known at =
    Pairs-get_elem? _ p.requests _ i r
      (scan-Outcome ops creates p.requests (scan_start ops p) (start-Known ops p known)) at
