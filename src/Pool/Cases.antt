-- ===== src/Pool/Cases.antt =====
-- The cases of the loop's body in `_assign_requests_to_connections`, and induction over the loop.
use httpx.Prelude.{
  ℕ, ◌-◌, ◌≡◌, true, false, inl, inr, Option, none, some, List, [], ◌∷◌, ltb, Bool-cases,
  Option-cases,
}
use httpx.Pool.{
  Interface, PoolRequest, Scan, first, is_queued, assign_to_connection, open_connection, reuse,
  replace, serve, saturated, scan,
}

module _ {C : Type 0} (ops : Interface C) where
  abbrev pub handler : PoolRequest → Scan C → Option ℕ
  handler r s = first (λ d. ops.can_handle_request (s.store d) r.origin) s.available

  abbrev pub idle : Scan C → Option ℕ
  idle s = first (λ d. ops.is_idle (s.store d)) s.available

  abbrev pub created : PoolRequest → Scan C → Scan C
  created r s = record (open_connection ops r.origin s) { budget = s.budget - 1 }

  -- What has to be shown of each way through the body.
  pub record ServeCases {ℓ} (P : Scan C × PoolRequest → Type ℓ) (r : PoolRequest) (s : Scan C)
      : Type ℓ where
    pub skipped : is_queued r ≡ false → P (s, r)
    pub reused :
        is_queued r ≡ true
        → (c : ℕ) → handler r s ≡ some c
        → P (reuse ops r.origin c s, assign_to_connection r (some c))
    pub opened :
        is_queued r ≡ true
        → handler r s ≡ none
        → ltb 0 s.budget ≡ true
        → P (created r s, assign_to_connection r (some s.fresh))
    pub waits :
        is_queued r ≡ true → handler r s ≡ none → ltb 0 s.budget ≡ false → idle s ≡ none → P (s, r)
    pub replaced :
        is_queued r ≡ true
        → handler r s ≡ none
        → ltb 0 s.budget ≡ false
        → (c : ℕ) → idle s ≡ some c
        → P (replace ops r.origin c s, assign_to_connection r (some s.fresh))

  pub serve_cases {ℓ} :
      (P : Scan C × PoolRequest → Type ℓ) (r : PoolRequest) (s : Scan C)
      → ServeCases P r s
      → P (serve ops r s)
  unfolding serve
  serve_cases P r s cases = elim (Bool-cases (is_queued r)) [
    | inr skip ↦ rw (skip, serve) (cases.skipped skip)
    | inl q ↦ elim (Option-cases (handler r s)) [
      | inr (c, h) ↦ rw (q, h) (cases.reused q c h)
      | inl n ↦ elim (Bool-cases (ltb 0 s.budget)) [
        | inl more ↦ rw (q, n, more) (cases.opened q n more)
        | inr full ↦ elim (Option-cases (idle s)) [
          | inl e ↦ rw (q, n, full, e) (cases.waits q n full e)
          | inr (c, e) ↦ rw (q, n, full, e) (cases.replaced q n full c e)
        ]
      ]
    ]
  ]

  -- An invariant of the body is one of the loop.
  pub scan_induction {ℓ} :
      (P : Scan C → Type ℓ)
      → ((r : PoolRequest) (s : Scan C) → P s → P (serve ops r s).0)
      → (rs : List PoolRequest) (s : Scan C) → P s
      → P (scan ops rs s).0
  unfolding scan
  scan_induction P step [] s h = h
  scan_induction P step (r ∷ rs) s h = elim (Bool-cases (saturated ops s)) [
    | inl full ↦ rw full h
    | inr more ↦ rw more (scan_induction P step rs (serve ops r s).0 (step r s h))
  ]
