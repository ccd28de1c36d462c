-- ===== src/Pool/EarlyStop.antt =====
-- The early stop of the loop over the queued requests changes nothing but the work done.
use httpx.Prelude.{◌≡◌, refl, true, inl, inr, List, [], ◌∷◌, arith, Bool-cases}
use httpx.Pool.{Interface, PoolRequest, Scan, first, serve, saturated, scan, scan_all}

module _ {C : Type 0} (ops : Interface C) where
  -- Nothing can be assigned on a saturated pool.
  serve-saturated : (r : PoolRequest) (s : Scan C) → saturated ops s ≡ true → serve ops r s ≡ (s, r)
  unfolding serve saturated first
  serve-saturated r s h = ground arith

  scan_all-saturated :
      (rs : List PoolRequest) (s : Scan C) → saturated ops s ≡ true → scan_all ops rs s ≡ (s, rs)
  unfolding scan_all
  scan_all-saturated [] s h = refl
  scan_all-saturated (r ∷ rs) s h = rw (serve-saturated r s h, scan_all-saturated rs s h)

  -- The loop that stops early gives what the full scan of the queue gives.
  pub scan-scan_all : (rs : List PoolRequest) (s : Scan C) → scan ops rs s ≡ scan_all ops rs s
  unfolding scan scan_all
  scan-scan_all [] s = refl
  scan-scan_all (r ∷ rs) s = elim (Bool-cases (saturated ops s)) [
    | inl full ↦ rw (full, serve-saturated r s full, scan_all-saturated rs s full)
    | inr more ↦ rw (more, scan-scan_all rs (serve ops r s).0)
  ]
