-- ===== src/Origin.antt =====
-- httpcore2/httpcore2/_models.py: the origin that a connection serves.
use httpx.Prelude.{ℕ, ◌≡◌, ◌↔◌, Bool, true, ◌&&◌, arith, ◌==◌, Str, str_eq, str_eq_iff}

pub record Origin : Type 0 where
  pub scheme : Str
  pub host : Str
  pub port : ℕ

-- `Origin.__eq__`
unfoldable pub origin_eq : Origin → Origin → Bool
origin_eq a b = str_eq a.scheme b.scheme && (str_eq a.host b.host && a.port == b.port)

-- The test decides equality of origins.
pub origin_eq_iff : (a b : Origin) → (origin_eq a b ≡ true) ↔ (a ≡ b)
unfolding origin_eq
origin_eq_iff a b = ground (arith, str_eq_iff a.scheme b.scheme, str_eq_iff a.host b.host)
