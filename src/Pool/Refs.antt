-- ===== src/Pool/Refs.antt =====
-- Lists of references: what the scans of `connection_pool.py` find and remove.
use httpx.Prelude.{
  ℕ, ◌+◌, ◌≤◌, ◌<◌, ◌≡◌, Bool, true, some, List, [], ◌∷◌, ◌++◌, arith, length, keep, count,
  count-append, has, ◌==◌, if◌then◌else◌,
}
use httpx.Pool.{first, del_first}

-- Each reference stands in the first list at most as often as in the second.
pub record Within (xs ys : List ℕ) : Type 0 where
  pub at : (a : ℕ) → count a xs ≤ count a ys

count-keep-le : (p : ℕ → Bool) (xs : List ℕ) (a : ℕ) → count a (keep p xs) ≤ count a xs
count-keep-le p [] a = omega arith
count-keep-le p (x ∷ xs) a = ground (arith, count-keep-le p xs a)

pub keep-Within : (p : ℕ → Bool) (xs : List ℕ) → Within (keep p xs) xs
keep-Within p xs = record { at = count-keep-le p xs }

pub count-del_first-le :
    (p : ℕ → Bool) (xs : List ℕ) (a : ℕ) → count a (del_first p xs) ≤ count a xs
unfolding del_first
count-del_first-le p [] a = omega arith
count-del_first-le p (x ∷ xs) a = ground (arith, count-del_first-le p xs a)

-- What is found passes the test, and is what is removed.
pub first-passes : (p : ℕ → Bool) (xs : List ℕ) (c : ℕ) → first p xs ≡ some c → p c ≡ true
unfolding first
first-passes p [] c h = cc
first-passes p (x ∷ xs) c h = ground (arith, first-passes p xs c)

pub count-del_first :
    (p : ℕ → Bool) (xs : List ℕ) (c : ℕ)
    → first p xs ≡ some c
    → (a : ℕ) → count a (del_first p xs) + (if a == c then 1 else 0) ≡ count a xs
unfolding first del_first
count-del_first p [] c h a = cc
count-del_first p (x ∷ xs) c h a =
    ground (arith, λ (e : first p xs ≡ some c). count-del_first p xs c e a)

pub length-del_first :
    (p : ℕ → Bool) (xs : List ℕ) (c : ℕ)
    → first p xs ≡ some c
    → length (del_first p xs) + 1 ≡ length xs
unfolding first del_first
length-del_first p [] c h = cc
length-del_first p (x ∷ xs) c h = ground (arith, length-del_first p xs c)

pub first-count : (p : ℕ → Bool) (xs : List ℕ) (c : ℕ) → first p xs ≡ some c → 0 < count c xs
first-count p xs c h = ground (arith, count-del_first p xs c h c)

-- `list.remove` finds what the list holds.
pub first-eq : (c : ℕ) (xs : List ℕ) → 0 < count c xs → first (λ d. d == c) xs ≡ some c
unfolding first
first-eq c [] h = absurd (omega arith)
first-eq c (x ∷ xs) h = ground (arith, first-eq c xs)

pub has-count : (c : ℕ) (xs : List ℕ) → has c xs ≡ true → 0 < count c xs
has-count c [] h = cc
has-count c (x ∷ xs) h = ground (arith, has-count c xs)

-- A reference that is removed on both sides, where the other side gains one.
pub replace-Within :
    (p : ℕ → Bool) (xs ys : List ℕ) (c new : ℕ)
    → first p xs ≡ some c
    → Within xs ys
    → Within (del_first p xs) (del_first (λ d. d == c) ys ++ new ∷ [])
replace-Within p xs ys c new h w = record {
  at = λ a. omega (
    arith,
    count-append a (del_first (λ d. d == c) ys) (new ∷ []),
    count-del_first p xs c h a,
    count-del_first (λ d. d == c) ys c (first-eq c ys (omega (arith, first-count p xs c h, w.at c)))
        a,
    w.at a,
  );
}
