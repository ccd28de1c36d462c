-- ===== src/Url/Path/Dots.antt =====
-- A normalised path has no dot segments left, and normalising it again changes nothing.
use httpx.Prelude.{
  ℕ, ◌≡◌, refl, ap, sym, ◌∙◌, Bool, true, false, not, ◌&&◌, ◌||◌, List, [], ◌∷◌, ◌++◌,
  if◌then◌else◌, ◌==◌, Str, str_eq, any, All, arith, Bool-cases, subst, inl, inr, ◌⊎◌,
}
use httpx.Url.Path.{
  slash, dot, split, join, cons_head, is_dot, is_dot_dot, is_special, but_last, pop, resolve,
  normalize_path,
}

-- A component of a path.
abbrev pub HasNoSlash : Str → Type 0
HasNoSlash x = any (λ c. c == slash) x ≡ false

All-cons_head :
    (c : ℕ) (xs : List Str)
    → (c == slash) ≡ false
    → All HasNoSlash xs
    → All HasNoSlash (cons_head c xs)
All-cons_head c [] h a = ground arith
All-cons_head c (x ∷ xs) h a = ground arith

split-HasNoSlash : (s : Str) → All HasNoSlash (split s)
unfolding split
split-HasNoSlash [] = (refl, tt)
split-HasNoSlash (c ∷ cs) = elim (Bool-cases (c == slash)) [
  | inl h ↦ rw h (refl, split-HasNoSlash cs)
  | inr h ↦ rw h (All-cons_head c (split cs) h (split-HasNoSlash cs))
]

split-prefix : (x s : Str) → HasNoSlash x → split (x ++ slash ∷ s) ≡ x ∷ split s
unfolding split
split-prefix [] s h = refl
split-prefix (c ∷ x) s h = ground (arith, split-prefix x s)

split-one : (x : Str) → HasNoSlash x → split x ≡ x ∷ []
unfolding split
split-one [] h = refl
split-one (c ∷ x) h = ground (arith, split-one x)

-- Joining components and splitting gives them back.
pub split-join :
    (x : Str) (xs : List Str) → All HasNoSlash (x ∷ xs) → split (join (x ∷ xs)) ≡ x ∷ xs
unfolding join
split-join x [] a = split-one x a.0
split-join x (y ∷ ys) a = split-prefix x (join (y ∷ ys)) a.0 ∙ ap (λ t. x ∷ t) (split-join y ys a.1)

module _ (P : Str → Type 0) where
  All-snoc : (xs : List Str) (c : Str) → All P xs → P c → All P (xs ++ c ∷ [])
  All-snoc [] c a p = (p, tt)
  All-snoc (x ∷ xs) c a p = (a.0, All-snoc xs c a.1 p)

  All-but_last : (xs : List Str) → All P xs → All P (but_last xs)
  unfolding but_last
  All-but_last [] a = tt
  All-but_last (x ∷ []) a = tt
  All-but_last (x ∷ y ∷ ys) a = (a.0, All-but_last (y ∷ ys) a.1)

  All-pop : (xs : List Str) → All P xs → All P (pop xs)
  unfolding pop
  All-pop [] a = tt
  All-pop ([] ∷ []) a = a
  All-pop ((c ∷ cs) ∷ []) a = tt
  All-pop (x ∷ y ∷ ys) a = All-but_last (x ∷ y ∷ ys) a

-- What holds of the components that are not dot segments holds of all that are kept.
All-resolve :
    (P : Str → Type 0) (output cs : List Str)
    → All P output
    → All (λ c. is_special c ≡ false → P c) cs
    → All P (resolve output cs)
unfolding resolve
All-resolve P output [] a b = a
All-resolve P output (c ∷ cs) a b =
    All-resolve P
      (if is_dot c then output else if is_dot_dot c then pop output else output ++ c ∷ []) cs
      (kept (is_dot c) (is_dot_dot c) (b.0)) b.1
  where
    kept :
        (d dd : Bool)
        → ((d || dd) ≡ false → P c)
        → All P (if d then output else if dd then pop output else output ++ c ∷ [])
    kept true dd h = a
    kept false true h = All-pop P output a
    kept false false h = All-snoc P output c a (h refl)

-- A segment that a normalised path may have.
abbrev pub IsPlain : Str → Type 0
IsPlain c = is_special c ≡ false

abbrev IsSegment : Str → Type 0
IsSegment c = IsPlain c × HasNoSlash c

All-segments :
    (cs : List Str) → All HasNoSlash cs → All (λ c. is_special c ≡ false → IsSegment c) cs
All-segments [] a = tt
All-segments (c ∷ cs) a = (λ h. (h, a.0), All-segments cs a.1)

All-IsPlain : (cs : List Str) → All IsSegment cs → All IsPlain cs
All-IsPlain [] a = tt
All-IsPlain (c ∷ cs) a = (a.0.0, All-IsPlain cs a.1)

All-no_slash : (cs : List Str) → All IsSegment cs → All HasNoSlash cs
All-no_slash [] a = tt
All-no_slash (c ∷ cs) a = (a.0.1, All-no_slash cs a.1)

joined-IsPlain : (out : List Str) → All IsSegment out → All IsPlain (split (join out))
unfolding join split is_dot is_dot_dot str_eq
joined-IsPlain [] a = (refl, tt)
joined-IsPlain (x ∷ xs) a = rw (split-join x xs (All-no_slash (x ∷ xs) a)) (All-IsPlain (x ∷ xs) a)

no_dot-IsPlain : (c : Str) → any (λ x. x == dot) c ≡ false → IsPlain c
unfolding is_dot is_dot_dot str_eq
no_dot-IsPlain [] h = refl
no_dot-IsPlain (x ∷ []) h = ground arith
no_dot-IsPlain (x ∷ y ∷ c) h = ground arith

All-cons_head-dot :
    (c : ℕ) (xs : List Str)
    → (c == dot) ≡ false
    → All (λ x. any (λ y. y == dot) x ≡ false) xs
    → All (λ x. any (λ y. y == dot) x ≡ false) (cons_head c xs)
All-cons_head-dot c [] h a = ground arith
All-cons_head-dot c (x ∷ xs) h a = ground arith

split-no_dot :
    (s : Str) → any (λ x. x == dot) s ≡ false → All (λ x. any (λ y. y == dot) x ≡ false) (split s)
unfolding split
split-no_dot [] h = (refl, tt)
split-no_dot (c ∷ cs) h = elim (Bool-cases (c == slash)) [
  | inl e ↦ rw e (refl, split-no_dot cs (ground arith))
  | inr e ↦ rw e (All-cons_head-dot c (split cs) (ground arith) (split-no_dot cs (ground arith)))
]

All-no_dot : (cs : List Str) → All (λ x. any (λ y. y == dot) x ≡ false) cs → All IsPlain cs
All-no_dot [] a = tt
All-no_dot (c ∷ cs) a = (no_dot-IsPlain c a.0, All-no_dot cs a.1)

-- The tests of the two fast returns, and what they mean.
not_any-IsPlain :
    (cs : List Str) → any is_dot cs ≡ false → any is_dot_dot cs ≡ false → All IsPlain cs
not_any-IsPlain [] d dd = tt
not_any-IsPlain (c ∷ cs) d dd = ground (arith, not_any-IsPlain cs)

plain-not_any :
    (cs : List Str) → All IsPlain cs → (any is_dot cs ≡ false) × (any is_dot_dot cs ≡ false)
plain-not_any [] a = (refl, refl)
plain-not_any (c ∷ cs) a = ground (arith, plain-not_any cs a.1)

-- No component of a normalised path is "." or "..".
pub normalize_path-IsPlain : (path : Str) → All IsPlain (split (normalize_path path))
unfolding normalize_path
normalize_path-IsPlain path = elim (Bool-cases (any (λ c. c == dot) path)) [
  | inr none' ↦ rw none' (All-no_dot (split path) (split-no_dot path none'))
  | inl some' ↦
      elim (Bool-cases (not (any is_dot (split path)) && not (any is_dot_dot (split path)))) [
        | inl fast ↦ rw (some', fast) (not_any-IsPlain (split path) (ground arith) (ground arith))
        | inr slow ↦
            rw (some', slow)
              (joined-IsPlain (resolve [] (split path)) (
                All-resolve IsSegment [] (split path) tt
                  (All-segments (split path) (split-HasNoSlash path))))
      ]
]

plain-normalize_path : (path : Str) → All IsPlain (split path) → normalize_path path ≡ path
unfolding normalize_path
plain-normalize_path path a = ground (arith, plain-not_any (split path) a)

-- Normalising a path a second time changes nothing.
pub normalize_path_idem : (path : Str) → normalize_path (normalize_path path) ≡ normalize_path path
normalize_path_idem path = plain-normalize_path (normalize_path path) (normalize_path-IsPlain path)

-- From components after a leading slash, the first that is kept is the empty one before it.
abbrev IsRooted : List Str → Type 0
IsRooted out = (ys : List Str) × (out ≡ [] ∷ ys)

IsRooted-pop : (ys : List Str) → IsRooted (pop ([] ∷ ys))
unfolding pop but_last
IsRooted-pop [] = ([], refl)
IsRooted-pop (y ∷ ys) = (but_last (y ∷ ys), refl)

IsRooted-resolve : (ys cs : List Str) → IsRooted (resolve ([] ∷ ys) cs)
unfolding resolve
IsRooted-resolve ys [] = (ys, refl)
IsRooted-resolve ys (c ∷ cs) = kept (λ zs. IsRooted-resolve zs cs) (is_dot c) (is_dot_dot c)
  where
    kept :
        ((zs : List Str) → IsRooted (resolve ([] ∷ zs) cs))
        → (d dd : Bool)
        → IsRooted
            (resolve (if d then [] ∷ ys else if dd then pop ([] ∷ ys) else ([] ∷ ys) ++ c ∷ []) cs)
    kept later true dd = later ys
    kept later false true =
        let r = IsRooted-pop ys in subst (λ t. IsRooted (resolve t cs)) (sym r.1) (later r.0)
    kept later false false = later (ys ++ c ∷ [])

abbrev pub IsAbsolute : Str → Type 0
IsAbsolute path = (path ≡ []) ⊎ ((rest : Str) × (path ≡ slash ∷ rest))

joined_rooted : (ys : List Str) → IsAbsolute (join ([] ∷ ys))
unfolding join
joined_rooted [] = inl refl
joined_rooted (y ∷ ys) = inr (join (y ∷ ys), refl)

resolved_rooted : (cs : List Str) → IsAbsolute (join (resolve [] ([] ∷ cs)))
unfolding resolve is_dot is_dot_dot str_eq
resolved_rooted cs =
    let r = IsRooted-resolve [] cs in subst (λ t. IsAbsolute (join t)) (sym r.1) (joined_rooted r.0)

-- Dot segments do not lead above the root: what normalising leaves of a path that starts with a
-- slash is empty or starts with a slash.
pub normalize_path-IsAbsolute : (rest : Str) → IsAbsolute (normalize_path (slash ∷ rest))
unfolding normalize_path split
normalize_path-IsAbsolute rest = elim (Bool-cases (any (λ c. c == dot) (slash ∷ rest))) [
  | inr none' ↦ rw none' (inr (rest, refl))
  | inl some' ↦
      elim (Bool-cases
        (not (any is_dot (split (slash ∷ rest))) && not (any is_dot_dot (split (slash ∷ rest))))) [
          | inl fast ↦ rw (some', fast) (inr (rest, refl))
          | inr slow ↦ rw (some', slow) (resolved_rooted (split rest))
        ]
]
