-- ===== src/Mounts/Sorting.antt =====
-- Sorting by a strict weak order, and the first match in a sorted list.
use httpx.Prelude.{
  ◌≡◌, refl, Bool, true, false, Option, none, some, List, [], ◌∷◌, if◌then◌else◌, All, Bool-cases,
  inl, inr, ◌⊎◌,
}
use httpx.Mounts.{insert, sort, first_match}

abbrev pub Elem : {M : Type 0} → M → List M → Type 0
Elem m [] = ⊥
Elem m (x ∷ xs) = (m ≡ x) ⊎ Elem m xs

module _ {M : Type 0} (P : M → Type 0) where
  All-imp : {Q : M → Type 0} (xs : List M) → ((x : M) → P x → Q x) → All P xs → All Q xs
  All-imp [] f a = tt
  All-imp (x ∷ xs) f a = (f x a.0, All-imp xs f a.1)

module _ {M : Type 0} (lt : M → M → Bool) where
  All-insert : (P : M → Type 0) (x : M) (ys : List M) → P x → All P ys → All P (insert lt x ys)
  unfolding insert
  All-insert P x [] p a = (p, tt)
  All-insert P x (y ∷ ys) p a = elim (Bool-cases (lt y x)) [
    | inl h ↦ rw h (a.0, All-insert P x ys p a.1)
    | inr h ↦ rw h (p, a)
  ]

  insert-All : (P : M → Type 0) (x : M) (ys : List M) → All P (insert lt x ys) → All P (x ∷ ys)
  unfolding insert
  insert-All P x [] a = a
  insert-All P x (y ∷ ys) a = split (lt y x) a (λ b. insert-All P x ys b)
    where
      split :
          (b : Bool)
          → All P (if b then y ∷ insert lt x ys else x ∷ y ∷ ys)
          → (All P (insert lt x ys) → All P (x ∷ ys))
          → All P (x ∷ y ∷ ys)
      split true a later = let (p, q) = later a.1 in (p, (a.0, q))
      split false a later = a

  pub sort-All : (P : M → Type 0) (xs : List M) → All P (sort lt xs) → All P xs
  unfolding sort
  sort-All P [] a = tt
  sort-All P (x ∷ xs) a = let (p, q) = insert-All P x (sort lt xs) a in (p, sort-All P xs q)

  insert-Elem : (m x : M) (ys : List M) → Elem m (insert lt x ys) → (m ≡ x) ⊎ Elem m ys
  unfolding insert
  insert-Elem m x [] e = e
  insert-Elem m x (y ∷ ys) e = split (lt y x) e (λ f. insert-Elem m x ys f)
    where
      swap : (m ≡ x) ⊎ Elem m ys → (m ≡ x) ⊎ Elem m (y ∷ ys)
      swap (inl e) = inl e
      swap (inr e) = inr (inr e)

      split :
          (b : Bool)
          → Elem m (if b then y ∷ insert lt x ys else x ∷ y ∷ ys)
          → (Elem m (insert lt x ys) → (m ≡ x) ⊎ Elem m ys)
          → (m ≡ x) ⊎ Elem m (y ∷ ys)
      split true (inl e) later = inr (inl e)
      split true (inr e) later = swap (later e)
      split false e later = e

  pub sort-Elem : (m : M) (xs : List M) → Elem m (sort lt xs) → Elem m xs
  unfolding sort
  sort-Elem m [] e = e
  sort-Elem m (x ∷ xs) e = elim (insert-Elem m x (sort lt xs) e) [
    | inl h ↦ inl h
    | inr h ↦ inr (sort-Elem m xs h)
  ]

  -- Nothing later in the list comes before anything earlier.
  abbrev pub Sorted : List M → Type 0
  Sorted [] = Unit
  Sorted (x ∷ xs) = All (λ y. lt y x ≡ false) xs × Sorted xs

  module _ (asym : (a b : M) → lt a b ≡ true → lt b a ≡ false)
      (trans : (a b c : M) → lt b a ≡ false → lt c b ≡ false → lt c a ≡ false) where
    insert-Sorted : (x : M) (ys : List M) → Sorted ys → Sorted (insert lt x ys)
    unfolding insert
    insert-Sorted x [] s = (tt, tt)
    insert-Sorted x (y ∷ ys) s = elim (Bool-cases (lt y x)) [
      | inl h ↦
          rw h (All-insert (λ z. lt z y ≡ false) x ys (asym y x h) s.0, insert-Sorted x ys s.1)
      | inr h ↦ rw h ((h, All-imp (λ z. lt z y ≡ false) ys (λ z k. trans x y z h k) s.0), s)
    ]

    pub sort-Sorted : (xs : List M) → Sorted (sort lt xs)
    unfolding sort
    sort-Sorted [] = tt
    sort-Sorted (x ∷ xs) = insert-Sorted x (sort lt xs) (sort-Sorted xs)

  -- What the first match of a sorted list is: nothing that matches comes before it.
  abbrev pub IsFirst : (M → Bool) → List M → Option M → Type 0
  IsFirst p xs none = All (λ x. p x ≡ false) xs
  IsFirst p xs (some m) = Elem m xs × (p m ≡ true) × All (λ x. p x ≡ true → lt x m ≡ false) xs

  first_match-IsFirst :
      (p : M → Bool) (xs : List M)
      → ((a : M) → lt a a ≡ false)
      → Sorted xs
      → IsFirst p xs (first_match p xs)
  unfolding first_match
  first_match-IsFirst p [] r s = tt
  first_match-IsFirst p (x ∷ xs) r s = elim (Bool-cases (p x)) [
    | inl h ↦ rw h (inl refl, h, (λ k. r x, All-imp (λ y. lt y x ≡ false) xs (λ y k l. k) s.0))
    | inr h ↦ rw h (later h (first_match p xs) (first_match-IsFirst p xs r s.1))
  ]
    where
      later : p x ≡ false → (o : Option M) → IsFirst p xs o → IsFirst p (x ∷ xs) o
      later h none f = (h, f)
      later h (some m) (e, t, a) = (inr e, t, (λ k. cc, a))

  -- The first match of the sorted list, as a fact about the list before sorting.
  pub first_match-sort :
      (p : M → Bool) (xs : List M)
      → ((a b : M) → lt a b ≡ true → lt b a ≡ false)
      → ((a b c : M) → lt b a ≡ false → lt c b ≡ false → lt c a ≡ false)
      → ((a : M) → lt a a ≡ false)
      → IsFirst p xs (first_match p (sort lt xs))
  first_match-sort p xs asym trans irrefl =
      unsort (first_match p (sort lt xs))
        (first_match-IsFirst p (sort lt xs) irrefl (sort-Sorted asym trans xs))
    where
      unsort : (o : Option M) → IsFirst p (sort lt xs) o → IsFirst p xs o
      unsort none f = sort-All (λ x. p x ≡ false) xs f
      unsort (some m) (e, t, a) =
          (sort-Elem m xs e, t, sort-All (λ x. p x ≡ true → lt x m ≡ false) xs a)
