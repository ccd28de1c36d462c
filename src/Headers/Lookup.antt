-- ===== src/Headers/Lookup.antt =====
-- Reading a header after it was set or removed.
use httpx.Prelude.{
  ◌≡◌, refl, ap, sym, ◌∙◌, false, none, some, [], ◌∷◌, if◌then◌else◌, Str, str_eq, str_eq_iff,
  str_eq_refl, arith, Bool-cases, inl, inr,
}
use httpx.Headers.{
  Header, Headers, header, lower, values_of, get, remove, has_key, put, set, delete, pop, joined,
}

pub values_of-remove_same : (k : Str) (hs : Headers) → values_of k (remove k hs) ≡ []
unfolding values_of remove
values_of-remove_same k [] = refl
values_of-remove_same k (h ∷ hs) = ground (arith, values_of-remove_same k hs)

pub values_of-remove_other :
    (j k : Str) (hs : Headers) → str_eq k j ≡ false → values_of j (remove k hs) ≡ values_of j hs
unfolding values_of remove
values_of-remove_other j k [] e = refl
values_of-remove_other j k (h ∷ hs) e = elim (Bool-cases (str_eq h.key k)) [
  | inl s ↦
      let same : h.key ≡ k = (str_eq_iff h.key k).0 s in
      let apart : str_eq h.key j ≡ false = ap (λ x. str_eq x j) same ∙ e in
      rw (s, apart) (values_of-remove_other j k hs e)
  | inr s ↦ rw s (ground (arith, values_of-remove_other j k hs e))
]

values_of-put_same : (new : Header) (hs : Headers) → values_of new.key (put new hs) ≡ new.value ∷ []
unfolding values_of put
values_of-put_same new [] = rw (str_eq_refl new.key) refl
values_of-put_same new (h ∷ hs) = elim (Bool-cases (str_eq h.key new.key)) [
  | inl s ↦ rw (s, str_eq_refl new.key, values_of-remove_same new.key hs) refl
  | inr s ↦ rw s (ground (arith, values_of-put_same new hs))
]

values_of-put_other :
    (j : Str) (new : Header) (hs : Headers)
    → str_eq new.key j ≡ false
    → values_of j (put new hs) ≡ values_of j hs
unfolding values_of put
values_of-put_other j new [] e = rw e refl
values_of-put_other j new (h ∷ hs) e = elim (Bool-cases (str_eq h.key new.key)) [
  | inl s ↦
      let same : h.key ≡ new.key = (str_eq_iff h.key new.key).0 s in
      let apart : str_eq h.key j ≡ false = ap (λ x. str_eq x j) same ∙ e in
      rw (s, e, apart) (values_of-remove_other j new.key hs e)
  | inr s ↦ rw s (ground (arith, values_of-put_other j new hs e))
]

-- Reading a header after setting one: names that differ only in case are one name, whose single
-- value is the one set, and any other header reads as before.
pub get-set :
    (j k v : Str) (hs : Headers)
    → get j (set k v hs) ≡ (if str_eq (lower k) (lower j) then some v else get j hs)
unfolding get set header
get-set j k v hs = elim (Bool-cases (str_eq (lower k) (lower j))) [
  | inl s ↦
      let same : lower k ≡ lower j = (str_eq_iff (lower k) (lower j)).0 s in
      rw (s, sym same) (ap joined (values_of-put_same (header k v) hs))
  | inr s ↦ rw s (ap joined (values_of-put_other (lower j) (header k v) hs s))
]

pub no_key-values : (k : Str) (hs : Headers) → has_key k hs ≡ false → values_of k hs ≡ []
unfolding has_key values_of
no_key-values k [] e = refl
no_key-values k (h ∷ hs) e = ground (arith, no_key-values k hs)

-- Reading a header after popping one: the one popped is gone, and any other reads as before.
pub get-pop :
    (j k : Str) (hs : Headers)
    → get j (pop k hs) ≡ (if str_eq (lower k) (lower j) then none else get j hs)
unfolding get pop delete
get-pop j k hs = elim (Bool-cases (str_eq (lower k) (lower j))) [
  | inl s ↦
      let same : lower k ≡ lower j = (str_eq_iff (lower k) (lower j)).0 s in
      elim (Bool-cases (has_key (lower k) hs)) [
        | inl h ↦ rw (s, h, sym same) (ap joined (values_of-remove_same (lower k) hs))
        | inr h ↦ rw (s, h, sym same) (ap joined (no_key-values (lower k) hs h))
      ]
  | inr s ↦ elim (Bool-cases (has_key (lower k) hs)) [
    | inl h ↦ rw (s, h) (ap joined (values_of-remove_other (lower j) (lower k) hs s))
    | inr h ↦ rw (s, h) refl
  ]
]
