-- ===== src/QueryParams/Laws.antt =====
-- What the operations of query parameters mean for the values of a key.
use httpx.Prelude.{
  ◌≡◌, refl, ap, sym, ◌∙◌, Bool, true, false, none, some, List, [], ◌∷◌, ◌++◌, append-nil,
  append_assoc, if◌then◌else◌, Str, str_eq, str_eq_iff, Bool-cases, inl, inr, ◌⊎◌,
}
use httpx.QueryParams.{
  Primitive, primitive_value_to_str, QueryParams, find, assign, or_nothing, get_list, append_value,
  add_pairs, from_pairs, contains, set, add, remove, merge,
}

-- The values that a list of pairs gives a key, in order.
unfoldable pub values_for : Str → List (Str × Primitive) → List Str
unfolding primitive_value_to_str
values_for k [] = []
values_for k ((j, v) ∷ ps) =
    let rest = values_for k ps in if str_eq j k then primitive_value_to_str v ∷ rest else rest

swap_eq : (j k l : Str) → str_eq j k ≡ true → str_eq j l ≡ str_eq k l
swap_eq j k l h = ap (λ t. str_eq t l) ((str_eq_iff j k).0 h)

both_eq : (j k l : Str) → str_eq j l ≡ true → str_eq k l ≡ true → str_eq j k ≡ true
both_eq j k l a b = ap (λ t. str_eq j t) ((str_eq_iff k l).0 b) ∙ a

-- Two tests of which at most one holds can be made in either order.
exchange :
    {A : Type 0} (a b : Bool) (x y z : A)
    → (a ≡ true → b ≡ true → ⊥)
    → (if a then x else (if b then y else z)) ≡ (if b then y else (if a then x else z))
exchange true true x y z h = absurd (h refl refl)
exchange true false x y z h = refl
exchange false true x y z h = refl
exchange false false x y z h = refl

find-assign :
    (l k : Str) (vs : List Str) (q : QueryParams)
    → find l (assign k vs q) ≡ (if str_eq k l then some vs else find l q)
unfolding find assign
find-assign l k vs [] = refl
find-assign l k vs ((j, us) ∷ q) = elim (Bool-cases (str_eq j k)) [
  | inl h ↦
      rw (h, swap_eq j k l h)
        (elim (Bool-cases (str_eq k l)) [ inl e ↦ rw e refl | inr e ↦ rw e refl ])
  | inr h ↦
      rw (h, find-assign l k vs q)
        (exchange (str_eq j l) (str_eq k l) (some us) (some vs) (find l q)
          (λ a b. let c = both_eq j k l a b in cc))
]

get_list-assign :
    (l k : Str) (vs : List Str) (q : QueryParams)
    → get_list l (assign k vs q) ≡ (if str_eq k l then vs else get_list l q)
unfolding get_list
get_list-assign l k vs q = ap or_nothing (find-assign l k vs q) ∙ outside (str_eq k l)
  where
    outside :
        (b : Bool)
        → or_nothing (if b then some vs else find l q) ≡ (if b then vs else or_nothing (find l q))
    outside true = refl
    outside false = refl

get_list-head :
    (l k : Str) (vs : List Str) (q : QueryParams)
    → get_list l ((k, vs) ∷ q) ≡ (if str_eq k l then vs else get_list l q)
unfolding get_list find
get_list-head l k vs q = elim (Bool-cases (str_eq k l)) [ inl e ↦ rw e refl | inr e ↦ rw e refl ]

get_list-append_value :
    (l k v : Str) (q : QueryParams)
    → get_list l (append_value k v q)
      ≡ (if str_eq k l then get_list l q ++ v ∷ [] else get_list l q)
unfolding append_value
get_list-append_value l k v q =
    get_list-assign l k (get_list k q ++ v ∷ []) q ∙ same (Bool-cases (str_eq k l))
  where
    same :
        (str_eq k l ≡ true) ⊎ (str_eq k l ≡ false)
        → (if str_eq k l then get_list k q ++ v ∷ [] else get_list l q)
          ≡ (if str_eq k l then get_list l q ++ v ∷ [] else get_list l q)
    same (inl e) = rw e (ap (λ t. get_list t q ++ v ∷ []) ((str_eq_iff k l).0 e))
    same (inr e) = rw e refl

get_list-add_pairs :
    (k : Str) (ps : List (Str × Primitive)) (q : QueryParams)
    → get_list k (add_pairs ps q) ≡ get_list k q ++ values_for k ps
unfolding add_pairs values_for
get_list-add_pairs k [] q = sym (append-nil (get_list k q))
get_list-add_pairs k ((j, v) ∷ ps) q =
    get_list-add_pairs k ps (append_value j (primitive_value_to_str v) q)
    ∙ (ap (λ t. t ++ values_for k ps) (get_list-append_value k j (primitive_value_to_str v) q)
        ∙ extended (str_eq j k))
  where
    extended :
        (b : Bool)
        → (if b then get_list k q ++ primitive_value_to_str v ∷ [] else get_list k q)
            ++ values_for k ps
          ≡ get_list k q
            ++ (if b then primitive_value_to_str v ∷ values_for k ps else values_for k ps)
    extended true = append_assoc (get_list k q) (primitive_value_to_str v ∷ []) (values_for k ps)
    extended false = refl

-- Query parameters from a list of pairs: `get_list` of a key is the values that the pairs give it,
-- all of them and in their order, and nothing for a key that no pair has.
pub get_list-from_pairs :
    (k : Str) (ps : List (Str × Primitive)) → get_list k (from_pairs ps) ≡ values_for k ps
unfolding from_pairs get_list find
get_list-from_pairs k ps = get_list-add_pairs k ps []

find-remove :
    (l k : Str) (q : QueryParams) → find l (remove k q) ≡ (if str_eq k l then none else find l q)
unfolding find remove
find-remove l k [] = elim (Bool-cases (str_eq k l)) [ inl e ↦ rw e refl | inr e ↦ rw e refl ]
find-remove l k ((j, vs) ∷ q) = elim (Bool-cases (str_eq j k)) [
  | inl h ↦
      rw (h, find-remove l k q, swap_eq j k l h)
        (elim (Bool-cases (str_eq k l)) [ inl e ↦ rw e refl | inr e ↦ rw e refl ])
  | inr h ↦
      rw (h, find-remove l k q)
        (exchange (str_eq j l) (str_eq k l) (some vs) none (find l q)
          (λ a b. let c = both_eq j k l a b in cc))
]

get_list-remove :
    (l k : Str) (q : QueryParams)
    → get_list l (remove k q) ≡ (if str_eq k l then [] else get_list l q)
unfolding get_list
get_list-remove l k q = ap or_nothing (find-remove l k q) ∙ outside (str_eq k l)
  where
    outside :
        (b : Bool)
        → or_nothing (if b then none else find l q) ≡ (if b then [] else or_nothing (find l q))
    outside true = refl
    outside false = refl

-- Setting a key replaces its values, adding appends one to them, and removing leaves none; each
-- leaves the values of every other key as they were.
pub get_list-edited :
    (l k : Str) (v : Primitive) (q : QueryParams)
    → (get_list l (set k v q)
        ≡ (if str_eq k l then primitive_value_to_str v ∷ [] else get_list l q))
      × (get_list l (add k v q)
          ≡ (if str_eq k l then get_list l q ++ primitive_value_to_str v ∷ [] else get_list l q))
      × (get_list l (remove k q) ≡ (if str_eq k l then [] else get_list l q))
unfolding set add
get_list-edited l k v q = (
  get_list-assign l k (primitive_value_to_str v ∷ []) q,
  get_list-append_value l k (primitive_value_to_str v) q,
  get_list-remove l k q,
)

-- No key occurs twice.
abbrev pub IsDict : QueryParams → Type 0
IsDict [] = Unit
IsDict ((k, vs) ∷ q) = (contains k q ≡ false) × IsDict q

-- `merge` prefers the parameters that it is given: a key that they have gets their values, and any
-- other keeps those it had. In the parameters given no key occurs twice.
pub get_list-merge :
    (l : Str) (given own : QueryParams)
    → IsDict given
    → get_list l (merge given own) ≡ (if contains l given then get_list l given else get_list l own)
unfolding merge contains
get_list-merge l [] own h = refl
get_list-merge l ((k, vs) ∷ ps) own h =
    get_list-merge l ps (assign k vs own) h.1 ∙ elim (Bool-cases (str_eq k l)) [
      | inl e ↦
          let absent : contains l ps ≡ false =
            ap (λ t. contains t ps) (sym ((str_eq_iff k l).0 e)) ∙ h.0 in
          rw (absent, get_list-assign l k vs own, get_list-head l k vs ps, e) refl
      | inr e ↦ rw (get_list-assign l k vs own, get_list-head l k vs ps, e) refl
    ]
