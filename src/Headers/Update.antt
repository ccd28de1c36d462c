-- ===== src/Headers/Update.antt =====
-- Reading a header after `update`.
use httpx.Prelude.{
  ◌≡◌, refl, sym, Bool, true, false, List, [], ◌∷◌, ◌++◌, if◌then◌else◌, Str, str_eq, str_eq_iff,
  arith, Bool-cases, inl, inr, append-nil,
}
use httpx.Headers.{
  Headers, header, lower, values_of, get, remove, has_key, contains, delete, pop, pop_keys, update,
  from_pairs,
}
use httpx.Headers.Lookup.{no_key-values, values_of-remove_same, values_of-remove_other}

lower_idem : (s : Str) → lower (lower s) ≡ lower s
unfolding lower
lower_idem [] = refl
lower_idem (c ∷ cs) = ground (arith, lower_idem cs)

values_of-append : (j : Str) (a b : Headers) → values_of j (a ++ b) ≡ values_of j a ++ values_of j b
unfolding values_of
values_of-append j [] b = refl
values_of-append j (h ∷ a) b = ground (arith, values_of-append j a b)

-- One round of the loop of `update`.
values_of-pop_one :
    (j k : Str) (hs : Headers)
    → values_of j (if contains k hs then pop k hs else hs)
      ≡ (if str_eq (lower k) j then [] else values_of j hs)
unfolding contains pop delete
values_of-pop_one j k hs = elim (Bool-cases (has_key (lower k) hs)) [
  | inl h ↦ rw h (popped (str_eq (lower k) j) refl)
  | inr h ↦ rw h (absent (str_eq (lower k) j) refl h)
]
  where
    popped :
        (b : Bool)
        → str_eq (lower k) j ≡ b
        → values_of j (remove (lower k) hs) ≡ (if b then [] else values_of j hs)
    popped true e = rw (sym ((str_eq_iff (lower k) j).0 e)) (values_of-remove_same (lower k) hs)
    popped false e = values_of-remove_other j (lower k) hs e

    absent :
        (b : Bool)
        → str_eq (lower k) j ≡ b
        → has_key (lower k) hs ≡ false
        → values_of j hs ≡ (if b then [] else values_of j hs)
    absent true e h = rw (sym ((str_eq_iff (lower k) j).0 e)) (no_key-values (lower k) hs h)
    absent false e h = refl

values_of-pop_keys :
    (j : Str) (kvs : List (Str × Str)) (hs : Headers)
    → values_of j (pop_keys (from_pairs kvs) hs)
      ≡ (if has_key j (from_pairs kvs) then [] else values_of j hs)
unfolding pop_keys from_pairs has_key header
values_of-pop_keys j [] hs = refl
values_of-pop_keys j ((k, v) ∷ kvs) hs =
    let hs' = if contains (lower k) hs then pop (lower k) hs else hs in
    rw (values_of-pop_keys j kvs hs', values_of-pop_one j (lower k) hs, lower_idem k) (ground arith)

-- Reading a header after `update` from pairs: it is what the pairs say, if they name it, and else
-- what it was before.
pub get-update :
    (j : Str) (kvs : List (Str × Str)) (hs : Headers)
    → get j (update (from_pairs kvs) hs)
      ≡ (if contains j (from_pairs kvs) then get j (from_pairs kvs) else get j hs)
unfolding get update contains
get-update j kvs hs =
    rw
      (
        values_of-append (lower j) (pop_keys (from_pairs kvs) hs) (from_pairs kvs),
        values_of-pop_keys (lower j) kvs hs,
      )
      (elim (Bool-cases (has_key (lower j) (from_pairs kvs))) [
        | inl h ↦ rw h refl
        | inr h ↦
            rw (h, no_key-values (lower j) (from_pairs kvs) h, append-nil (values_of (lower j) hs))
              refl
      ])
