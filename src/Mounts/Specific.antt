-- ===== src/Mounts/Specific.antt =====
-- The transport that a client chooses.
use httpx.Prelude.{◌≡◌, refl, true, false, Option, none, some, List, All, ◌⊎◌, inl, inr}
use httpx.Mounts.{
  Networks, Url, Mount, mount_lt, matches, pattern_lt, priority, sorted_mounts, sort, first_match,
  transport_for_url, or_default,
}
use httpx.Mounts.Order.{tuple_lt_asym, tuple_lt_trans, tuple_lt_irrefl}
use httpx.Mounts.Sorting.{Elem, IsFirst, first_match-sort}

-- What is said of the transport chosen for a URL.
abbrev pub Chosen : {N A T : Type 0} → Networks N A → T → List (Mount N T) → Url → T → Type 0
Chosen nets own ms url t =
    (All (λ m. matches nets m.0 url ≡ false) ms × (t ≡ own))
    ⊎ ((m : _) × Elem m ms
        × (matches nets m.0 url ≡ true)
        × All (λ n. matches nets n.0 url ≡ true → mount_lt nets n m ≡ false) ms
        × (t ≡ or_default own m.1))

module _ {N A T : Type 0} (nets : Networks N A) (own : T) (ms : List (Mount N T)) (url : Url) where
  chosen :
      (o : Option (Mount N T))
      → IsFirst (mount_lt nets) (λ m. matches nets m.0 url) ms o
      → Chosen nets own ms url (elim o [ none ↦ own | some m ↦ or_default own m.1 ])
  chosen none f = inl (f, refl)
  chosen (some m) (e, t, a) = inr (m, e, t, a, refl)

  -- The transport for a URL is the client's own if no mounted pattern matches it. Otherwise it is that
  -- of a mounted pattern that matches, and no other mounted pattern that matches comes before that one
  -- in the order of specificity.
  pub transport_for_url-Chosen :
      Chosen nets own ms url (transport_for_url nets own (sorted_mounts nets ms) url)
  unfolding transport_for_url sorted_mounts pattern_lt
  transport_for_url-Chosen =
      chosen (first_match (λ m. matches nets m.0 url) (sort (mount_lt nets) ms)) (
        first_match-sort (mount_lt nets) (λ m. matches nets m.0 url) ms
          (λ a b. tuple_lt_asym (priority nets a.0) (priority nets b.0))
          (λ a b c. tuple_lt_trans (priority nets a.0) (priority nets b.0) (priority nets c.0))
          (λ a. tuple_lt_irrefl (priority nets a.0)))
