-- ===== src/Mounts/Order.antt =====
-- The order of the patterns is a strict weak order.
use httpx.Prelude.{◌≡◌, refl, true, false, List, [], ◌∷◌, arith, Bool-cases, inl, inr}
use httpx.Mounts.{Entry, up, down, entry_lt, tuple_lt}

entry_lt_asym : (a b : Entry) → entry_lt a b ≡ true → entry_lt b a ≡ false
unfolding entry_lt
entry_lt_asym (up a) (up b) h = ground arith
entry_lt_asym (up a) (down b) h = cc
entry_lt_asym (down a) (up b) h = refl
entry_lt_asym (down a) (down b) h = ground arith

entry_lt_trans :
    (a b c : Entry) → entry_lt b a ≡ false → entry_lt c b ≡ false → entry_lt c a ≡ false
unfolding entry_lt
entry_lt_trans (up a) (up b) (up c) h k = ground arith
entry_lt_trans (up a) (up b) (down c) h k = ground arith
entry_lt_trans (up a) (down b) (up c) h k = ground arith
entry_lt_trans (up a) (down b) (down c) h k = ground arith
entry_lt_trans (down a) (up b) (up c) h k = refl
entry_lt_trans (down a) (up b) (down c) h k = ground arith
entry_lt_trans (down a) (down b) (up c) h k = refl
entry_lt_trans (down a) (down b) (down c) h k = ground arith

pub tuple_lt_asym : (a b : List Entry) → tuple_lt a b ≡ true → tuple_lt b a ≡ false
unfolding tuple_lt
tuple_lt_asym [] [] h = refl
tuple_lt_asym [] (b ∷ bs) h = refl
tuple_lt_asym (a ∷ as') [] h = cc
tuple_lt_asym (a ∷ as') (b ∷ bs) h = ground (arith, entry_lt_asym a b, tuple_lt_asym as' bs)

pub tuple_lt_trans :
    (a b c : List Entry) → tuple_lt b a ≡ false → tuple_lt c b ≡ false → tuple_lt c a ≡ false
unfolding tuple_lt
tuple_lt_trans [] [] c h k = k
tuple_lt_trans [] (b ∷ bs) [] h k = refl
tuple_lt_trans [] (b ∷ bs) (c ∷ cs) h k = refl
tuple_lt_trans (a ∷ as') [] c h k = cc
tuple_lt_trans (a ∷ as') (b ∷ bs) [] h k = cc
tuple_lt_trans (a ∷ as') (b ∷ bs) (c ∷ cs) h k = ground (
  arith,
  entry_lt_trans a b c,
  entry_lt_trans b c a,
  entry_lt_trans c a b,
  entry_lt_asym a b,
  entry_lt_asym b c,
  entry_lt_asym a c,
  tuple_lt_trans as' bs cs,
)

pub tuple_lt_irrefl : (a : List Entry) → tuple_lt a a ≡ false
tuple_lt_irrefl a = elim (Bool-cases (tuple_lt a a)) [ inl h ↦ tuple_lt_asym a a h | inr h ↦ h ]
