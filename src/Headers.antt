-- ===== src/Headers.antt =====
-- `Headers` in httpx2/httpx2/_models.py, on byte strings: what a caller passes as `str` is taken in
-- its encoded form, which for ASCII is the same list of numbers.
pub mod Lookup
pub mod Update
use httpx.Prelude.{
  ℕ, ◌+◌, Bool, true, false, not, ◌&&◌, ◌||◌, Option, none, some, List, [], ◌∷◌, ◌++◌,
  if◌then◌else◌, leb, Str, str_eq, length,
}

-- bytes.lower()
abbrev lower_byte : ℕ → ℕ
lower_byte c = if leb 65 c && leb c 90 then c + 32 else c

unfoldable pub lower : Str → Str
lower [] = []
lower (c ∷ cs) = lower_byte c ∷ lower cs

-- An item of `self._list`.
pub record Header : Type 0 where
  pub raw_key : Str
  pub key : Str
  pub value : Str

abbrev pub Headers : Type 0
Headers = List Header

unfoldable pub header : Str → Str → Header
unfolding lower
header k v = record { raw_key = k; key = lower k; value = v }

-- `__init__` from a list of pairs
unfoldable pub from_pairs : List (Str × Str) → Headers
unfolding header
from_pairs [] = []
from_pairs ((k, v) ∷ kvs) = header k v ∷ from_pairs kvs

-- The values of the items under a normalised key.
unfoldable pub values_of : Str → Headers → List Str
values_of k [] = []
values_of k (h ∷ hs) = let rest = values_of k hs in if str_eq h.key k then h.value ∷ rest else rest

-- ", ".join(items)
unfoldable pub join_values : List Str → Str
join_values [] = []
join_values (v ∷ []) = v
join_values (v ∷ w ∷ vs) = v ++ 44 ∷ 32 ∷ join_values (w ∷ vs)

abbrev pub joined : List Str → Option Str
joined [] = none
joined (v ∷ vs) = some (join_values (v ∷ vs))

-- `__getitem__`; `none` is the KeyError. Also `get` with no default.
unfoldable pub get : Str → Headers → Option Str
unfolding lower values_of join_values
get k hs = joined (values_of (lower k) hs)

-- `del self._list[idx]` for the items under a key
unfoldable pub remove : Str → Headers → Headers
remove k [] = []
remove k (h ∷ hs) = let rest = remove k hs in if str_eq h.key k then rest else h ∷ rest

unfoldable pub has_key : Str → Headers → Bool
has_key k [] = false
has_key k (h ∷ hs) = str_eq h.key k || has_key k hs

-- `__contains__`
unfoldable pub contains : Str → Headers → Bool
unfolding lower has_key
contains k hs = has_key (lower k) hs

-- The first item under the key of `new` is replaced, and the later ones go; else `new` is appended.
unfoldable pub put : Header → Headers → Headers
unfolding remove
put new [] = new ∷ []
put new (h ∷ hs) =
    let rest = put new hs in if str_eq h.key new.key then new ∷ remove new.key hs else h ∷ rest

-- `__setitem__`
unfoldable pub set : Str → Str → Headers → Headers
unfolding header put
set k v hs = put (header k v) hs

-- `__delitem__`; `none` is the KeyError.
unfoldable pub delete : Str → Headers → Option Headers
unfolding lower has_key remove
delete k hs = if has_key (lower k) hs then some (remove (lower k) hs) else none

abbrev or_same : Headers → Option Headers → Headers
or_same hs none = hs
or_same hs (some hs') = hs'

-- `pop(key, None)`, less the value
unfoldable pub pop : Str → Headers → Headers
unfolding delete
pop k hs = or_same hs (delete k hs)

-- The loop of `update` over the keys of the other headers.
unfoldable pub pop_keys : Headers → Headers → Headers
unfolding contains pop
pop_keys [] hs = hs
pop_keys (h ∷ others) hs = pop_keys others (if contains h.key hs then pop h.key hs else hs)

-- `update`
unfoldable pub update : Headers → Headers → Headers
unfolding pop_keys
update others hs = pop_keys others hs ++ others

-- `raw` and `multi_items`
unfoldable pub raw : Headers → List (Str × Str)
raw [] = []
raw (h ∷ hs) = (h.raw_key, h.value) ∷ raw hs

unfoldable pub multi_items : Headers → List (Str × Str)
multi_items [] = []
multi_items (h ∷ hs) = (h.key, h.value) ∷ multi_items hs

-- `get` with a default
unfoldable pub get_or : {A : Type 0} → (Str → A) → Str → A → Headers → A
unfolding get
get_or found k default hs = elim (get k hs) [ none ↦ default | some v ↦ found v ]

-- `__or__`: the copy is the same list.
unfoldable pub union : Headers → List (Str × Str) → Headers
unfolding update from_pairs
union hs others = update (from_pairs others) hs

-- `__ror__`
unfoldable pub reverse_union : Headers → List (Str × Str) → Headers
unfolding update from_pairs
reverse_union hs others = update hs (from_pairs others)

-- value.split(",")
abbrev cons_item : ℕ → List Str → List Str
cons_item c [] = (c ∷ []) ∷ []
cons_item c (x ∷ xs) = (c ∷ x) ∷ xs

unfoldable pub split_comma : Str → List Str
split_comma [] = [] ∷ []
split_comma (c ∷ cs) =
    let rest = split_comma cs in if leb c 44 && leb 44 c then [] ∷ rest else cons_item c rest

-- `split_values.extend` for each value; `strip` is `str.strip`.
unfoldable pub split_items : (Str → Str) → List Str → List Str
split_items strip [] = []
split_items strip (x ∷ xs) = strip x ∷ split_items strip xs

unfoldable pub split_all : (Str → Str) → List Str → List Str
unfolding split_comma split_items
split_all strip [] = []
split_all strip (v ∷ vs) = split_items strip (split_comma v) ++ split_all strip vs

-- The values of the items whose key is `k` in lower case.
unfoldable pub values_in_any_case : Str → Headers → List Str
unfolding lower
values_in_any_case k [] = []
values_in_any_case k (h ∷ hs) =
    let rest = values_in_any_case k hs in if str_eq (lower h.key) k then h.value ∷ rest else rest

-- `get_list`
unfoldable pub get_list : (Str → Str) → Str → Bool → Headers → List Str
unfolding lower values_in_any_case split_all
get_list strip k split_commas hs =
    let values = values_in_any_case (lower k) hs in
    if not split_commas then values else split_all strip values
