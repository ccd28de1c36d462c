-- ===== src/QueryParams.antt =====
-- `QueryParams` of httpx2/httpx2/_urls.py: a multi-dict, as Python's dict from keys to lists of
-- values, in the order of insertion. `parse_qs` and `urlencode` are Python's, and parameters.
pub mod Laws
use httpx.Prelude.{
  ℕ, ◌+◌, Bool, true, false, not, ◌||◌, Option, none, some, List, [], ◌∷◌, ◌++◌, if◌then◌else◌, Str,
  codes, str_eq, length,
}

-- A value that is not a list.
pub data Primitive : Type 0 where
  boolean : Bool → Primitive
  absent : Primitive
  other : Str → Primitive

-- `primitive_value_to_str` of _utils.py; any other value is given by its text.
unfoldable pub primitive_value_to_str : Primitive → Str
primitive_value_to_str (boolean true) = codes "true"
primitive_value_to_str (boolean false) = codes "false"
primitive_value_to_str absent = []
primitive_value_to_str (other s) = s

abbrev pub QueryParams : Type 0
QueryParams = List (Str × List Str)

-- self._dict.get(key)
unfoldable pub find : Str → QueryParams → Option (List Str)
find k [] = none
find k ((j, vs) ∷ q) = let rest = find k q in if str_eq j k then some vs else rest

-- self._dict[key] = values
unfoldable pub assign : Str → List Str → QueryParams → QueryParams
assign k vs [] = (k, vs) ∷ []
assign k vs ((j, us) ∷ q) =
    let rest = assign k vs q in if str_eq j k then (j, vs) ∷ q else (j, us) ∷ rest

abbrev pub or_nothing : Option (List Str) → List Str
or_nothing none = []
or_nothing (some vs) = vs

unfoldable pub get_list : Str → QueryParams → List Str
unfolding find
get_list k q = or_nothing (find k q)

-- dict_value.setdefault(key, []).append(value)
unfoldable pub append_value : Str → Str → QueryParams → QueryParams
unfolding assign get_list
append_value k v q = assign k (get_list k q ++ v ∷ []) q

-- `__init__` on a list of pairs
unfoldable pub add_pairs : List (Str × Primitive) → QueryParams → QueryParams
unfolding append_value primitive_value_to_str
add_pairs [] q = q
add_pairs ((k, v) ∷ ps) q = add_pairs ps (append_value k (primitive_value_to_str v) q)

unfoldable pub from_pairs : List (Str × Primitive) → QueryParams
unfolding add_pairs
from_pairs ps = add_pairs ps []

-- A value of a dict: one, or a list.
pub data Value : Type 0 where
  one : Primitive → Value
  many : List Primitive → Value

unfoldable pub texts : List Primitive → List Str
unfolding primitive_value_to_str
texts [] = []
texts (v ∷ vs) = primitive_value_to_str v ∷ texts vs

abbrev values_of : Value → List Str
unfolding texts primitive_value_to_str
values_of (one v) = primitive_value_to_str v ∷ []
values_of (many vs) = texts vs

-- `__init__` on a dict, whose keys differ
unfoldable pub from_dict : List (Str × Value) → QueryParams
unfolding texts primitive_value_to_str
from_dict [] = []
from_dict ((k, v) ∷ d) = (k, values_of v) ∷ from_dict d

unfoldable pub keys : QueryParams → List Str
keys [] = []
keys ((k, vs) ∷ q) = k ∷ keys q

-- The first of some values; none is the IndexError of an empty list.
abbrev first : List Str → Option Str
first [] = none
first (v ∷ vs) = some v

abbrev cons_item : Str → Option Str → Option (List (Str × Str)) → Option (List (Str × Str))
cons_item k none items = none
cons_item k (some v) none = none
cons_item k (some v) (some items) = some ((k, v) ∷ items)

unfoldable pub items : QueryParams → Option (List (Str × Str))
items [] = some []
items ((k, vs) ∷ q) = cons_item k (first vs) (items q)

unfoldable pub pairs_of : Str → List Str → List (Str × Str)
pairs_of k [] = []
pairs_of k (v ∷ vs) = (k, v) ∷ pairs_of k vs

unfoldable pub multi_items : QueryParams → List (Str × Str)
unfolding pairs_of
multi_items [] = []
multi_items ((k, vs) ∷ q) = pairs_of k vs ++ multi_items q

-- What a lookup gives: the first value, that the key is missing, or an IndexError.
pub data Lookup : Type 0 where
  value : Str → Lookup
  missing index_error : Lookup

unfoldable pub get : Str → QueryParams → Lookup
unfolding find
get k q = elim (find k q) [ none ↦ missing | some [] ↦ index_error | some (v ∷ vs) ↦ value v ]

unfoldable pub contains : Str → QueryParams → Bool
contains k [] = false
contains k ((j, vs) ∷ q) = str_eq j k || contains k q

unfoldable pub set : Str → Primitive → QueryParams → QueryParams
unfolding assign primitive_value_to_str
set k v q = assign k (primitive_value_to_str v ∷ []) q

unfoldable pub add : Str → Primitive → QueryParams → QueryParams
unfolding append_value primitive_value_to_str
add k v q = append_value k (primitive_value_to_str v) q

unfoldable pub remove : Str → QueryParams → QueryParams
remove k [] = []
remove k ((j, vs) ∷ q) = let rest = remove k q in if str_eq j k then rest else (j, vs) ∷ rest

-- {**self._dict, **q._dict}
unfoldable pub merge : QueryParams → QueryParams → QueryParams
unfolding assign
merge [] q = q
merge ((k, vs) ∷ ps) q = merge ps (assign k vs q)

-- `__len__` and `__bool__`
unfoldable pub len : QueryParams → ℕ
len q = length q

unfoldable pub is_truthy : QueryParams → Bool
is_truthy [] = false
is_truthy (item ∷ q) = true

-- `__str__`
unfoldable pub query_text : (List (Str × Str) → Str) → QueryParams → Str
unfolding multi_items
query_text urlencode q = urlencode (multi_items q)
