-- ===== src/Url/Path.antt =====
-- The path functions of httpx2/httpx2/_urlparse.py, and the port.
pub mod Dots
use httpx.Prelude.{
  ℕ, zero, suc, ◌+◌, ◌*◌, ◌-◌, Bool, true, false, not, ◌&&◌, ◌||◌, Option, none, some, List, [],
  ◌∷◌, ◌++◌, if◌then◌else◌, ◌==◌, leb, Str, codes, str_eq, any,
}

abbrev pub slash : ℕ
slash = 47

abbrev pub dot : ℕ
dot = 46

abbrev pub cons_head : ℕ → List Str → List Str
cons_head c [] = (c ∷ []) ∷ []
cons_head c (x ∷ xs) = (c ∷ x) ∷ xs

-- path.split("/")
unfoldable pub split : Str → List Str
split [] = [] ∷ []
split (c ∷ cs) = let rest = split cs in if c == slash then [] ∷ rest else cons_head c rest

-- "/".join(output)
unfoldable pub join : List Str → Str
join [] = []
join (x ∷ []) = x
join (x ∷ y ∷ ys) = x ++ slash ∷ join (y ∷ ys)

unfoldable pub is_dot : Str → Bool
is_dot c = str_eq c (codes ".")

unfoldable pub is_dot_dot : Str → Bool
is_dot_dot c = str_eq c (codes "..")

unfoldable pub but_last : List Str → List Str
but_last [] = []
but_last (x ∷ []) = []
but_last (x ∷ y ∷ ys) = x ∷ but_last (y ∷ ys)

-- `if output and output != [""]: output.pop()`
unfoldable pub pop : List Str → List Str
unfolding but_last
pop [] = []
pop ([] ∷ []) = [] ∷ []
pop ((c ∷ cs) ∷ []) = []
pop (x ∷ y ∷ ys) = but_last (x ∷ y ∷ ys)

-- The loop over the components.
unfoldable pub resolve : List Str → List Str → List Str
unfolding is_dot is_dot_dot pop
resolve output [] = output
resolve output (c ∷ cs) =
    resolve (if is_dot c then output else if is_dot_dot c then pop output else output ++ c ∷ []) cs

abbrev pub is_special : Str → Bool
is_special c = is_dot c || is_dot_dot c

unfoldable pub normalize_path : Str → Str
unfolding split join resolve is_dot is_dot_dot
normalize_path path =
    let components = split path in
    if not (any (λ c. c == dot) path)
    then path
    else if not (any is_dot components) && not (any is_dot_dot components)
    then path
    else join (resolve [] components)

pub data Error : Type 0 where
  absolute_path_without_slash path_starts_with_slashes path_starts_with_colon invalid_port : Error

pub data Result {ℓ} (A : Type ℓ) : Type ℓ where
  ok : A → Result A
  err : Error → Result A

abbrev pub is_empty : Str → Bool
is_empty [] = true
is_empty (c ∷ cs) = false

-- str.startswith
unfoldable pub starts_with : Str → Str → Bool
starts_with [] text = true
starts_with (p ∷ ps) [] = false
starts_with (p ∷ ps) (c ∷ cs) = p == c && starts_with ps cs

-- `None` for a path that raises nothing.
unfoldable pub validate_path : Str → Bool → Bool → Result (Unit {0})
unfolding starts_with
validate_path path has_scheme has_authority =
    if has_authority && (not (is_empty path) && not (starts_with (codes "/") path))
    then err absolute_path_without_slash
    else if not has_scheme && (not has_authority && starts_with (codes "//") path)
    then err path_starts_with_slashes
    else if not has_scheme && (not has_authority && starts_with (codes ":") path)
    then err path_starts_with_colon
    else ok tt

-- The integers: `negsuc n` is - (n + 1).
pub data ℤ : Type 0 where
  pos negsuc : ℕ → ℤ

-- The default ports that `normalize_port` names.
unfoldable pub default_port : Str → Option ℕ
default_port scheme =
    if str_eq scheme (codes "ftp")
    then some 21
    else if str_eq scheme (codes "http")
    then some 80
    else if str_eq scheme (codes "https")
    then some 443
    else if str_eq scheme (codes "ws")
    then some 80
    else if str_eq scheme (codes "wss")
    then some 443
    else none

abbrev same_port : ℤ → Option ℕ → Bool
same_port p none = false
same_port (pos p) (some q) = p == q
same_port (negsuc p) (some q) = false

-- `normalize_port`, with Python's `int` of a text as a parameter: `none` for a ValueError. A text
-- with a sign gives a negative port.
unfoldable pub normalize_port : (Str → Option ℤ) → Option Str → Str → Result (Option ℤ)
unfolding default_port
normalize_port int none scheme = ok none
normalize_port int (some port) scheme = if is_empty port then ok none else elim (int port) [
  | none ↦ err invalid_port
  | some p ↦ ok (if same_port p (default_port scheme) then none else some p)
]
