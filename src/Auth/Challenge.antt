-- ===== src/Auth/Challenge.antt =====
-- `_parse_challenge` of DigestAuth in httpx2/httpx2/_auth.py, with `parse_http_list` of Python's
-- urllib.
use httpx.Prelude.{
  ℕ, Bool, true, false, ◌&&◌, ◌||◌, Option, none, some, List, [], ◌∷◌, ◌++◌, if◌then◌else◌, ◌==◌,
  leb, Str, codes, str_eq,
}
use httpx.Headers.{lower}

pub record Challenge : Type 0 where
  pub realm : Str
  pub nonce : Str
  pub algorithm : Str
  pub opaque : Option Str
  pub qop : Option Str

pub data Error : Type 0 where
  protocol_error value_error not_implemented : Error

pub data Result {ℓ} (A : Type ℓ) : Type ℓ where
  ok : A → Result A
  err : Error → Result A

abbrev pub is_space : ℕ → Bool
is_space c = (leb 9 c && leb c 13) || ((leb 28 c && leb c 32) || (c == 0x85 || c == 0xa0))

unfoldable pub lstrip : (ℕ → Bool) → Str → Str
lstrip p [] = []
lstrip p (c ∷ cs) = let rest = lstrip p cs in if p c then rest else c ∷ cs

abbrev cons_unless : (ℕ → Bool) → ℕ → Str → Str
cons_unless p c [] = if p c then [] else c ∷ []
cons_unless p c (d ∷ ds) = c ∷ d ∷ ds

unfoldable pub rstrip : (ℕ → Bool) → Str → Str
rstrip p [] = []
rstrip p (c ∷ cs) = cons_unless p c (rstrip p cs)

unfoldable pub strip : (ℕ → Bool) → Str → Str
unfolding lstrip rstrip
strip p s = rstrip p (lstrip p s)

abbrev is_empty : Str → Bool
is_empty [] = true
is_empty (c ∷ cs) = false

-- `parse_http_list` from a character on: the part so far, and the two flags of the loop.
unfoldable pub http_list : Str → Bool → Bool → Str → List Str
unfolding strip
http_list part escape quote [] = if is_empty part then [] else strip is_space part ∷ []
http_list part escape quote (c ∷ cs) =
    let kept = http_list (part ++ c ∷ []) false quote cs in
    let escaping = http_list part true quote cs in
    let closing = http_list (part ++ c ∷ []) false false cs in
    let opening = http_list (part ++ c ∷ []) false true cs in
    let next = strip is_space part ∷ http_list [] false false cs in
    if escape
    then kept
    else if quote
    then (if c == 92 then escaping else if c == 34 then closing else kept)
    else if c == 44
    then next
    else if c == 34
    then opening
    else kept

-- s.partition(separator): what is before it, whether it is there, and what is after it.
unfoldable pub partition : ℕ → Str → Str × Bool × Str
partition sep [] = ([], false, [])
partition sep (c ∷ cs) =
    let (before, found, after) = partition sep cs in
    if c == sep then ([], true, cs) else (c ∷ before, found, after)

-- field.strip().split("=", 1), which must give two values.
unfoldable pub field_value : Str → Option (Str × Str)
unfolding partition strip lower
field_value field =
    let (key, found, value) = partition 61 (strip is_space field) in
    if found
    then some (lower (strip is_space key), strip (λ c. c == 34) (strip is_space value))
    else none

-- The dictionary of the fields, the last assignment first; none is the ValueError.
unfoldable pub header_dict : List Str → Option (List (Str × Str))
unfolding field_value
header_dict [] = some []
header_dict (f ∷ fs) = elim (field_value f) [
  | none ↦ none
  | some kv ↦ elim (header_dict fs) [ none ↦ none | some kvs ↦ some (kvs ++ kv ∷ []) ]
]

unfoldable pub find : Str → List (Str × Str) → Option Str
find k [] = none
find k ((j, v) ∷ kvs) = let rest = find k kvs in if str_eq j k then some v else rest

abbrev or_md5 : Option Str → Str
or_md5 none = codes "MD5"
or_md5 (some a) = a

-- The challenge in the dictionary: the realm and the nonce must be there.
unfoldable pub challenge_of : List (Str × Str) → Result Challenge
unfolding find
challenge_of d = elim (find (codes "realm") d) [
  | none ↦ err protocol_error
  | some realm ↦ elim (find (codes "nonce") d) [
    | none ↦ err protocol_error
    | some nonce ↦ ok (record {
      realm = realm;
      nonce = nonce;
      algorithm = or_md5 (find (codes "algorithm") d);
      opaque = find (codes "opaque") d;
      qop = find (codes "qop") d;
    })
  ]
]

unfoldable pub parse_challenge : Str → Result Challenge
unfolding partition http_list header_dict challenge_of
parse_challenge auth_header =
    let (scheme, found, fields) = partition 32 auth_header in
    elim (header_dict (http_list [] false false fields)) [
      | none ↦ err value_error
      | some d ↦ challenge_of d
    ]
