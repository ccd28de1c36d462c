-- ===== src/Auth/Digest.antt =====
-- DigestAuth in httpx2/httpx2/_auth.py. The hash functions, the random nonce of the client and the
-- cookies of a response are parameters.
use httpx.Prelude.{
  ℕ, zero, suc, ◌+◌, ◌-◌, ◌/◌, ◌^◌, ◌%◌, Bool, true, false, not, ◌&&◌, ◌||◌, Option, none, some,
  List, [], ◌∷◌, ◌++◌, if◌then◌else◌, ◌==◌, ltb, leb, Str, codes, str_eq,
}
use httpx.Headers.{Headers, lower, set, get_list, contains}
use httpx.Url.Path.{starts_with}
use httpx.Auth.Challenge.{
  Challenge, protocol_error, not_implemented, Result, ok, err, is_space, strip, parse_challenge,
}

pub record Digest : Type 0 where
  pub username : Str
  pub password : Str
  pub last_challenge : Option Challenge
  pub nonce_count : ℕ

unfoldable pub create : Str → Str → Digest
create user password = record {
  username = user;
  password = password;
  last_challenge = none;
  nonce_count = 1;
}

pub record Request : Type 0 where
  pub method : Str
  pub raw_path : Str
  pub headers : Headers

pub record Response : Type 0 where
  pub status_code : ℕ
  pub headers : Headers

abbrev pub upper_byte : ℕ → ℕ
upper_byte c = if leb 97 c && leb c 122 then c - 32 else c

unfoldable pub upper : Str → Str
upper [] = []
upper (c ∷ cs) = upper_byte c ∷ upper cs

-- b":".join
unfoldable pub join_colon : List Str → Str
join_colon [] = []
join_colon (x ∷ []) = x
join_colon (x ∷ y ∷ ys) = x ++ 58 ∷ join_colon (y ∷ ys)

abbrev hex_digit : ℕ → ℕ
hex_digit n = if ltb n 10 then 48 + n else 87 + n

-- The last `k` hexadecimal digits.
unfoldable pub hex : ℕ → ℕ → Str
hex zero n = []
hex (suc k) n = hex k (n / 16) ++ hex_digit (n % 16) ∷ []

-- The hexadecimal digits, none for 0; the fuel is at least their number.
unfoldable pub hex_digits : ℕ → ℕ → Str
hex_digits zero n = []
hex_digits (suc fuel) n = elim (ltb 0 n) [
  | true ↦ hex_digits fuel (n / 16) ++ hex_digit (n % 16) ∷ []
  | false ↦ []
]

-- b"%08x" % n: eight digits, and those above them. As n < 16 ^ n, n is fuel enough.
unfoldable pub nonce_count_text : ℕ → Str
unfolding hex hex_digits
nonce_count_text n = let above = n / 16 ^ 8 in hex_digits above above ++ hex 8 n

-- re.split(b", ?", qop)
abbrev cons_first : ℕ → List Str → List Str
cons_first c [] = (c ∷ []) ∷ []
cons_first c (x ∷ xs) = (c ∷ x) ∷ xs

unfoldable pub split_qop : Str → List Str
split_qop [] = [] ∷ []
split_qop (c ∷ []) = if c == 44 then [] ∷ [] ∷ [] else (c ∷ []) ∷ []
split_qop (c ∷ d ∷ cs) =
    let after_blank = [] ∷ split_qop cs in
    let after = [] ∷ split_qop (d ∷ cs) in
    let inside = cons_first c (split_qop (d ∷ cs)) in
    if c == 44 then (if d == 32 then after_blank else after) else inside

unfoldable pub has_text : Str → List Str → Bool
has_text t [] = false
has_text t (x ∷ xs) = str_eq x t || has_text t xs

abbrev only_auth_int : List Str → Bool
only_auth_int [] = false
only_auth_int (x ∷ []) = str_eq x (codes "auth-int")
only_auth_int (x ∷ y ∷ ys) = false

unfoldable pub resolve_qop : Option Str → Result (Option Str)
unfolding split_qop has_text
resolve_qop none = ok none
resolve_qop (some qop) =
    if has_text (codes "auth") (split_qop qop)
    then ok (some (codes "auth"))
    else if only_auth_int (split_qop qop)
    then err not_implemented
    else err protocol_error

unfoldable pub ends_with : Str → Str → Bool
ends_with tail [] = str_eq tail []
ends_with tail (c ∷ cs) = str_eq tail (c ∷ cs) || ends_with tail cs

abbrev quoted : Str → Str → Str
quoted field value = field ++ 61 ∷ 34 ∷ value ++ 34 ∷ []

abbrev plain : Str → Str → Str
plain field value = field ++ 61 ∷ value

unfoldable pub join_fields : List Str → Str
join_fields [] = []
join_fields (x ∷ []) = x
join_fields (x ∷ y ∷ ys) = x ++ 44 ∷ 32 ∷ join_fields (y ∷ ys)

abbrev opaque_field : Option Str → List Str
opaque_field none = []
opaque_field (some []) = []
opaque_field (some (c ∷ cs)) = quoted (codes "opaque") (c ∷ cs) ∷ []

abbrev qop_fields : Option Str → Str → Str → List Str
qop_fields none nc cnonce = []
qop_fields (some q) nc cnonce =
    plain (codes "qop") (codes "auth") ∷ plain (codes "nc") nc ∷ quoted (codes "cnonce") cnonce ∷ []

-- `hash_func` by the name of the algorithm in capitals: none for one that is not supported.
module _ (hash_func : Str → Option (Str → Str)) (client_nonce : ℕ → Str → Str) where
  -- HA1, with the session variant of the algorithm
  unfoldable pub hash_a1 : (Str → Str) → Digest → Challenge → Str → Str
  unfolding join_colon ends_with lower
  hash_a1 digest d c cnonce =
      let a1 = digest (join_colon (d.username ∷ c.realm ∷ d.password ∷ [])) in
      if ends_with (codes "-sess") (lower c.algorithm)
      then digest (join_colon (a1 ∷ c.nonce ∷ cnonce ∷ []))
      else a1

  unfoldable pub digest_data : Str → Challenge → Option Str → Str → Str → Str → List Str
  digest_data a1 c none nc cnonce a2 = a1 ∷ c.nonce ∷ a2 ∷ []
  digest_data a1 c (some qop) nc cnonce a2 = a1 ∷ c.nonce ∷ nc ∷ cnonce ∷ qop ∷ a2 ∷ []

  -- The value of the header for the n-th use of a challenge.
  unfoldable pub header_value : Digest → Challenge → Request → ℕ → (Str → Str) → Option Str → Str
  unfolding hash_a1 digest_data nonce_count_text join_fields
  header_value d c req n digest qop =
      let nc = nonce_count_text n in
      let cnonce = client_nonce n c.nonce in
      let a2 = digest (join_colon (req.method ∷ req.raw_path ∷ [])) in
      codes "Digest "
      ++ join_fields (
          quoted (codes "username") d.username
          ∷ quoted (codes "realm") c.realm
          ∷ quoted (codes "nonce") c.nonce
          ∷ quoted (codes "uri") req.raw_path
          ∷ quoted (codes "response")
              (digest (join_colon (digest_data (hash_a1 digest d c cnonce) c qop nc cnonce a2)))
          ∷ plain (codes "algorithm") c.algorithm
          ∷ (opaque_field c.opaque ++ qop_fields qop nc cnonce))

  -- `_build_auth_header`: the count is raised also if the qop is then refused.
  unfoldable pub build_auth_header : Request → Challenge → Digest → Result Str × Digest
  build_auth_header req c d = elim (hash_func (upper c.algorithm)) [
    | none ↦ (err protocol_error, d)
    | some digest ↦ (
      elim (resolve_qop c.qop) [
        | err e ↦ err e
        | ok qop ↦ ok (header_value d c req d.nonce_count digest qop)
      ],
      record d { nonce_count = d.nonce_count + 1 },
    )
  ]

  abbrev authorize : Request → Result Str → Result Request
  authorize req (err e) = err e
  authorize req (ok v) = ok (record req { headers = set (codes "Authorization") v req.headers })

  -- `auth_flow` up to its first `yield`.
  unfoldable pub first_request : Request → Digest → Result Request × Digest
  first_request req d = elim d.last_challenge [
    | none ↦ (ok req, d)
    | some c ↦ let (r, d') = build_auth_header req c d in (authorize req r, d')
  ]

  -- The first header of the list that is for this scheme.
  unfoldable pub digest_header : List Str → Option Str
  unfolding starts_with lower
  digest_header [] = none
  digest_header (h ∷ hs) =
      let rest = digest_header hs in
      if starts_with (codes "digest ") (lower h) then some h else rest

  -- The request after a challenge.
  unfoldable pub answer_challenge :
      (Request → Request) → Request → Challenge → Digest → Result Request × Digest
  answer_challenge set_cookies req c d =
      let (r, d') =
        build_auth_header req c (record d { last_challenge = some c; nonce_count = 1 }) in
      (elim (authorize req r) [ err e ↦ err e | ok req' ↦ ok (set_cookies req') ], d')

  -- `auth_flow` after the response: none ends the flow.
  unfoldable pub second_request :
      (Request → Request) → Request → Response → Digest → Option (Result Request) × Digest
  second_request set_cookies req resp d =
      if not (resp.status_code == 401) || not (contains (codes "www-authenticate") resp.headers)
      then (none, d)
      else elim (digest_header
          (get_list (strip is_space) (codes "www-authenticate") false resp.headers)) [
            | none ↦ (none, d)
            | some h ↦ elim (parse_challenge h) [
              | err e ↦ (some (err e), d)
              | ok c ↦ let (r, d') = answer_challenge set_cookies req c d in (some r, d')
            ]
          ]
