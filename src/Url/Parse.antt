-- ===== src/Url/Parse.antt =====
-- `urlparse` and `ParseResult` of httpx2/httpx2/_urlparse.py. Python's `int` and `ipaddress`, and the
-- package `idna`, are parameters; a port that is given as a number is given by its text. An
-- InvalidURL is none.
pub mod Parts
pub mod Quoted
pub mod Reparse
use httpx.Prelude.{
  ℕ, zero, suc, ◌+◌, ◌/◌, ◌%◌, Bool, true, false, not, ◌&&◌, ◌||◌, Option, none, some, List, [],
  ◌∷◌, ◌++◌, if◌then◌else◌, ◌==◌, ltb, leb, Str, codes, str_eq, length, any,
}
use httpx.Headers.{lower}
use httpx.Url.Path.{
  ℤ, pos, negsuc, starts_with, is_empty, Result, ok, err, validate_path, normalize_path,
  normalize_port,
}
use httpx.Url.Quote.{
  quote, username_safe, password_safe, userinfo_safe, path_safe, query_safe, frag_safe,
}
use httpx.Url.Split.{
  is_letter, is_scheme_char, is_authority_char, is_path_char, is_query_char, match_url,
  match_authority_parts, split_last, url_text,
}

pub record ParseResult : Type 0 where
  pub scheme : Str
  pub userinfo : Str
  pub host : Str
  pub port : Option ℤ
  pub path : Str
  pub query : Option Str
  pub fragment : Option Str

-- The keyword arguments, each a text or None.
pub data Key : Type 0 where
  scheme_key authority_key path_key query_key fragment_key userinfo_key host_key port_key netloc_key
        username_key password_key raw_path_key :
      Key

abbrev number : Key → ℕ
number scheme_key = 0
number authority_key = 1
number path_key = 2
number query_key = 3
number fragment_key = 4
number userinfo_key = 5
number host_key = 6
number port_key = 7
number netloc_key = 8
number username_key = 9
number password_key = 10
number raw_path_key = 11

abbrev same_key : Key → Key → Bool
same_key k j = number k == number j

abbrev pub Kwargs : Type 0
Kwargs = List (Key × Option Str)

unfoldable pub get : Key → Kwargs → Option (Option Str)
get k [] = none
get k ((j, v) ∷ kw) = let rest = get k kw in if same_key j k then some v else rest

unfoldable pub pop : Key → Kwargs → Kwargs
pop k [] = []
pop k ((j, v) ∷ kw) = let rest = pop k kw in if same_key j k then rest else (j, v) ∷ rest

unfoldable pub assign : Key → Option Str → Kwargs → Kwargs
assign k v [] = (k, v) ∷ []
assign k v ((j, u) ∷ kw) =
    let rest = assign k v kw in if same_key j k then (j, v) ∷ kw else (j, u) ∷ rest

-- `value or ""`
abbrev or_empty : Option Str → Str
or_empty none = []
or_empty (some s) = s

-- `kwargs.get(key, default)`
abbrev or_default : Option (Option Str) → Option Str → Option Str
or_default none d = d
or_default (some v) d = v

abbrev is_given : Option (Option Str) → Bool
is_given none = false
is_given (some v) = true

-- s.partition(separator)
unfoldable pub partition : ℕ → Str → Str × Bool × Str
partition sep [] = ([], false, [])
partition sep (c ∷ cs) =
    let (before, found, after) = partition sep cs in
    if c == sep then ([], true, cs) else (c ∷ before, found, after)

-- Replace "netloc" with "host" and "port".
unfoldable pub replace_netloc : Kwargs → Kwargs
unfolding get pop assign partition
replace_netloc kw = elim (get netloc_key kw) [
  | none ↦ kw
  | some v ↦
      let (host, found, port) = partition 58 (or_empty v) in
      assign port_key (some port) (assign host_key (some host) (pop netloc_key kw))
]

abbrev user_text : Str → Str → Str
user_text username [] = username
user_text username (c ∷ cs) = username ++ 58 ∷ c ∷ cs

-- Replace "username" and "password" with "userinfo".
unfoldable pub replace_user : Kwargs → Kwargs
unfolding get pop assign quote
replace_user kw =
    if is_given (get username_key kw) || is_given (get password_key kw)
    then assign userinfo_key
        (some (
          user_text (quote username_safe (or_empty (or_default (get username_key kw) (some []))))
            (quote password_safe (or_empty (or_default (get password_key kw) (some []))))))
        (pop password_key (pop username_key kw))
    else kw

-- Replace "raw_path" with "path" and "query".
unfoldable pub replace_raw_path : Kwargs → Kwargs
unfolding get pop assign partition
replace_raw_path kw = elim (get raw_path_key kw) [
  | none ↦ kw
  | some v ↦
      let (path, found, query) = partition 63 (or_empty v) in
      assign query_key (if found then some query else none)
        (assign path_key (some path) (pop raw_path_key kw))
]

-- The text between brackets, if the whole is bracketed.
unfoldable pub bracketed : Str → Option Str
unfolding split_last
bracketed [] = none
bracketed (c ∷ cs) =
    if c == 91
    then elim (split_last (λ d. d == 93) cs) [
      | none ↦ none
      | some (inside, []) ↦ some inside
      | some (inside, d ∷ ds) ↦ none
    ]
    else none

-- host.startswith("[") and host.endswith("]")
abbrev in_brackets : Str → Bool
in_brackets [] = false
in_brackets (c ∷ cs) = c == 91 && (elim (split_last (λ d. d == 93) (c ∷ cs)) [
  | none ↦ false
  | some (a, []) ↦ true
  | some (a, d ∷ ds) ↦ false
])

-- IPv6 hosts are always in brackets.
unfoldable pub escape_host : Kwargs → Kwargs
unfolding get assign split_last
escape_host kw = elim (get host_key kw) [
  | none ↦ kw
  | some v ↦
      if any (λ c. c == 58) (or_empty v) && not (in_brackets (or_empty v))
      then assign host_key (some (91 ∷ or_empty v ++ 93 ∷ [])) kw
      else kw
]

-- char.isascii() and not char.isprintable()
abbrev is_control : ℕ → Bool
is_control c = ltb c 0x20 || c == 0x7f

unfoldable pub is_clean : Str → Bool
is_clean s = leb (length s) 65536 && not (any is_control s)

abbrev all_in : (ℕ → Bool) → Str → Bool
all_in p [] = true
all_in p (c ∷ cs) = p c && all_in p cs

abbrev is_scheme : Str → Bool
is_scheme [] = true
is_scheme (c ∷ cs) = is_letter c && all_in is_scheme_char cs

-- COMPONENT_REGEX[key].fullmatch(value), for values without control characters
unfoldable pub component_matches : Key → Str → Bool
unfolding is_letter is_scheme_char is_authority_char is_path_char is_query_char bracketed
component_matches scheme_key s = is_scheme s
component_matches authority_key s = all_in is_authority_char s
component_matches path_key s = all_in is_path_char s
component_matches query_key s = all_in is_query_char s
component_matches fragment_key s = true
component_matches userinfo_key s = all_in (λ c. not (c == 64)) s
component_matches host_key s =
    (elim (bracketed s) [ some inside ↦ true | none ↦ false ]) || all_in (λ c. not (c == 58)) s
component_matches port_key s = true
component_matches netloc_key s = true
component_matches username_key s = true
component_matches password_key s = true
component_matches raw_path_key s = true

-- The loop over the keyword arguments.
unfoldable pub are_valid : Kwargs → Bool
unfolding is_clean component_matches
are_valid [] = true
are_valid ((k, none) ∷ kw) = are_valid kw
are_valid ((k, some v) ∷ kw) = (is_clean v && component_matches k v) && are_valid kw
