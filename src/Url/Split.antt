-- ===== src/Url/Split.antt =====
-- The regular expressions of httpx2/httpx2/_urlparse.py that take a URL and an authority apart, and
-- the text of a parsed URL.
use httpx.Prelude.{
  ℕ, Bool, not, ◌&&◌, ◌||◌, Option, none, some, [], ◌∷◌, ◌++◌, if◌then◌else◌, ◌==◌, leb, Str,
}

-- The longest run of characters that pass a test, and the rest.
unfoldable pub span : (ℕ → Bool) → Str → Str × Str
span p [] = ([], [])
span p (c ∷ cs) = let (run, rest) = span p cs in if p c then (c ∷ run, rest) else ([], c ∷ cs)

unfoldable pub is_letter : ℕ → Bool
is_letter c = (leb 65 c && leb c 90) || (leb 97 c && leb c 122)

unfoldable pub is_scheme_char : ℕ → Bool
unfolding is_letter
is_scheme_char c = is_letter c || ((leb 48 c && leb c 57) || (c == 43 || (c == 45 || c == 46)))

unfoldable pub is_authority_char : ℕ → Bool
is_authority_char c = not (c == 47 || (c == 63 || c == 35))

unfoldable pub is_path_char : ℕ → Bool
is_path_char c = not (c == 63 || c == 35)

unfoldable pub is_query_char : ℕ → Bool
is_query_char c = not (c == 35)

-- The groups of URL_REGEX.
pub record UrlDict : Type 0 where
  pub scheme : Option Str
  pub authority : Option Str
  pub path : Str
  pub query : Option Str
  pub fragment : Option Str

-- The scheme before its colon, if there is one; an empty one counts.
unfoldable pub scheme_run : Str → Str × Str
unfolding is_letter
scheme_run [] = ([], [])
scheme_run (c ∷ cs) = if is_letter c then span is_scheme_char (c ∷ cs) else ([], c ∷ cs)

abbrev pub after_colon : Str → Str × Str → Option Str × Str
after_colon url (run, []) = (none, url)
after_colon url (run, c ∷ rest) = if c == 58 then (some run, rest) else (none, url)

unfoldable pub match_scheme : Str → Option Str × Str
match_scheme url = after_colon url (scheme_run url)

unfoldable pub match_authority : Str → Option Str × Str
unfolding span is_authority_char
match_authority [] = (none, [])
match_authority (c ∷ []) = (none, c ∷ [])
match_authority (c ∷ d ∷ cs) =
    let (run, rest) = span is_authority_char cs in
    if c == 47 && d == 47 then (some run, rest) else (none, c ∷ d ∷ cs)

unfoldable pub match_query : Str → Option Str × Str
unfolding span is_query_char
match_query [] = (none, [])
match_query (c ∷ cs) =
    let (run, rest) = span is_query_char cs in if c == 63 then (some run, rest) else (none, c ∷ cs)

unfoldable pub match_fragment : Str → Option Str
match_fragment [] = none
match_fragment (c ∷ cs) = if c == 35 then some cs else none

-- URL_REGEX.match
unfoldable pub match_url : Str → UrlDict
unfolding match_scheme match_authority span is_path_char match_query match_fragment
match_url url =
    let (scheme, after_scheme) = match_scheme url in
    let (authority, after_authority) = match_authority after_scheme in
    let (path, after_path) = span is_path_char after_authority in
    let (query, after_query) = match_query after_path in
    record {
      scheme = scheme;
      authority = authority;
      path = path;
      query = query;
      fragment = match_fragment after_query;
    }

-- The last character that passes a test divides the text; none if none does.
unfoldable pub split_last : (ℕ → Bool) → Str → Option (Str × Str)
split_last p [] = none
split_last p (c ∷ cs) =
    let rest = split_last p cs in
    elim rest [ some (a, b) ↦ some (c ∷ a, b) | none ↦ if p c then some ([], cs) else none ]

pub record AuthorityDict : Type 0 where
  pub userinfo : Option Str
  pub host : Str
  pub port : Str

-- A bracketed host up to the last bracket, or what is before a colon or an at sign.
unfoldable pub match_host : Str → Str × Str
unfolding split_last span
match_host [] = ([], [])
match_host (c ∷ cs) =
    let plain = span (λ d. not (d == 58 || d == 64)) (c ∷ cs) in
    if c == 91
    then elim (split_last (λ d. d == 93) cs) [
      | some (inside, rest) ↦ (91 ∷ inside ++ 93 ∷ [], rest)
      | none ↦ plain
    ]
    else plain

abbrev drop_colon : Str → Str
drop_colon [] = []
drop_colon (c ∷ cs) = if c == 58 then cs else c ∷ cs

unfoldable pub host_and_port : Option Str → Str → AuthorityDict
unfolding match_host
host_and_port userinfo s =
    let (host, rest) = match_host s in
    record { userinfo = userinfo; host = host; port = drop_colon rest }

-- AUTHORITY_REGEX.match: what is before the last at sign is the user.
unfoldable pub match_authority_parts : Str → AuthorityDict
unfolding host_and_port split_last
match_authority_parts s = elim (split_last (λ c. c == 64) s) [
  | some (userinfo, rest) ↦ host_and_port (some userinfo) rest
  | none ↦ host_and_port none s
]

abbrev pub prefixed : Str → Option Str → Str
prefixed mark none = []
prefixed mark (some s) = mark ++ s

abbrev pub scheme_text : Str → Str
scheme_text [] = []
scheme_text (c ∷ cs) = (c ∷ cs) ++ 58 ∷ []

abbrev pub authority_text : Str → Str
authority_text [] = []
authority_text (c ∷ cs) = 47 ∷ 47 ∷ c ∷ cs

-- `ParseResult.__str__` on the parts of the URL
unfoldable pub url_text : Str → Str → Str → Option Str → Option Str → Str
url_text scheme authority path query fragment =
    scheme_text scheme
    ++ (authority_text authority
        ++ (path ++ (prefixed (63 ∷ []) query ++ prefixed (35 ∷ []) fragment)))
