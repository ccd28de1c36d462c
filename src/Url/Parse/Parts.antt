-- ===== src/Url/Parse/Parts.antt =====
-- How `urlparse` puts the normalised parts together, and what `ParseResult` makes of them.
use httpx.Prelude.{
  ℕ, zero, suc, ◌+◌, ◌/◌, ◌%◌, Bool, true, false, not, ◌&&◌, ◌||◌, Option, none, some, List, [],
  ◌∷◌, ◌++◌, if◌then◌else◌, ◌==◌, ltb, leb, Str, codes, any,
}
use httpx.Headers.{lower}
use httpx.Url.Path.{
  ℤ, pos, negsuc, is_empty, ok, err, validate_path, normalize_path, normalize_port,
}
use httpx.Url.Quote.{quote, userinfo_safe, path_safe, query_safe, frag_safe}
use httpx.Url.Split.{match_url, match_authority_parts, url_text}
use httpx.Url.Parse.{
  ParseResult, scheme_key, authority_key, path_key, query_key, fragment_key, userinfo_key, host_key,
  port_key, Kwargs, get, assign, replace_netloc, replace_user, replace_raw_path, escape_host,
  bracketed, is_clean, are_valid,
}

-- What is used of Python and of `idna`: the number in a text, the tests of addresses, and the
-- encoding of a host that is not ASCII.
pub record Names : Type 0 where
  pub int : Str → Option ℤ
  pub is_ipv4_address : Str → Bool
  pub is_ipv6_address : Str → Bool
  pub idna_encode : Str → Option Str

abbrev is_digit : ℕ → Bool
is_digit c = leb 48 c && leb c 57

abbrev all_in : (ℕ → Bool) → Str → Bool
all_in p [] = true
all_in p (c ∷ cs) = p c && all_in p cs

abbrev cons_first : ℕ → List Str → List Str
cons_first c [] = (c ∷ []) ∷ []
cons_first c (x ∷ xs) = (c ∷ x) ∷ xs

unfoldable pub at_dots : Str → List Str
at_dots [] = [] ∷ []
at_dots (c ∷ cs) = let rest = at_dots cs in if c == 46 then [] ∷ rest else cons_first c rest

abbrev is_number : Str → Bool
is_number s = not (is_empty s) && all_in is_digit s

abbrev four_numbers : List Str → Bool
four_numbers (a ∷ b ∷ c ∷ d ∷ []) = is_number a && (is_number b && (is_number c && is_number d))
four_numbers [] = false
four_numbers (a ∷ []) = false
four_numbers (a ∷ b ∷ []) = false
four_numbers (a ∷ b ∷ c ∷ []) = false
four_numbers (a ∷ b ∷ c ∷ d ∷ e ∷ fs) = false

-- IPv4_STYLE_HOSTNAME
unfoldable pub is_ipv4_style : Str → Bool
unfolding at_dots
is_ipv4_style s = four_numbers (at_dots s)

-- SUB_DELIMS and WHATWG_SAFE
unfoldable pub host_safe : ℕ → Bool
host_safe c = any (λ d. c == d) (codes "!$&'()*+,;=`{}%|" ++ 34 ∷ 92 ∷ [])

unfoldable pub encode_host : Names → Str → Option Str
unfolding is_ipv4_style bracketed quote host_safe lower
encode_host names host =
    if is_empty host
    then some []
    else if is_ipv4_style host
    then (if names.is_ipv4_address host then some host else none)
    else elim (bracketed host) [
      | some inside ↦ if names.is_ipv6_address inside then some inside else none
      | none ↦
          if all_in (λ c. ltb c 0x80) host
          then some (quote host_safe (lower host))
          else names.idna_encode host
    ]

abbrev or_empty : Option Str → Str
or_empty none = []
or_empty (some s) = s

abbrev or_default : Option (Option Str) → Option Str → Option Str
or_default none d = d
or_default (some v) d = v

abbrev pub is_some : Option ℤ → Bool
is_some none = false
is_some (some p) = true

abbrev pub quoted : (ℕ → Bool) → Option Str → Option Str
quoted safe none = none
quoted safe (some s) = some (quote safe s)

-- The components before they are normalised.
pub record Components : Type 0 where
  pub scheme : Str
  pub userinfo : Str
  pub host : Str
  pub port : Option Str
  pub path : Str
  pub query : Option Str
  pub fragment : Option Str

-- The regular expressions on the URL and on its authority, each part replaced by its keyword.
unfoldable pub components : Str → Kwargs → Components
unfolding get match_url match_authority_parts
components url kw =
    let d = match_url url in
    let a = match_authority_parts (or_empty (or_default (get authority_key kw) d.authority)) in
    record {
      scheme = or_empty (or_default (get scheme_key kw) d.scheme);
      userinfo = or_empty (or_default (get userinfo_key kw) a.userinfo);
      host = or_empty (or_default (get host_key kw) (some a.host));
      port = or_default (get port_key kw) (some a.port);
      path = or_empty (or_default (get path_key kw) (some d.path));
      query = or_default (get query_key kw) d.query;
      fragment = or_default (get fragment_key kw) d.fragment;
    }

-- The validation of the path and the result, from the parts that can be refused.
unfoldable pub assemble : Components → Str → Option ℤ → Option ParseResult
unfolding quote normalize_path validate_path lower
assemble c host port =
    let scheme = lower c.scheme in
    let userinfo = quote userinfo_safe c.userinfo in
    let has_scheme = not (is_empty scheme) in
    let has_authority = not (is_empty userinfo) || (not (is_empty host) || is_some port) in
    elim (validate_path c.path has_scheme has_authority) [
      | err e ↦ none
      | ok u ↦ some (record {
        scheme = scheme;
        userinfo = userinfo;
        host = host;
        port = port;
        path =
            quote path_safe (if has_scheme || has_authority then normalize_path c.path else c.path);
        query = quoted query_safe c.query;
        fragment = quoted frag_safe c.fragment;
      })
    ]

unfoldable pub normalize : Names → Components → Option ParseResult
unfolding encode_host normalize_port assemble
normalize names c = elim (encode_host names c.host) [
  | none ↦ none
  | some host ↦ elim (normalize_port names.int c.port c.scheme) [
    | err e ↦ none
    | ok port ↦ assemble c host port
  ]
]

-- The keyword arguments that stand for others are replaced.
unfoldable pub prepare : Kwargs → Kwargs
unfolding replace_netloc replace_user replace_raw_path escape_host
prepare kw = escape_host (replace_raw_path (replace_user (replace_netloc kw)))

unfoldable pub urlparse : Names → Str → Kwargs → Option ParseResult
unfolding is_clean are_valid prepare components normalize
urlparse names url kw =
    if is_clean url && are_valid (prepare kw)
    then normalize names (components url (prepare kw))
    else none

-- str(port)
unfoldable pub decimal : ℕ → ℕ → Str
decimal zero n = []
decimal (suc fuel) n = elim (ltb n 10) [
  | true ↦ (48 + n) ∷ []
  | false ↦ decimal fuel (n / 10) ++ (48 + n % 10) ∷ []
]

abbrev port_text : Option ℤ → Str
unfolding decimal
port_text none = []
port_text (some (pos p)) = 58 ∷ decimal (p + 1) p
port_text (some (negsuc p)) = 58 ∷ 45 ∷ decimal (p + 2) (p + 1)

abbrev host_text : Str → Str
host_text host = if any (λ c. c == 58) host then 91 ∷ host ++ 93 ∷ [] else host

abbrev userinfo_text : Str → Str
userinfo_text [] = []
userinfo_text (c ∷ cs) = (c ∷ cs) ++ 64 ∷ []

-- `ParseResult.netloc`
unfoldable pub netloc : ParseResult → Str
unfolding decimal
netloc r = host_text r.host ++ port_text r.port

-- `ParseResult.authority`
unfoldable pub authority : ParseResult → Str
unfolding netloc
authority r = userinfo_text r.userinfo ++ netloc r

-- `ParseResult.__str__`
unfoldable pub str : ParseResult → Str
unfolding authority url_text
str r = url_text r.scheme (authority r) r.path r.query r.fragment

-- defaults.update(kwargs)
unfoldable pub update_all : Kwargs → Kwargs → Kwargs
unfolding assign
update_all [] d = d
update_all ((k, v) ∷ kw) d = update_all kw (assign k v d)

-- `ParseResult.copy_with`
unfoldable pub copy_with : Names → ParseResult → Kwargs → Option ParseResult
unfolding urlparse update_all authority
copy_with names r [] = some r
copy_with names r (kv ∷ kw) = urlparse names [] (
    update_all (kv ∷ kw) (
      (scheme_key, some r.scheme)
      ∷ (authority_key, some (authority r))
      ∷ (path_key, some r.path)
      ∷ (query_key, r.query)
      ∷ (fragment_key, r.fragment)
      ∷ []))
