-- ===== src/Mounts/Environment.antt =====
-- `get_environment_proxies` in httpx2/httpx2/_utils.py. What `urllib` reads from the environment is
-- a list of names with values; `ipaddress` and the parsing of patterns are tests.
use httpx.Prelude.{
  Bool, not, ◌&&◌, ◌||◌, Option, none, some, List, [], ◌∷◌, ◌++◌, if◌then◌else◌, ◌==◌, Str, codes,
  str_eq,
}
use httpx.Headers.{lower}
use httpx.Mounts.{is_empty}
use httpx.Url.Path.{starts_with}

abbrev pub Proxies : Type 0
Proxies = List (Str × Option Str)

unfoldable pub lookup : Str → List (Str × Str) → Option Str
lookup k [] = none
lookup k ((j, v) ∷ kvs) = let rest = lookup k kvs in if str_eq j k then some v else rest

-- `needle in text`
unfoldable pub contains_text : Str → Str → Bool
unfolding starts_with
contains_text needle [] = starts_with needle []
contains_text needle (c ∷ cs) = starts_with needle (c ∷ cs) || contains_text needle cs

unfoldable pub with_scheme : Str → Str
unfolding contains_text
with_scheme hostname =
    if contains_text (codes "://") hostname then hostname else codes "http://" ++ hostname

-- The loop over the three schemes.
unfoldable pub scheme_proxies : List (Str × Str) → List Str → Proxies
unfolding lookup with_scheme
scheme_proxies info [] = []
scheme_proxies info (scheme ∷ schemes) =
    let rest = scheme_proxies info schemes in
    elim (lookup scheme info) [
      | none ↦ rest
      | some [] ↦ rest
      | some (c ∷ cs) ↦ (scheme ++ codes "://", some (with_scheme (c ∷ cs))) ∷ rest
    ]

-- hostname.partition("/")
unfoldable pub before_slash : Str → Str
before_slash [] = []
before_slash (c ∷ cs) = let rest = before_slash cs in if c == 47 then [] else c ∷ rest

unfoldable pub after_slash : Str → Str
after_slash [] = []
after_slash (c ∷ cs) = let rest = after_slash cs in if c == 47 then cs else rest

module _ (is_ipv4_hostname is_ipv6_hostname : Str → Bool) where
  -- The pattern for an entry of NO_PROXY, if it has one.
  unfoldable pub no_proxy_pattern : Str → Option Str
  unfolding contains_text starts_with before_slash after_slash lower
  no_proxy_pattern hostname =
      if contains_text (codes "://") hostname
      then some hostname
      else if is_ipv4_hostname hostname
      then some (codes "all://" ++ hostname)
      else if is_ipv6_hostname hostname
      then (if contains_text (codes "/") hostname
          then some (codes "all://[" ++ before_slash hostname ++ codes "]/" ++ after_slash hostname)
          else some (codes "all://[" ++ hostname ++ codes "]"))
      else if str_eq (lower hostname) (codes "localhost")
      then some (codes "all://" ++ hostname)
      else if starts_with (codes "[") hostname
      then some (codes "all://" ++ hostname)
      else if starts_with (codes "*.") hostname && not (contains_text (codes "/") hostname)
      then some (codes "all://" ++ hostname)
      else if not (contains_text (codes "/") hostname)
      then some (codes "all://*" ++ hostname)
      else none

  -- The loop over NO_PROXY; none is the early return at "*".
  unfoldable pub no_proxy_patterns : List Str → Option (List Str)
  unfolding no_proxy_pattern
  no_proxy_patterns [] = some []
  no_proxy_patterns (hostname ∷ hostnames) =
      let rest = no_proxy_patterns hostnames in
      if str_eq hostname (codes "*") then none else elim rest [
        | none ↦ none
        | some ps ↦
            if is_empty hostname
            then some ps
            else elim (no_proxy_pattern hostname) [ none ↦ some ps | some p ↦ some (p ∷ ps) ]
      ]

-- `mounts[pattern] = value`: a key that is there keeps its place.
unfoldable pub assign : Str → Option Str → Proxies → Proxies
assign k v [] = (k, v) ∷ []
assign k v ((j, u) ∷ ms) =
    let rest = assign k v ms in if str_eq j k then (j, v) ∷ ms else (j, u) ∷ rest

unfoldable pub assign_all : List Str → Proxies → Proxies
unfolding assign
assign_all [] ms = ms
assign_all (p ∷ ps) ms = assign_all ps (assign p none ms)

-- The patterns that cannot be parsed are left out.
unfoldable pub valid_only : (Str → Bool) → Proxies → Proxies
valid_only valid [] = []
valid_only valid ((k, v) ∷ ms) =
    let rest = valid_only valid ms in if valid k then (k, v) ∷ rest else rest

-- `no_proxy` is `no_proxy_hosts`: the variable split at commas, each part stripped.
unfoldable pub get_environment_proxies :
    (Str → Bool) → (Str → Bool) → (Str → Bool) → List (Str × Str) → List Str → Proxies
unfolding scheme_proxies no_proxy_patterns assign_all valid_only
get_environment_proxies is_ipv4 is_ipv6 valid info no_proxy =
    elim (no_proxy_patterns is_ipv4 is_ipv6 no_proxy) [
      | none ↦ []
      | some ps ↦
          valid_only valid
            (assign_all ps (scheme_proxies info (codes "http" ∷ codes "https" ∷ codes "all" ∷ [])))
    ]
