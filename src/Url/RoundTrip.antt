-- ===== src/Url/RoundTrip.antt =====
-- The text of a URL and the parts that the regular expression finds in it.
use httpx.Prelude.{
  ℕ, ◌≡◌, refl, ap, ◌∙◌, Bool, true, false, Option, none, some, [], ◌∷◌, ◌++◌, Str, codes, arith,
  append_assoc,
}
use httpx.Url.Path.{starts_with}
use httpx.Url.Split.{
  span, is_letter, is_scheme_char, is_authority_char, is_path_char, is_query_char, scheme_run,
  match_scheme, match_authority, match_query, match_fragment, match_url, url_text, prefixed,
  scheme_text, authority_text, after_colon,
}

-- All characters of a part pass the test for it.
abbrev pub Holds : (ℕ → Bool) → Str → Type 0
Holds p [] = Unit
Holds p (c ∷ cs) = (p c ≡ true) × Holds p cs

-- The text is empty or starts with a character that fails the test.
abbrev Stops : (ℕ → Bool) → Str → Type 0
Stops p [] = Unit
Stops p (c ∷ cs) = p c ≡ false

span-append :
    (p : ℕ → Bool) (s rest : Str) → Holds p s → Stops p rest → span p (s ++ rest) ≡ (s, rest)
unfolding span
span-append p [] [] h t = refl
span-append p [] (c ∷ cs) h t = rw t refl
span-append p (c ∷ s) rest h t = rw (h.0, span-append p s rest h.1 t) refl

-- A scheme is not empty, starts with a letter and has only the characters of schemes.
abbrev pub IsScheme : Str → Type 0
IsScheme [] = ⊥
IsScheme (c ∷ cs) = (is_letter c ≡ true) × Holds is_scheme_char (c ∷ cs)

abbrev pub HoldsAll : (ℕ → Bool) → Option Str → Type 0
HoldsAll p none = Unit
HoldsAll p (some s) = Holds p s

-- A path does not start with a second pair of slashes, nor, after an authority, without a slash.
abbrev pub FitsAuthority : Str → Str → Type 0
FitsAuthority [] path = starts_with (codes "//") path ≡ false
FitsAuthority (a ∷ as') [] = Unit
FitsAuthority (a ∷ as') (c ∷ cs) = c ≡ 47

abbrev pub authority_group : Str → Option Str
authority_group [] = none
authority_group (a ∷ as') = some (a ∷ as')

module _ (query fragment : Option Str) where
  -- What follows the path.
  abbrev tail : Str
  tail = prefixed (63 ∷ []) query ++ prefixed (35 ∷ []) fragment

tail-Stops : (p : ℕ → Bool) (q f : Option Str) → p 63 ≡ false → p 35 ≡ false → Stops p (tail q f)
tail-Stops p none none h k = tt
tail-Stops p none (some f) h k = k
tail-Stops p (some q) f h k = h

fragment-Stops : (p : ℕ → Bool) (f : Option Str) → p 35 ≡ false → Stops p (prefixed (35 ∷ []) f)
fragment-Stops p none k = tt
fragment-Stops p (some f) k = k

match_fragment-prefixed : (f : Option Str) → match_fragment (prefixed (35 ∷ []) f) ≡ f
unfolding match_fragment
match_fragment-prefixed none = refl
match_fragment-prefixed (some f) = refl

match_query-tail :
    (q f : Option Str)
    → HoldsAll is_query_char q
    → match_query (tail q f) ≡ (q, prefixed (35 ∷ []) f)
unfolding match_query is_query_char
match_query-tail none none h = refl
match_query-tail none (some f) h = refl
match_query-tail (some q) f h =
    rw (span-append is_query_char q (prefixed (35 ∷ []) f) h (fragment-Stops is_query_char f refl))
      refl

match_authority-absent :
    (s : Str) → starts_with (codes "//") s ≡ false → match_authority s ≡ (none, s)
unfolding match_authority starts_with
match_authority-absent [] h = refl
match_authority-absent (c ∷ []) h = refl
match_authority-absent (c ∷ d ∷ cs) h = ground arith

no_slashes :
    (path : Str) (q f : Option Str)
    → starts_with (codes "//") path ≡ false
    → starts_with (codes "//") (path ++ tail q f) ≡ false
unfolding starts_with
no_slashes [] none none h = refl
no_slashes [] none (some f) h = refl
no_slashes [] (some q) f h = refl
no_slashes (c ∷ []) none none h = h
no_slashes (c ∷ []) none (some f) h = ground arith
no_slashes (c ∷ []) (some q) f h = ground arith
no_slashes (c ∷ d ∷ cs) q f h = h

path-Stops :
    (a : ℕ) (as' path : Str) (q f : Option Str)
    → FitsAuthority (a ∷ as') path
    → Stops is_authority_char (path ++ tail q f)
unfolding is_authority_char
path-Stops a as' [] q f h = tail-Stops is_authority_char q f refl refl
path-Stops a as' (c ∷ cs) q f h = rw h refl

match_authority-text :
    (a path : Str) (q f : Option Str)
    → Holds is_authority_char a
    → FitsAuthority a path
    → match_authority (authority_text a ++ (path ++ tail q f))
      ≡ (authority_group a, path ++ tail q f)
unfolding match_authority
match_authority-text [] path q f h w =
    match_authority-absent (path ++ tail q f) (no_slashes path q f w)
match_authority-text (a ∷ as') path q f h w =
    rw (span-append is_authority_char (a ∷ as') (path ++ tail q f) h (path-Stops a as' path q f w))
      refl

is_scheme_colon : is_scheme_char 58 ≡ false
unfolding is_scheme_char
is_scheme_colon = refl

scheme_run-letter :
    (c : ℕ) (cs : Str) → is_letter c ≡ true → scheme_run (c ∷ cs) ≡ span is_scheme_char (c ∷ cs)
unfolding scheme_run
scheme_run-letter c cs h = rw h refl

match_scheme-text :
    (s rest : Str) → IsScheme s → match_scheme (scheme_text s ++ rest) ≡ (some s, rest)
unfolding match_scheme
match_scheme-text [] rest h = absurd h
match_scheme-text (c ∷ cs) rest h =
    let text = (c ∷ cs) ++ 58 ∷ rest in
    let run =
      scheme_run-letter c (cs ++ 58 ∷ rest) h.0
      ∙ span-append is_scheme_char (c ∷ cs) (58 ∷ rest) h.1 is_scheme_colon in
    ap match_scheme (append_assoc (c ∷ cs) (58 ∷ []) rest) ∙ ap (after_colon text) run

-- The text of an absolute URL whose parts are valid is taken apart into the same parts: what the
-- printing joins, the regular expression finds, also the difference between no query or fragment
-- and an empty one.
pub match_url-url_text :
    (scheme authority path : Str) (query fragment : Option Str)
    → IsScheme scheme
    → Holds is_authority_char authority
    → Holds is_path_char path
    → FitsAuthority authority path
    → HoldsAll is_query_char query
    → match_url (url_text scheme authority path query fragment) ≡ record {
      scheme = some scheme;
      authority = authority_group authority;
      path = path;
      query = query;
      fragment = fragment;
    }
unfolding match_url url_text is_path_char
match_url-url_text s a path q f hs ha hp w hq =
    rw
      (
        match_scheme-text s (authority_text a ++ (path ++ tail q f)) hs,
        match_authority-text a path q f ha w,
        span-append is_path_char path (tail q f) hp (tail-Stops is_path_char q f refl refl),
        match_query-tail q f hq,
        match_fragment-prefixed f,
      )
      refl
