-- ===== src/Url/Parse/Reparse.antt =====
-- What the text of a parsed URL is taken apart into.
use httpx.Prelude.{
  ◌≡◌, refl, ap, sym, subst, ◌∙◌, Bool, true, false, not, ◌&&◌, ◌||◌, Option, none, some, [], ◌∷◌,
  if◌then◌else◌, ◌==◌, Str, arith, Bool-cases, inl, inr,
}
use httpx.Headers.{lower}
use httpx.Url.Path.{
  ℤ, is_empty, Error, absolute_path_without_slash, path_starts_with_slashes, path_starts_with_colon,
  starts_with, Result, ok, err, validate_path, normalize_path, normalize_port,
}
use httpx.Url.Path.Dots.{IsAbsolute, normalize_path-IsAbsolute}
use httpx.Url.Quote.{query_safe, path_safe, frag_safe, userinfo_safe, quote}
use httpx.Url.Split.{is_authority_char, is_path_char, is_query_char, match_url}
use httpx.Url.RoundTrip.{
  Holds, HoldsAll, IsScheme, FitsAuthority, authority_group, match_url-url_text,
}
use httpx.Url.Parse.{ParseResult, Kwargs, is_clean, are_valid}
use httpx.Url.Parse.Parts.{
  Names, Components, components, encode_host, prepare, assemble, normalize, urlparse, authority,
  netloc, str, quoted, is_some,
}
use httpx.Url.Parse.Quoted.{quote-IsAbsolute, path-Holds, query-Holds}

passed :
    {A : Type 0} (b : Bool) (x : Error) (r : Result A) (a : A)
    → (if b then err x else r) ≡ ok a
    → b ≡ false
passed true x r a h = cc
passed false x r a h = refl

-- A path that is allowed beside an authority is empty or starts with a slash.
allowed-IsAbsolute :
    (path : Str) (has_scheme : Bool) (u : Unit {0})
    → validate_path path has_scheme true ≡ ok u
    → IsAbsolute path
unfolding validate_path starts_with
allowed-IsAbsolute [] has_scheme u h = inl refl
allowed-IsAbsolute (c ∷ cs) has_scheme u h =
    let b =
      passed (not (47 == c && true)) absolute_path_without_slash
        (if not has_scheme && false
          then err path_starts_with_slashes
          else if not has_scheme && false
          then err path_starts_with_colon
          else ok tt)
        u h in
    let same : c ≡ 47 = ground arith in inr (cs, ap (λ x. x ∷ cs) same)

normalized-IsAbsolute : (path : Str) → IsAbsolute path → IsAbsolute (normalize_path path)
unfolding normalize_path
normalized-IsAbsolute path (inl e) = inl (ap normalize_path e)
normalized-IsAbsolute path (inr (rest, e)) =
    subst (λ t. IsAbsolute (normalize_path t)) (sym e) (normalize_path-IsAbsolute rest)

-- What is known of the parts of a URL that was put together.
abbrev IsSound : ParseResult → Type 0
IsSound r =
    Holds is_path_char r.path
    × HoldsAll is_query_char r.query
    × (is_empty (authority r) ≡ false → IsAbsolute r.path)

abbrev has_authority : Str → Str → Option ℤ → Bool
has_authority userinfo host port = not (is_empty userinfo) || (not (is_empty host) || is_some port)

authority-empty :
    (r : ParseResult) (userinfo host : Str) (port : Option ℤ)
    → has_authority userinfo host port ≡ false
    → is_empty (authority (record r { userinfo = userinfo; host = host; port = port })) ≡ true
unfolding authority netloc
authority-empty r [] [] none h = refl
authority-empty r [] [] (some p) h = cc
authority-empty r [] (c ∷ cs) p h = cc
authority-empty r (c ∷ cs) host p h = cc

-- The result of `assemble`.
abbrev made : Components → Str → Option ℤ → ParseResult
made c host port =
    let scheme = lower c.scheme in
    let userinfo = quote userinfo_safe c.userinfo in
    record {
      scheme = scheme;
      userinfo = userinfo;
      host = host;
      port = port;
      path = quote path_safe (
          if not (is_empty scheme) || has_authority userinfo host port
          then normalize_path c.path
          else c.path);
      query = quoted query_safe c.query;
      fragment = quoted frag_safe c.fragment;
    }

rooted :
    (path : Str) (hs ha : Bool) (u : Unit {0})
    → ha ≡ true
    → validate_path path hs ha ≡ ok u
    → IsAbsolute (quote path_safe (if hs || ha then normalize_path path else path))
rooted path hs false u a k = cc
rooted path true true u a k =
    quote-IsAbsolute (normalize_path path)
      (normalized-IsAbsolute path (allowed-IsAbsolute path true u k))
rooted path false true u a k =
    quote-IsAbsolute (normalize_path path)
      (normalized-IsAbsolute path (allowed-IsAbsolute path false u k))

made-IsSound :
    (c : Components) (host : Str) (port : Option ℤ) (u : Unit {0})
    → validate_path c.path
        (not (is_empty (lower c.scheme)))
        (has_authority (quote userinfo_safe c.userinfo) host port)
      ≡ ok u
    → IsSound (made c host port)
made-IsSound c host port u k =
    let userinfo = quote userinfo_safe c.userinfo in
    (
      path-Holds (
          if not (is_empty (lower c.scheme)) || has_authority userinfo host port
          then normalize_path c.path
          else c.path),
      query-Holds c.query,
      λ n. elim (Bool-cases (has_authority userinfo host port)) [
        | inl a ↦
            rooted c.path (not (is_empty (lower c.scheme))) (has_authority userinfo host port) u a k
        | inr a ↦ let e = authority-empty (made c host port) userinfo host port a in cc
      ],
    )

assemble-IsSound :
    (c : Components) (host : Str) (port : Option ℤ) (r : ParseResult)
    → assemble c host port ≡ some r
    → IsSound r
unfolding assemble
assemble-IsSound c host port r h =
    from
      (validate_path c.path (not (is_empty (lower c.scheme)))
        (has_authority (quote userinfo_safe c.userinfo) host port))
      refl h
  where
    from :
        (v : Result (Unit {0}))
        → validate_path c.path
            (not (is_empty (lower c.scheme)))
            (has_authority (quote userinfo_safe c.userinfo) host port)
          ≡ v
        → elim v [ err e ↦ none | ok u ↦ some (made c host port) ] ≡ some r
        → IsSound r
    from (err e) k h' = cc
    from (ok u) k h' =
        let same : made c host port ≡ r = cc in subst IsSound same (made-IsSound c host port u k)

normalize-IsSound :
    (names : Names) (c : Components) (r : ParseResult) → normalize names c ≡ some r → IsSound r
unfolding normalize
normalize-IsSound names c r h = from (encode_host names c.host) h
  where
    with_port :
        (host : Str) (p : Result (Option ℤ))
        → elim p [ err e ↦ none | ok port ↦ assemble c host port ] ≡ some r
        → IsSound r
    with_port host (err e) h' = cc
    with_port host (ok port) h' = assemble-IsSound c host port r h'

    from :
        (o : Option Str)
        → elim o [
          | none ↦ none
          | some host ↦ elim (normalize_port names.int c.port c.scheme) [
            | err e ↦ none
            | ok port ↦ assemble c host port
          ]
        ]
          ≡ some r
        → IsSound r
    from none h' = cc
    from (some host) h' = with_port host (normalize_port names.int c.port c.scheme) h'

fits : (a path : Str) → is_empty a ≡ false → IsAbsolute path → FitsAuthority a path
fits [] path n p = cc
fits (a ∷ as') [] n p = tt
fits (a ∷ as') (c ∷ cs) n (inl e) = cc
fits (a ∷ as') (c ∷ cs) n (inr (rest, e)) = cc

urlparse-IsSound :
    (names : Names) (url : Str) (kw : Kwargs) (r : ParseResult)
    → urlparse names url kw ≡ some r
    → IsSound r
unfolding urlparse
urlparse-IsSound names url kw r h = from (is_clean url && are_valid (prepare kw)) h
  where
    from :
        (b : Bool)
        → (if b then normalize names (components url (prepare kw)) else none) ≡ some r
        → IsSound r
    from true h' = normalize-IsSound names (components url (prepare kw)) r h'
    from false h' = cc

-- The text of a URL that `urlparse` returned, from whatever text and keyword arguments, is taken
-- apart again into its scheme, its authority, its path, its query and its fragment, if it has an
-- authority, and its scheme and its authority consist of characters of schemes and of authorities.
pub match_url-str :
    (names : Names) (url : Str) (kw : Kwargs) (r : ParseResult)
    → urlparse names url kw ≡ some r
    → IsScheme r.scheme
    → is_empty (authority r) ≡ false
    → Holds is_authority_char (authority r)
    → match_url (str r) ≡ record {
      scheme = some r.scheme;
      authority = some (authority r);
      path = r.path;
      query = r.query;
      fragment = r.fragment;
    }
unfolding str
match_url-str names url kw r h s n a =
    let (p, q, f) = urlparse-IsSound names url kw r h in
    match_url-url_text r.scheme (authority r) r.path r.query r.fragment s a p
      (fits (authority r) r.path n (f n)) q
    ∙ ap
        (λ o. record {
          scheme = some r.scheme;
          authority = o;
          path = r.path;
          query = r.query;
          fragment = r.fragment;
        })
        (group (authority r) n)
  where
    group : (t : Str) → is_empty t ≡ false → authority_group t ≡ some t
    group [] m = cc
    group (c ∷ cs) m = refl
