-- ===== src/Url/Parse/Quoted.antt =====
-- The characters of the quoted parts of a URL.
use httpx.Prelude.{
  ℕ, ◌≡◌, refl, ap, ◌∙◌, Bool, true, false, ◌&&◌, Option, none, some, [], ◌∷◌, ◌++◌, if◌then◌else◌,
  ◌==◌, Str, All, arith, inl, inr,
}
use httpx.Url.Path.{slash}
use httpx.Url.Path.Dots.{IsAbsolute}
use httpx.Url.Quote.{
  IsQuoted, is_unreserved, query_safe, path_safe, non_escaped, percent_encoded, encode_each, all_in,
  is_hex, quote_from, quote, quote-IsQuoted,
}
use httpx.Url.Split.{is_path_char, is_query_char}
use httpx.Url.RoundTrip.{Holds, HoldsAll}
use httpx.Url.Parse.Parts.{quoted}

abbrev StartsWithSlash : Str → Type 0
StartsWithSlash t = (rest : Str) × (t ≡ slash ∷ rest)

either :
    (b : Bool) (t u : Str)
    → StartsWithSlash t
    → StartsWithSlash u
    → StartsWithSlash (if b then t else u)
either true t u p q = p
either false t u p q = q

extended : (t u : Str) → StartsWithSlash t → StartsWithSlash (t ++ u)
extended t u (rest, e) = (rest ++ u, ap (λ x. x ++ u) e)

-- A slash at the start of a path stays there.
percent_encoded-slash : (s : Str) → StartsWithSlash (percent_encoded path_safe (slash ∷ s))
unfolding percent_encoded encode_each is_unreserved path_safe query_safe
percent_encoded-slash s =
    either (all_in (non_escaped path_safe) (slash ∷ s)) (slash ∷ s)
      (encode_each (non_escaped path_safe) (slash ∷ s)) (s, refl)
      (encode_each (non_escaped path_safe) s, refl)

quote_from-slash : (leading s : Str) → StartsWithSlash (quote_from path_safe (slash ∷ leading) s)
unfolding quote_from
quote_from-slash leading [] = percent_encoded-slash leading
quote_from-slash leading (c ∷ []) = percent_encoded-slash (leading ++ c ∷ [])
quote_from-slash leading (c ∷ d ∷ []) = percent_encoded-slash (leading ++ c ∷ d ∷ [])
quote_from-slash leading (c ∷ d ∷ e ∷ cs) =
    either (c == 37 && (is_hex d && is_hex e))
      (percent_encoded path_safe (slash ∷ leading) ++ c ∷ d ∷ e ∷ quote_from path_safe [] cs)
      (quote_from path_safe (slash ∷ (leading ++ c ∷ [])) (d ∷ e ∷ cs))
      (extended (percent_encoded path_safe (slash ∷ leading))
        (c ∷ d ∷ e ∷ quote_from path_safe [] cs) (percent_encoded-slash leading))
      (quote_from-slash (leading ++ c ∷ []) (d ∷ e ∷ cs))

quote-slash : (s : Str) → StartsWithSlash (quote path_safe (slash ∷ s))
unfolding quote quote_from
quote-slash [] = percent_encoded-slash []
quote-slash (d ∷ []) = percent_encoded-slash (d ∷ [])
quote-slash (d ∷ e ∷ cs) = quote_from-slash [] (d ∷ e ∷ cs)

pub quote-IsAbsolute : (s : Str) → IsAbsolute s → IsAbsolute (quote path_safe s)
unfolding quote quote_from percent_encoded
quote-IsAbsolute s (inl e) = inl (ap (λ t. quote path_safe t) e)
quote-IsAbsolute s (inr (rest, e)) =
    let (more, h) = quote-slash rest in inr (more, ap (λ t. quote path_safe t) e ∙ h)

path-character : (c : ℕ) → IsQuoted path_safe c → is_path_char c ≡ true
unfolding is_path_char path_safe query_safe is_unreserved
path-character c h = ground arith

query-character : (c : ℕ) → IsQuoted query_safe c → is_query_char c ≡ true
unfolding is_query_char query_safe is_unreserved
query-character c h = ground arith

Holds-All :
    (p : ℕ → Bool) (P : ℕ → Type 0) (s : Str) → ((c : ℕ) → P c → p c ≡ true) → All P s → Holds p s
Holds-All p P [] f a = tt
Holds-All p P (c ∷ cs) f a = (f c a.0, Holds-All p P cs f a.1)

pub path-Holds : (s : Str) → Holds is_path_char (quote path_safe s)
path-Holds s =
    Holds-All is_path_char (IsQuoted path_safe) (quote path_safe s) path-character
      (quote-IsQuoted path_safe s)

pub query-Holds : (q : Option Str) → HoldsAll is_query_char (quoted query_safe q)
query-Holds none = tt
query-Holds (some s) =
    Holds-All is_query_char (IsQuoted query_safe) (quote query_safe s) query-character
      (quote-IsQuoted query_safe s)
