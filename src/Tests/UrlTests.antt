-- ===== src/Tests/UrlTests.antt =====
-- The path functions and percent-encoding of URLs at concrete inputs.
use httpx.Prelude.{◌≡◌, refl, codes, All, str_eq}
use httpx.Url.Path.{split, normalize_path}
use httpx.Url.Quote.{IsQuoted, path_safe, quote, quote-IsQuoted}
use httpx.Url.Path.Dots.{IsPlain, normalize_path-IsPlain, normalize_path_idem}

doc_example : normalize_path (codes "/path/./to/somewhere/..") ≡ codes "/path/to"
unfolding normalize_path str_eq
doc_example = refl

normalize_path-IsPlain_example : All IsPlain (split (normalize_path (codes "/a/./b/../c")))
normalize_path-IsPlain_example = normalize_path-IsPlain (codes "/a/./b/../c")

normalize_path_idem_example :
    normalize_path (normalize_path (codes "/a/./b/../c")) ≡ normalize_path (codes "/a/./b/../c")
normalize_path_idem_example = normalize_path_idem (codes "/a/./b/../c")

quote-IsQuoted_example : All (IsQuoted path_safe) (quote path_safe (codes "/a b%20%2"))
quote-IsQuoted_example = quote-IsQuoted path_safe (codes "/a b%20%2")

quoted : quote path_safe (codes "/a b%20") ≡ codes "/a%20b%20"
unfolding quote path_safe
quoted = refl
