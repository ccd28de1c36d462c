-- ===== src/Url/Quote.antt =====
-- Percent-encoding in httpx2/httpx2/_urlparse.py. A set of safe characters is a test.
use httpx.Prelude.{
  ℕ, ◌+◌, ◌/◌, ◌%◌, ◌<◌, ◌≡◌, refl, Bool, true, not, ◌&&◌, ◌||◌, List, [], ◌∷◌, ◌++◌, if◌then◌else◌,
  ◌==◌, ltb, leb, Str, All, arith, Bool-cases, inl, inr, has,
}

-- UNRESERVED_CHARACTERS
unfoldable pub is_unreserved : ℕ → Bool
is_unreserved c =
    (leb 65 c && leb c 90)
    || ((leb 97 c && leb c 122)
        || ((leb 48 c && leb c 57) || (c == 45 || (c == 46 || (c == 95 || c == 126)))))

abbrev is_printable : ℕ → Bool
is_printable c = leb 0x20 c && ltb c 0x7f

unfoldable pub query_safe : ℕ → Bool
query_safe c = is_printable c && not (has c (0x20 ∷ 0x22 ∷ 0x23 ∷ 0x3c ∷ 0x3e ∷ []))

unfoldable pub path_safe : ℕ → Bool
unfolding query_safe
path_safe c = query_safe c && not (has c (0x3f ∷ 0x60 ∷ 0x7b ∷ 0x7d ∷ []))

unfoldable pub username_safe : ℕ → Bool
unfolding path_safe
username_safe c =
    path_safe c
    && not (has c (0x2f ∷ 0x3a ∷ 0x3b ∷ 0x3d ∷ 0x40 ∷ 0x5b ∷ 0x5c ∷ 0x5d ∷ 0x5e ∷ 0x7c ∷ []))

unfoldable pub password_safe : ℕ → Bool
unfolding username_safe
password_safe c = username_safe c

-- The same set with the colon.
unfoldable pub userinfo_safe : ℕ → Bool
unfolding path_safe
userinfo_safe c =
    path_safe c && not (has c (0x2f ∷ 0x3b ∷ 0x3d ∷ 0x40 ∷ 0x5b ∷ 0x5c ∷ 0x5d ∷ 0x5e ∷ 0x7c ∷ []))

unfoldable pub frag_safe : ℕ → Bool
frag_safe c = is_printable c && not (has c (0x20 ∷ 0x22 ∷ 0x3c ∷ 0x3e ∷ 0x60 ∷ []))

-- char.encode("utf-8")
unfoldable pub encode : ℕ → List ℕ
encode c =
    if ltb c 0x80
    then c ∷ []
    else if ltb c 0x800
    then (0xc0 + c / 64) ∷ (0x80 + c % 64) ∷ []
    else if ltb c 0x10000
    then (0xe0 + c / 4096) ∷ (0x80 + c / 64 % 64) ∷ (0x80 + c % 64) ∷ []
    else (0xf0 + c / 262144) ∷ (0x80 + c / 4096 % 64) ∷ (0x80 + c / 64 % 64) ∷ (0x80 + c % 64) ∷ []

unfoldable pub hex_digit : ℕ → ℕ
hex_digit n = if ltb n 10 then 48 + n else 55 + n

-- f"%{byte:02X}" for each byte
unfoldable pub percent_bytes : List ℕ → Str
unfolding hex_digit
percent_bytes [] = []
percent_bytes (b ∷ bs) = 37 ∷ hex_digit (b / 16 % 16) ∷ hex_digit (b % 16) ∷ percent_bytes bs

-- `PERCENT`, on one character
unfoldable pub percent : ℕ → Str
unfolding encode percent_bytes
percent c = percent_bytes (encode c)

abbrev pub all_in : (ℕ → Bool) → Str → Bool
all_in p [] = true
all_in p (c ∷ cs) = p c && all_in p cs

-- The characters one by one.
unfoldable pub encode_each : (ℕ → Bool) → Str → Str
unfolding percent
encode_each safe [] = []
encode_each safe (c ∷ cs) = (if safe c then c ∷ [] else percent c) ++ encode_each safe cs

abbrev pub non_escaped : (ℕ → Bool) → ℕ → Bool
non_escaped safe c = is_unreserved c || safe c

-- `percent_encoded`: `rstrip` leaves nothing exactly when all characters are in the set.
unfoldable pub percent_encoded : (ℕ → Bool) → Str → Str
unfolding encode_each is_unreserved
percent_encoded safe s = if all_in (non_escaped safe) s then s else encode_each (non_escaped safe) s

abbrev pub is_hex : ℕ → Bool
is_hex c = (leb 65 c && leb c 70) || ((leb 97 c && leb c 102) || (leb 48 c && leb c 57))

-- The loop of `quote` over the escape sequences, where `leading` is the text since the last one.
unfoldable pub quote_from : (ℕ → Bool) → Str → Str → Str
unfolding percent_encoded
quote_from safe leading [] = percent_encoded safe leading
quote_from safe leading (c ∷ []) = percent_encoded safe (leading ++ c ∷ [])
quote_from safe leading (c ∷ d ∷ []) = percent_encoded safe (leading ++ c ∷ d ∷ [])
quote_from safe leading (c ∷ d ∷ e ∷ cs) =
    let matched = quote_from safe [] cs in
    let next = quote_from safe (leading ++ c ∷ []) (d ∷ e ∷ cs) in
    if c == 37 && (is_hex d && is_hex e)
    then percent_encoded safe leading ++ c ∷ d ∷ e ∷ matched
    else next

unfoldable pub quote : (ℕ → Bool) → Str → Str
unfolding quote_from
quote safe s = quote_from safe [] s

-- A character of a quoted text.
abbrev pub IsQuoted : (ℕ → Bool) → ℕ → Type 0
IsQuoted safe c = (c == 37 || (is_unreserved c || safe c)) ≡ true

module _ (safe : ℕ → Bool) where
  All-append :
      (a b : Str) → All (IsQuoted safe) a → All (IsQuoted safe) b → All (IsQuoted safe) (a ++ b)
  All-append [] b p q = q
  All-append (c ∷ a) b p q = (p.0, All-append a b p.1 q)

  hex_digit-IsQuoted : (n : ℕ) → n < 16 → IsQuoted safe (hex_digit n)
  unfolding hex_digit is_unreserved
  hex_digit-IsQuoted n h = ground arith

  percent_bytes-IsQuoted : (bs : List ℕ) → All (IsQuoted safe) (percent_bytes bs)
  unfolding percent_bytes
  percent_bytes-IsQuoted [] = tt
  percent_bytes-IsQuoted (b ∷ bs) = (
    refl,
    (
      hex_digit-IsQuoted (b / 16 % 16) (omega arith),
      (hex_digit-IsQuoted (b % 16) (omega arith), percent_bytes-IsQuoted bs),
    ),
  )

  encode_each-IsQuoted : (s : Str) → All (IsQuoted safe) (encode_each (non_escaped safe) s)
  unfolding encode_each percent
  encode_each-IsQuoted [] = tt
  encode_each-IsQuoted (c ∷ cs) = elim (Bool-cases (non_escaped safe c)) [
    | inl h ↦ rw h ((ground arith), encode_each-IsQuoted cs)
    | inr h ↦ rw h (
        All-append (percent_bytes (encode c)) (encode_each (non_escaped safe) cs)
          (percent_bytes-IsQuoted (encode c)) (encode_each-IsQuoted cs))
  ]

  all_in-IsQuoted : (s : Str) → all_in (non_escaped safe) s ≡ true → All (IsQuoted safe) s
  all_in-IsQuoted [] h = tt
  all_in-IsQuoted (c ∷ cs) h = (ground arith, all_in-IsQuoted cs (ground arith))

  percent_encoded-IsQuoted : (s : Str) → All (IsQuoted safe) (percent_encoded safe s)
  unfolding percent_encoded
  percent_encoded-IsQuoted s = elim (Bool-cases (all_in (non_escaped safe) s)) [
    | inl h ↦ rw h (all_in-IsQuoted s h)
    | inr h ↦ rw h (encode_each-IsQuoted s)
  ]

  -- The characters of an escape sequence.
  escape-IsQuoted :
      (c d e : ℕ)
      → (c == 37 && (is_hex d && is_hex e)) ≡ true
      → IsQuoted safe c × (IsQuoted safe d × IsQuoted safe e)
  unfolding is_unreserved
  escape-IsQuoted c d e h = (ground arith, (ground arith, ground arith))

  quote_from-IsQuoted : (leading s : Str) → All (IsQuoted safe) (quote_from safe leading s)
  unfolding quote_from
  quote_from-IsQuoted leading [] = percent_encoded-IsQuoted leading
  quote_from-IsQuoted leading (c ∷ []) = percent_encoded-IsQuoted (leading ++ c ∷ [])
  quote_from-IsQuoted leading (c ∷ d ∷ []) = percent_encoded-IsQuoted (leading ++ c ∷ d ∷ [])
  quote_from-IsQuoted leading (c ∷ d ∷ e ∷ cs) =
      elim (Bool-cases (c == 37 && (is_hex d && is_hex e))) [
        | inl h ↦
            let (pc, (pd, pe)) = escape-IsQuoted c d e h in
            rw h (
              All-append (percent_encoded safe leading) (c ∷ d ∷ e ∷ quote_from safe [] cs)
                (percent_encoded-IsQuoted leading) (pc, (pd, (pe, quote_from-IsQuoted [] cs))))
        | inr h ↦ rw h (quote_from-IsQuoted (leading ++ c ∷ []) (d ∷ e ∷ cs))
      ]

  -- Whatever the text, each character of what `quote` returns is a percent sign, an unreserved
  -- character or one that the caller calls safe.
  pub quote-IsQuoted : (s : Str) → All (IsQuoted safe) (quote safe s)
  unfolding quote
  quote-IsQuoted s = quote_from-IsQuoted [] s
