-- ===== src/Multipart/Escaping.antt =====
-- What a quoted parameter of a form can contain.
use httpx.Prelude.{
  ℕ, ◌<◌, ◌/◌, ◌%◌, ◌≡◌, refl, ap, sym, ◌∙◌, true, not, ◌&&◌, ◌||◌, [], ◌∷◌, ◌++◌, ◌==◌, ltb, leb,
  Str, All, append_assoc, arith, Bool-cases, inl, inr,
}
use httpx.Url.Quote.{encode, hex_digit}
use httpx.Multipart.{to_bytes, replacement, replace_all, format_form_param}

-- No double quote, and no control character but the escape character.
abbrev pub IsPlainByte : ℕ → Type 0
IsPlainByte b = (not (b == 34) && (leb 0x20 b || b == 0x1b)) ≡ true

All-append : (a b : Str) → All IsPlainByte a → All IsPlainByte b → All IsPlainByte (a ++ b)
All-append [] b p q = q
All-append (c ∷ a) b p q = (p.0, All-append a b p.1 q)

encode-IsPlainByte : (c : ℕ) → IsPlainByte c → All IsPlainByte (encode c)
unfolding encode
encode-IsPlainByte c h = elim (Bool-cases (ltb c 0x80)) [
  | inl a ↦ rw a (h, tt)
  | inr a ↦ rw a (elim (Bool-cases (ltb c 0x800)) [
    | inl b ↦ rw b (ground arith, (ground arith, tt))
    | inr b ↦ rw b (elim (Bool-cases (ltb c 0x10000)) [
      | inl d ↦ rw d (ground arith, (ground arith, (ground arith, tt)))
      | inr d ↦ rw d (ground arith, (ground arith, (ground arith, (ground arith, tt))))
    ])
  ])
]

to_bytes-IsPlainByte : (s : Str) → All IsPlainByte s → All IsPlainByte (to_bytes s)
unfolding to_bytes
to_bytes-IsPlainByte [] h = tt
to_bytes-IsPlainByte (c ∷ cs) h =
    All-append (encode c) (to_bytes cs) (encode-IsPlainByte c h.0) (to_bytes-IsPlainByte cs h.1)

hex_digit-IsPlainByte : (n : ℕ) → n < 16 → IsPlainByte (hex_digit n)
unfolding hex_digit
hex_digit-IsPlainByte n h = ground arith

replacement-IsPlainByte : (c : ℕ) → All IsPlainByte (replacement c)
unfolding replacement
replacement-IsPlainByte c = elim (Bool-cases (c == 34)) [
  | inl a ↦ rw a (refl, (refl, (refl, tt)))
  | inr a ↦ rw a (elim (Bool-cases (c == 92)) [
    | inl b ↦ rw b (refl, (refl, tt))
    | inr b ↦ rw b (elim (Bool-cases (leb c 0x1f && not (c == 0x1b))) [
      | inl d ↦ rw d (
        refl,
        (
          hex_digit-IsPlainByte (c / 16) (ground arith),
          (hex_digit-IsPlainByte (c % 16) (omega arith), tt),
        ),
      )
      | inr d ↦ rw d (ground arith, tt)
    ])
  ])
]

replace_all-IsPlainByte : (s : Str) → All IsPlainByte (replace_all s)
unfolding replace_all
replace_all-IsPlainByte [] = tt
replace_all-IsPlainByte (c ∷ cs) =
    All-append (replacement c) (replace_all cs) (replacement-IsPlainByte c)
      (replace_all-IsPlainByte cs)

to_bytes-append : (s t : Str) → to_bytes (s ++ t) ≡ to_bytes s ++ to_bytes t
unfolding to_bytes
to_bytes-append [] t = refl
to_bytes-append (c ∷ cs) t =
    ap (λ r. encode c ++ r) (to_bytes-append cs t)
    ∙ sym (append_assoc (encode c) (to_bytes cs) (to_bytes t))

-- Whatever the name of a field or of a file contains, between the quotes around it there is no
-- quote and no line break: a parameter cannot end early, nor add a line to the headers.
pub format_form_param-IsPlainByte :
    (name value : Str)
    → (escaped : Str) × (format_form_param name value
        ≡ to_bytes name ++ (61 ∷ 34 ∷ escaped ++ 34 ∷ []))
      × All IsPlainByte escaped
unfolding format_form_param to_bytes encode
format_form_param-IsPlainByte name value = (
  to_bytes (replace_all value),
  to_bytes-append name (61 ∷ 34 ∷ replace_all value ++ 34 ∷ [])
      ∙ ap (λ t. to_bytes name ++ (61 ∷ 34 ∷ t)) (to_bytes-append (replace_all value) (34 ∷ [])),
  to_bytes-IsPlainByte (replace_all value) (replace_all-IsPlainByte value),
)
