-- ===== src/Sse/Lines/Machine.antt =====
-- A text of server-sent events read character by character, and the code's way to split it.
use httpx.Prelude.{
  ℕ, ◌≡◌, refl, ap, sym, ◌∙◌, Bool, true, false, List, [], ◌∷◌, ◌++◌, if◌then◌else◌, ◌==◌, Str,
  arith, append-nil, append_assoc, Bool-cases, inl, inr, ==_iff,
}
use httpx.Sse.Lines.{
  cr, lf, ends_with_cr, but_last, replace_crlf, replace_cr, split, cons_first, pop_line,
}

abbrev pub emit : Str → List Str × Str × Bool → List Str × Str × Bool
emit l (ls, b, carry) = (l ∷ ls, b, carry)

-- The lines that end in a text, the line begun, and whether a carriage return is held back. `buf`
-- is the line begun before the text, and `carry` says that a carriage return was held back.
unfoldable pub run : Bool → Str → Str → List Str × Str × Bool
run carry buf [] = ([], buf, carry)
run carry buf (c ∷ cs) =
    let again = run true [] cs in
    let held = run true buf cs in
    let ends = run false [] cs in
    let next = run false (c ∷ []) cs in
    let inside = run false (buf ++ c ∷ []) cs in
    if c == cr
    then (if carry then emit buf again else held)
    else if c == lf
    then emit buf ends
    else if carry
    then emit buf next
    else inside

-- The text without the carriage return at its end.
unfoldable pub body : Str → Str
unfolding ends_with_cr but_last
body t = if ends_with_cr t then but_last t else t

-- The lines of the text as the code splits it.
unfoldable pub segments : Str → List Str
unfolding body replace_crlf replace_cr split
segments t = split (replace_cr (replace_crlf (body t)))

-- The first line continues the line begun, and the last is begun.
abbrev pub cut : Str → List Str → List Str × Str
cut buf [] = ([], buf)
cut buf (l ∷ ls) = pop_line (buf ++ l) ls

ends_cons : (c : ℕ) (cs : Str) → (c == cr) ≡ false → ends_with_cr (c ∷ cs) ≡ ends_with_cr cs
unfolding ends_with_cr
ends_cons c [] h = h
ends_cons c (d ∷ cs) h = refl

body_cons : (c : ℕ) (cs : Str) → (c == cr) ≡ false → body (c ∷ cs) ≡ c ∷ body cs
unfolding body ends_with_cr but_last
body_cons c [] h = rw h refl
body_cons c (d ∷ cs) h = ground arith

body_pair : (c d : ℕ) (cs : Str) → body (c ∷ d ∷ cs) ≡ c ∷ body (d ∷ cs)
unfolding body ends_with_cr but_last
body_pair c d cs = ground arith

replace_crlf_cons :
    (c : ℕ) (cs : Str) → (c == cr) ≡ false → replace_crlf (c ∷ cs) ≡ c ∷ replace_crlf cs
unfolding replace_crlf
replace_crlf_cons c [] h = refl
replace_crlf_cons c (d ∷ cs) h = rw h refl

replace_crlf_one :
    (d : ℕ) (cs : Str)
    → (d == lf) ≡ false
    → replace_crlf (cr ∷ body (d ∷ cs)) ≡ cr ∷ replace_crlf (body (d ∷ cs))
unfolding replace_crlf body ends_with_cr but_last
replace_crlf_one d [] h = ground arith
replace_crlf_one d (e ∷ cs) h = ground arith

segments_inside :
    (c : ℕ) (cs : Str)
    → (c == cr) ≡ false
    → (c == lf) ≡ false
    → segments (c ∷ cs) ≡ cons_first c (segments cs)
unfolding segments replace_cr split
segments_inside c cs h k = rw (body_cons c cs h, replace_crlf_cons c (body cs) h, h, k) refl

segments-lf : (c : ℕ) (cs : Str) → (c == lf) ≡ true → segments (c ∷ cs) ≡ [] ∷ segments cs
unfolding segments replace_cr split
segments-lf c cs k =
    let h : (c == cr) ≡ false = ground arith in
    rw (body_cons c cs h, replace_crlf_cons c (body cs) h, h, k) refl

segments_pair : (cs : Str) → segments (cr ∷ lf ∷ cs) ≡ [] ∷ segments cs
unfolding segments replace_crlf replace_cr split
segments_pair cs = rw (body_pair cr lf cs, body_cons lf cs refl) refl

segments-cr :
    (d : ℕ) (cs : Str) → (d == lf) ≡ false → segments (cr ∷ d ∷ cs) ≡ [] ∷ segments (d ∷ cs)
unfolding segments replace_cr split
segments-cr d cs h = rw (body_pair cr d cs, replace_crlf_one d cs h) refl

pub split-cons : (t : Str) → (l : Str) × (ls : List Str) × (split t ≡ l ∷ ls)
unfolding split
split-cons [] = ([], [], refl)
split-cons (c ∷ cs) =
    let (l, ls, e) = split-cons cs in
    elim (Bool-cases (c == lf)) [
      | inl h ↦ ([], split cs, rw h refl)
      | inr h ↦ (c ∷ l, ls, rw (h, e) refl)
    ]

-- An empty first line before others, and a character before the first line.
cut_empty :
    (buf t : Str)
    → cut buf ([] ∷ segments t) ≡ (buf ∷ (cut [] (segments t)).0, (cut [] (segments t)).1)
unfolding segments pop_line
cut_empty buf t =
    let (l, ls, e) = split-cons (replace_cr (replace_crlf (body t))) in rw (e, append-nil buf) refl

cut-cons_first :
    (buf : Str) (c : ℕ) (ls : List Str) → cut buf (cons_first c ls) ≡ cut (buf ++ c ∷ []) ls
unfolding pop_line
cut-cons_first buf c [] = refl
cut-cons_first buf c (l ∷ ls) = rw (append_assoc buf (c ∷ []) l) refl

-- What the code's way to split gives.
abbrev pub result : Str → Str → List Str × Str × Bool
result buf t = ((cut buf (segments t)).0, (cut buf (segments t)).1, ends_with_cr t)

result_inside :
    (buf : Str) (c : ℕ) (cs : Str)
    → (c == cr) ≡ false
    → (c == lf) ≡ false
    → result buf (c ∷ cs) ≡ result (buf ++ c ∷ []) cs
result_inside buf c cs h k =
    rw (segments_inside c cs h k, ends_cons c cs h, cut-cons_first buf c (segments cs)) refl

result_lf :
    (buf : Str) (c : ℕ) (cs : Str)
    → (c == lf) ≡ true
    → result buf (c ∷ cs) ≡ emit buf (result [] cs)
result_lf buf c cs k =
    let h : (c == cr) ≡ false = ground arith in
    rw (segments-lf c cs k, ends_cons c cs h, cut_empty buf cs) refl

result_pair : (buf : Str) (cs : Str) → result buf (cr ∷ lf ∷ cs) ≡ emit buf (result [] cs)
unfolding ends_with_cr
result_pair buf cs = rw (segments_pair cs, cut_empty buf cs, ends_cons lf cs refl) refl

result_cr :
    (buf : Str) (d : ℕ) (cs : Str)
    → (d == lf) ≡ false
    → result buf (cr ∷ d ∷ cs) ≡ emit buf (result [] (d ∷ cs))
unfolding ends_with_cr
result_cr buf d cs h = rw (segments-cr d cs h, cut_empty buf (d ∷ cs)) refl

result_end : (buf : Str) → result buf (cr ∷ []) ≡ ([], buf, true)
unfolding segments body ends_with_cr but_last replace_crlf replace_cr split pop_line
result_end buf = rw (append-nil buf) refl

-- A held carriage return followed by something else than a line feed ends the line.
run_held :
    (buf : Str) (d : ℕ) (cs : Str)
    → (d == lf) ≡ false
    → run true buf (d ∷ cs) ≡ emit buf (run false [] (d ∷ cs))
unfolding run
run_held buf d cs h = elim (Bool-cases (d == cr)) [
  | inl e ↦ rw (h, e) refl
  | inr e ↦ rw (h, e) refl
]

run_empty : (buf : Str) → run false buf [] ≡ result buf []
unfolding run segments body ends_with_cr replace_crlf replace_cr split pop_line
run_empty buf = rw (append-nil buf) refl

-- The code splits a text as the machine does.
pub run-result : (buf t : Str) → run false buf t ≡ result buf t
unfolding run
run-result buf [] = run_empty buf
run-result buf (c ∷ []) = elim (Bool-cases (c == cr)) [
  | inl e ↦ rw ((==_iff c cr).0 e) (sym (result_end buf))
  | inr e ↦ elim (Bool-cases (c == lf)) [
    | inl k ↦ rw (e, k, result_lf buf c [] k) (ap (emit buf) (run-result [] []))
    | inr k ↦ rw (e, k, result_inside buf c [] e k) (run-result (buf ++ c ∷ []) [])
  ]
]
run-result buf (c ∷ d ∷ cs) = elim (Bool-cases (c == cr)) [
  | inl e ↦ elim (Bool-cases (d == lf)) [
    | inl k ↦
        rw ((==_iff c cr).0 e, (==_iff d lf).0 k, result_pair buf cs)
          (ap (emit buf) (run-result [] cs))
    | inr k ↦ rw (e) (
        run_held buf d cs k
        ∙ ap (emit buf) (run-result [] (d ∷ cs))
        ∙ sym (result_cr buf d cs k)
        ∙ ap (λ x. result buf (x ∷ d ∷ cs)) (sym ((==_iff c cr).0 e)))
  ]
  | inr e ↦ elim (Bool-cases (c == lf)) [
    | inl k ↦ rw (e, k, result_lf buf c (d ∷ cs) k) (ap (emit buf) (run-result [] (d ∷ cs)))
    | inr k ↦ rw (e, k, result_inside buf c (d ∷ cs) e k) (run-result (buf ++ c ∷ []) (d ∷ cs))
  ]
]
