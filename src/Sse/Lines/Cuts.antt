-- ===== src/Sse/Lines/Cuts.antt =====
-- The line decoder of server-sent events and the lines of the whole text.
use mathlib.Core.List.{flatten}
use httpx.Prelude.{
  ◌≡◌, refl, ap, sym, ◌∙◌, Bool, true, false, ◌||◌, List, [], ◌∷◌, ◌++◌, if◌then◌else◌, ◌==◌, any,
  Str, arith, append-nil, append_assoc, Bool-cases, inl, inr,
}
use httpx.Sse.Lines.{
  LineDecoder, cr, lf, init, is_empty, ends_with_cr, but_last, replace_crlf, replace_cr, split,
  pop_line, append, consume_pending, take_lines, decode_text, decode, flush, decode_all, lines_of,
}
use httpx.Sse.Lines.Machine.{run, body, segments, cut, result, run-result}

-- What a decoder holds.
abbrev pub pending : LineDecoder → Str
pending d = flatten d.parts

abbrev IsAfter : List Str × LineDecoder → List Str × Str × Bool → Type 0
IsAfter out r = (out.0 ≡ r.0) × (pending out.1 ≡ r.1) × (out.1.trailing_cr ≡ r.2)

flatten-snoc : (parts : List Str) (t : Str) → flatten (parts ++ t ∷ []) ≡ flatten parts ++ t
unfolding flatten
flatten-snoc [] t = append-nil t
flatten-snoc (p ∷ parts) t =
    ap (λ x. p ++ x) (flatten-snoc parts t) ∙ sym (append_assoc p (flatten parts) t)

pending-append : (t : Str) (d : LineDecoder) → pending (append t d) ≡ pending d ++ t
unfolding append
pending-append [] d = sym (append-nil (pending d))
pending-append (c ∷ cs) d = flatten-snoc d.parts (c ∷ cs)

trailing_cr-append : (t : Str) (d : LineDecoder) → (append t d).trailing_cr ≡ d.trailing_cr
unfolding append
trailing_cr-append [] d = refl
trailing_cr-append (c ∷ cs) d = refl

split_one : (t : Str) → any (λ c. c == lf) t ≡ false → split t ≡ t ∷ []
unfolding split
split_one [] h = refl
split_one (c ∷ cs) h = ground (arith, split_one cs)

take_lines-IsAfter :
    (ls : List Str) (d : LineDecoder)
    → IsAfter (take_lines ls d) ((cut (pending d) ls).0, (cut (pending d) ls).1, d.trailing_cr)
unfolding take_lines consume_pending
take_lines-IsAfter [] d = (refl, refl, refl)
take_lines-IsAfter (l ∷ ls) d =
    let last = pop_line (flatten (append l d).parts) ls in
    (
      ap (λ x. (pop_line x ls).0) (pending-append l d),
      pending-append last.1 (record (append l d) { parts = []; pending_size = 0 })
          ∙ ap (λ x. (pop_line x ls).1) (pending-append l d),
      trailing_cr-append last.1 (record (append l d) { parts = []; pending_size = 0 })
          ∙ trailing_cr-append l d,
    )

decode_text-IsAfter :
    (t : Str) (d : LineDecoder)
    → IsAfter (decode_text t d) (
      (cut (pending d) (split (replace_cr (replace_crlf t)))).0,
      (cut (pending d) (split (replace_cr (replace_crlf t)))).1,
      d.trailing_cr,
    )
unfolding decode_text pop_line
decode_text-IsAfter t d =
    let t' = replace_cr (replace_crlf t) in
    elim (Bool-cases (any (λ c. c == lf) t')) [
      | inr h ↦ rw (h, split_one t' h) (refl, pending-append t' d, trailing_cr-append t' d)
      | inl h ↦ rw h (take_lines-IsAfter (split t') d)
    ]

-- The text of one call, behind a carriage return that was held back.
decode_plain :
    (t : Str) (d : LineDecoder)
    → IsAfter
        (if ends_with_cr t
          then decode_text (but_last t) (record d { trailing_cr = true })
          else decode_text t (record d { trailing_cr = false }))
        (result (pending d) t)
unfolding segments body
decode_plain t d = elim (Bool-cases (ends_with_cr t)) [
  | inl h ↦ rw h (decode_text-IsAfter (but_last t) (record d { trailing_cr = true }))
  | inr h ↦ rw h (decode_text-IsAfter t (record d { trailing_cr = false }))
]

decode-run : (t : Str) (d : LineDecoder) → IsAfter (decode t d) (run d.trailing_cr (pending d) t)
unfolding decode run
decode-run t d = elim (Bool-cases d.trailing_cr) [
  | inl h ↦ rw (h, run-result (pending d) (cr ∷ t)) (decode_plain (cr ∷ t) d)
  | inr h ↦ rw (h, run-result (pending d) t) (decode_plain t d)
]

-- Two parts one after the other.
run-append :
    (carry : Bool) (buf t w : Str)
    → run carry buf (t ++ w) ≡ (
      (run carry buf t).0 ++ (run (run carry buf t).2 (run carry buf t).1 w).0,
      (run (run carry buf t).2 (run carry buf t).1 w).1,
      (run (run carry buf t).2 (run carry buf t).1 w).2,
    )
unfolding run
run-append carry buf [] w = refl
run-append carry buf (c ∷ cs) w = ground (
  arith,
  run-append true [] cs w,
  run-append true buf cs w,
  run-append false [] cs w,
  run-append false (c ∷ []) cs w,
  run-append false (buf ++ c ∷ []) cs w,
)

decode_all-run :
    (parts : List Str) (d : LineDecoder)
    → IsAfter (decode_all d parts) (run d.trailing_cr (pending d) (flatten parts))
unfolding decode_all flatten run
decode_all-run [] d = (refl, refl, refl)
decode_all-run (p ∷ ps) d =
    let (a, b, c) = decode-run p d in
    let (a', b', c') = decode_all-run ps (decode p d).1 in
    rw (run-append d.trailing_cr (pending d) p (flatten ps), sym a, sym b, sym c)
      (ap (λ x. (decode p d).0 ++ x) a', b', c')

any-append :
    (t w : Str) → any (λ c. c == lf) (t ++ w) ≡ (any (λ c. c == lf) t || any (λ c. c == lf) w)
any-append [] w = refl
any-append (c ∷ cs) w = ground (arith, any-append cs w)

-- The line begun has no line feed.
begun_has_no_lf :
    (carry : Bool) (buf t : Str)
    → any (λ c. c == lf) buf ≡ false
    → any (λ c. c == lf) (run carry buf t).1 ≡ false
unfolding run
begun_has_no_lf carry buf [] h = h
begun_has_no_lf carry buf (c ∷ cs) h = ground (
  arith,
  begun_has_no_lf true [] cs refl,
  begun_has_no_lf true buf cs h,
  begun_has_no_lf false [] cs refl,
  begun_has_no_lf false (c ∷ []) cs,
  begun_has_no_lf false (buf ++ c ∷ []) cs,
  any-append buf (c ∷ []),
)

-- The lines of a text behind the line begun, `buf`: a carriage return, a line feed or a carriage
-- return with a line feed ends a line, and so does the end of the text if the line has text.
-- `after_cr` says that the character before was a carriage return.
unfoldable lines_after : Bool → Str → Str → List Str
lines_after after_cr buf [] = if is_empty buf then [] else buf ∷ []
lines_after after_cr buf (c ∷ cs) =
    let by_cr = lines_after true [] cs in
    let by_lf = lines_after false [] cs in
    let inside = lines_after false (buf ++ c ∷ []) cs in
    if c == cr
    then buf ∷ by_cr
    else if c == lf
    then (if after_cr then by_lf else buf ∷ by_lf)
    else inside

-- The lines of a whole text.
unfoldable pub sse_lines : Str → List Str
unfolding lines_after
sse_lines t = lines_after false [] t

-- The lines that ended, and the line begun if it has text.
abbrev finish : List Str × Str × Bool → List Str
finish (ls, buf, carry) = ls ++ (if is_empty buf then [] else buf ∷ [])

-- The machine finds these lines if no carriage return is held back at the end.
run-lines_after :
    (carry : Bool) (buf t : Str)
    → (run carry buf t).2 ≡ false
    → finish (run carry buf t)
      ≡ (if carry then buf ∷ lines_after true [] t else lines_after false buf t)
unfolding run lines_after
run-lines_after true buf [] h = cc
run-lines_after false buf [] h = refl
run-lines_after carry buf (c ∷ cs) h = ground (
  arith,
  run-lines_after true [] cs,
  run-lines_after true buf cs,
  run-lines_after false [] cs,
  run-lines_after false (c ∷ []) cs,
  run-lines_after false (buf ++ c ∷ []) cs,
)

-- What `flush` gives if no carriage return is held back.
flush_lines :
    (d : LineDecoder)
    → d.trailing_cr ≡ false
    → any (λ c. c == lf) (pending d) ≡ false
    → (flush d).0 ≡ (if is_empty (pending d) then [] else pending d ∷ [])
unfolding flush consume_pending
flush_lines d e h = elim (Bool-cases (is_empty (pending d))) [
  | inl k ↦ rw (e, k) refl
  | inr k ↦ rw (e, k) (split_one (pending d) h)
]

-- The lines of a text that comes in parts and does not end in a carriage return are those of the
-- whole text, wherever it is cut, also between a carriage return and a line feed.
pub lines_of-sse_lines :
    (parts : List Str)
    → ends_with_cr (flatten parts) ≡ false
    → lines_of parts ≡ sse_lines (flatten parts)
unfolding lines_of sse_lines
lines_of-sse_lines parts h =
    let t = flatten parts in
    let (a, b, c) = decode_all-run parts init in
    let e : (run false [] t).2 ≡ false = ap (λ x. x.2) (run-result [] t) ∙ h in
    rw
      (flush_lines (decode_all init parts).1 (c ∙ e) (rw b (begun_has_no_lf false [] t refl)), a, b)
      (run-lines_after false [] t e)
