-- ===== src/Sse/Parser/Bounds.antt =====
-- With a size limit, what the parser holds stays within it.
use mathlib.Core.List.{flatten}
use httpx.Prelude.{
  ℕ, ◌+◌, ◌≤◌, ◌≡◌, refl, ap, ◌∙◌, Bool, true, false, Option, some, List, [], ◌∷◌, ◌++◌,
  if◌then◌else◌, Str, arith, Bool-cases, inl, inr, ◌⊎◌, any, ◌==◌,
}
use httpx.Sse.Lines.{
  LineDecoder, size, append, consume_pending, take_lines, decode_text, lf, split, pop_line,
  replace_cr, replace_crlf, ends_with_cr, but_last, cr,
}
use httpx.Sse.Lines
use httpx.Sse.Lines.Cuts.{pending}
use httpx.Sse.Events.{EventDecoder, ServerSentEvent, Result, ok, sse_error, exceeds}
use httpx.Sse.Events
use httpx.Sse.Events.Size.{sizes, Within, decode-Within}
use httpx.Sse.Parser.{Parser, init, decode_lines, decode, decode_all}

-- The count of the line decoder is the size of what is pending.
abbrev Sized : LineDecoder → Type 0
Sized d = size (flatten d.parts) ≡ d.pending_size

pub size-append : (a b : Str) → size (a ++ b) ≡ size a + size b
unfolding size
size-append [] b = omega arith
size-append (c ∷ a) b = omega (arith, size-append a b)

size-snoc :
    (parts : List Str) (t : Str) → size (flatten (parts ++ t ∷ [])) ≡ size (flatten parts) + size t
unfolding flatten size
size-snoc [] t = omega (arith, size-append t [])
size-snoc (p ∷ parts) t = omega (
  arith,
  size-snoc parts t,
  size-append p (flatten (parts ++ t ∷ [])),
  size-append p (flatten parts),
)

append-Sized : (t : Str) (d : LineDecoder) → Sized d → Sized (append t d)
unfolding append
append-Sized [] d h = h
append-Sized (c ∷ cs) d h = size-snoc d.parts (c ∷ cs) ∙ ap (λ n. n + size (c ∷ cs)) h

take_lines-Sized : (ls : List Str) (d : LineDecoder) → Sized d → Sized (take_lines ls d).1
unfolding take_lines consume_pending size flatten
take_lines-Sized [] d h = h
take_lines-Sized (l ∷ ls) d h =
    append-Sized (pop_line (flatten (append l d).parts) ls).1
      (record (append l d) { parts = []; pending_size = 0 }) refl

decode_text-Sized : (t : Str) (d : LineDecoder) → Sized d → Sized (decode_text t d).1
unfolding decode_text
decode_text-Sized t d h =
    let t' = replace_cr (replace_crlf t) in
    elim (Bool-cases (any (λ c. c == lf) t')) [
      | inl e ↦ rw e (take_lines-Sized (split t') d h)
      | inr e ↦ rw e (append-Sized t' d h)
    ]

decode-Sized : (t : Str) (d : LineDecoder) → Sized d → Sized (Lines.decode t d).1
unfolding Lines.decode
decode-Sized t d h = split_off (if d.trailing_cr then cr ∷ t else t)
  where
    split_off :
        (t' : Str)
        → Sized
            (if ends_with_cr t'
              then decode_text (but_last t') (record d { trailing_cr = true })
              else decode_text t' (record d { trailing_cr = false })).1
    split_off t' = elim (Bool-cases (ends_with_cr t')) [
      | inl e ↦ rw e (decode_text-Sized (but_last t') (record d { trailing_cr = true }) h)
      | inr e ↦ rw e (decode_text-Sized t' (record d { trailing_cr = false }) h)
    ]

Result-cases : {A : Type 0} (r : Result A) → (r ≡ sse_error) ⊎ ((a : A) × (r ≡ ok a))
Result-cases sse_error = inl refl
Result-cases (ok a) = inr (a, refl)

neither : (a b : Bool) → (if a then true else b) ≡ false → (a ≡ false) × (b ≡ false)
neither a b h = ground arith

module _ {R : Type 0} (int : Str → Option R) (limit : Option ℕ) where
  decode_lines-Within :
      (ls : List Str) (d : EventDecoder R)
      → Within int limit d
      → (decode_lines int limit ls d).1 ≡ false
      → Within int limit (decode_lines int limit ls d).2
  unfolding decode_lines
  decode_lines-Within [] d w e = w
  decode_lines-Within (l ∷ ls) d w e = elim (Result-cases (Events.decode int limit l d).0) [
    | inl k ↦ let wrong : true ≡ false = ground arith in cc
    | inr (o, k) ↦
        let e' : (decode_lines int limit ls (Events.decode int limit l d).1).1 ≡ false =
          ground arith in
        rw (decode_lines, k)
          (decode_lines-Within ls (Events.decode int limit l d).1
            (decode-Within int limit l d o w k) e')
  ]

  -- What holds of a parser after each call that raised nothing.
  abbrev Kept : Parser R → Type 0
  Kept p =
      Within int limit p.event_decoder
      × Sized p.line_decoder
      × (exceeds limit p.line_decoder.pending_size p.event_decoder ≡ false)

  decode-Kept :
      (part : Str) (p : Parser R)
      → Kept p
      → (decode int limit part p).1 ≡ false
      → Kept (decode int limit part p).2
  unfolding decode
  decode-Kept part p k e =
      let (ls, ld) = Lines.decode part p.line_decoder in
      let done = decode_lines int limit ls p.event_decoder in
      let (unfailed, fits) = neither done.1 (exceeds limit ld.pending_size done.2) e in
      (
        decode_lines-Within ls p.event_decoder k.0 unfailed,
        decode-Sized part p.line_decoder k.1,
        fits,
      )

  decode_all-Kept :
      (parts : List Str) (p : Parser R)
      → Kept p
      → (decode_all int limit parts p).1 ≡ false
      → Kept (decode_all int limit parts p).2
  unfolding decode_all
  decode_all-Kept [] p k e = k
  decode_all-Kept (part ∷ parts) p k e = elim (Bool-cases (decode int limit part p).1) [
    | inl h ↦ ground arith
    | inr h ↦
        let e' : (decode_all int limit parts (decode int limit part p).2).1 ≡ false =
          ground arith in
        rw (decode_all, h)
          (decode_all-Kept parts (decode int limit part p).2 (decode-Kept part p k h) e')
  ]

module _ {R : Type 0} (int : Str → Option R) (limit : ℕ) where
  Kept-init : Kept int (some limit) init
  unfolding exceeds size flatten
  Kept-init =
      ((record { held = omega arith; at_rest = λ e. refl }, ground arith), refl, ground arith)

  -- After any parts that raised nothing, the bytes of the event in progress, its type and its data,
  -- and those of the line that has not ended are at most `max_event_size` together.
  pub held_within_limit :
      (parts : List Str)
      → (decode_all int (some limit) parts init).1 ≡ false
      → size (decode_all int (some limit) parts init).2.event_decoder.event
          + sizes (decode_all int (some limit) parts init).2.event_decoder.data_lines
          + size (pending (decode_all int (some limit) parts init).2.line_decoder)
        ≤ limit
  unfolding exceeds
  held_within_limit parts e =
      let (w, s, f) = decode_all-Kept int (some limit) parts init Kept-init e in
      let h = w.0.held in ground arith
