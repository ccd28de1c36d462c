-- ===== src/Sse/Parser/Whole.antt =====
-- Without a limit the events do not depend on how the text is cut.
use mathlib.Core.List.{flatten}
use httpx.Prelude.{
  ◌≡◌, refl, ap, sym, ◌∙◌, Bool, true, false, Option, none, List, [], ◌∷◌, ◌++◌, if◌then◌else◌, Str,
  append_assoc, Bool-cases, inl, inr, ◌==◌,
}
use httpx.Sse.Lines.{LineDecoder, lines_of, ends_with_cr}
use httpx.Sse.Lines
use httpx.Sse.Lines.Cuts.{sse_lines, lines_of-sse_lines}
use httpx.Sse.Events.{EventDecoder, ServerSentEvent, ok, sse_error, exceeds}
use httpx.Sse.Events
use httpx.Sse.Parser.{Parser, init, listed, decode_lines, decode, decode_all, flush, iterate}

module _ {R : Type 0} (int : Str → Option R) where
  line_is_taken :
      (line : Str) (d : EventDecoder R)
      → (o : Option (ServerSentEvent R)) × ((Events.decode int none line d).0 ≡ ok o)
  unfolding Events.decode Events.read_field exceeds
  line_is_taken [] d = ((Events.dispatch d).0, refl)
  line_is_taken (c ∷ cs) d = elim (Bool-cases (c == 58)) [
    | inl h ↦ (none, rw h refl)
    | inr h ↦ (none, rw h refl)
  ]

  decode_lines-append :
      (a b : List Str) (d : EventDecoder R)
      → decode_lines int none (a ++ b) d ≡ (
        (decode_lines int none a d).0 ++ (decode_lines int none b (decode_lines int none a d).2).0,
        (decode_lines int none b (decode_lines int none a d).2).1,
        (decode_lines int none b (decode_lines int none a d).2).2,
      )
  unfolding decode_lines
  decode_lines-append [] b d = refl
  decode_lines-append (l ∷ a) b d =
      let (o, e) = line_is_taken l d in
      rw (decode_lines, e, decode_lines-append a b (Events.decode int none l d).1)
        (ap
          (λ x. (
            x,
            (decode_lines int none b (decode_lines int none a (Events.decode int none l d).1).2).1,
            (decode_lines int none b (decode_lines int none a (Events.decode int none l d).1).2).2,
          ))
          (sym (
            append_assoc (listed o) (decode_lines int none a (Events.decode int none l d).1).0
              (decode_lines int none b
                (decode_lines int none a (Events.decode int none l d).1).2).0)))

  decode_lines_ok : (ls : List Str) (d : EventDecoder R) → (decode_lines int none ls d).1 ≡ false
  unfolding decode_lines
  decode_lines_ok [] d = refl
  decode_lines_ok (l ∷ ls) d =
      let (o, e) = line_is_taken l d in
      rw (decode_lines, e) (decode_lines_ok ls (Events.decode int none l d).1)

  decode_plain :
      (part : Str) (p : Parser R)
      → decode int none part p ≡ (
        (decode_lines int none (Lines.decode part p.line_decoder).0 p.event_decoder).0,
        false,
        record {
          event_decoder =
              (decode_lines int none (Lines.decode part p.line_decoder).0 p.event_decoder).2;
          line_decoder = (Lines.decode part p.line_decoder).1;
        },
      )
  unfolding decode exceeds
  decode_plain part p =
      rw (decode_lines_ok (Lines.decode part p.line_decoder).0 p.event_decoder) refl

  after :
      List Str
      → List (ServerSentEvent R) × Bool × Parser R
      → List (ServerSentEvent R) × Bool × Parser R
  after parts (events, failed, p') =
      let (rest, failed', p'') = decode_all int none parts p' in
      if failed then (events, true, p') else (events ++ rest, failed', p'')

  decode_all-lines :
      (parts : List Str) (p : Parser R)
      → decode_all int none parts p ≡ (
        (decode_lines int none (Lines.decode_all p.line_decoder parts).0 p.event_decoder).0,
        false,
        record {
          event_decoder =
              (decode_lines int none (Lines.decode_all p.line_decoder parts).0 p.event_decoder).2;
          line_decoder = (Lines.decode_all p.line_decoder parts).1;
        },
      )
  unfolding after decode_all decode_lines Lines.decode_all
  decode_all-lines [] p = refl
  decode_all-lines (part ∷ parts) p =
      let (l, ld) = Lines.decode part p.line_decoder in
      let ed = (decode_lines int none l p.event_decoder).2 in
      ap (after parts) (decode_plain part p)
      ∙ rw
          (
            decode_all-lines parts (record { event_decoder = ed; line_decoder = ld }),
            decode_lines-append l (Lines.decode_all ld parts).0 p.event_decoder,
          )
          refl

  -- With no size limit, on a text that does not end in a carriage return, the iteration raises
  -- nothing, and its events are those of the lines of the whole text, wherever the response's parts
  -- cut it.
  pub iterate-events :
      (parts : List Str)
      → ends_with_cr (flatten parts) ≡ false
      → iterate int none parts
        ≡ ((decode_lines int none (sse_lines (flatten parts)) Events.init).0, false)
  unfolding iterate flush lines_of
  iterate-events parts h =
      let (l, ld) = Lines.decode_all Lines.init parts in
      let last = (Lines.flush ld).0 in
      let ed = (decode_lines int none l Events.init).2 in
      rw
        (
          decode_all-lines parts init,
          decode_lines_ok last ed,
          sym (lines_of-sse_lines parts h),
          decode_lines-append l last Events.init,
        )
        refl
