-- ===== src/Tests/SseTests.antt =====
-- The decoders of server-sent events at concrete inputs.
use mathlib.Core.List.{flatten}
use httpx.Prelude.{
  ℕ, ◌+◌, ◌≤◌, ◌≡◌, refl, false, Option, none, some, List, [], ◌∷◌, ◌++◌, Str, codes, str_eq,
}
use httpx.Sse.Lines.{lines_of, size, ends_with_cr}
use httpx.Sse.Lines.Cuts.{sse_lines, lines_of-sse_lines, pending}
use httpx.Sse.Events
use httpx.Sse.Events.Size.{sizes}
use httpx.Sse.Parser.{init, decode_all, decode_lines, iterate}
use httpx.Sse.Parser.Whole.{iterate-events}
use httpx.Sse.Parser.Bounds.{held_within_limit}

abbrev int : Str → Option ℕ
int [] = none
int (c ∷ cs) = some c

-- "data: a" CR, then LF LF
abbrev parts : List Str
parts = (codes "data: a" ++ 13 ∷ []) ∷ (10 ∷ 10 ∷ []) ∷ []

one_event :
    (iterate int none parts).0
    ≡ record { event = codes "message"; data_text = codes "a"; id = []; retry = none } ∷ []
unfolding iterate str_eq
one_event = refl

-- A carriage return that ends the response ends the event too.
event_at_end :
    (iterate int none ((codes "data: a" ++ 13 ∷ []) ∷ [])).0
    ≡ record { event = codes "message"; data_text = codes "a"; id = []; retry = none } ∷ []
unfolding iterate str_eq
event_at_end = refl

-- A line feed there does not.
no_event_at_end : (iterate int none ((codes "data: a" ++ 10 ∷ []) ∷ [])).0 ≡ []
unfolding iterate str_eq
no_event_at_end = refl

no_cr_at_end : ends_with_cr (flatten parts) ≡ false
unfolding flatten str_eq ends_with_cr
no_cr_at_end = refl

lines_of-sse_lines_example : lines_of parts ≡ sse_lines (flatten parts)
lines_of-sse_lines_example = lines_of-sse_lines parts no_cr_at_end

iterate-events_example :
    iterate int none parts
    ≡ ((decode_lines int none (sse_lines (flatten parts)) Events.init).0, false)
iterate-events_example = iterate-events int parts no_cr_at_end

no_error : (decode_all int (some 16) parts init).1 ≡ false
unfolding decode_all str_eq
no_error = refl

three_lines : sse_lines (codes "a" ++ 13 ∷ 10 ∷ 13 ∷ codes "b") ≡ codes "a" ∷ [] ∷ codes "b" ∷ []
unfolding sse_lines
three_lines = refl

held_within_limit_example :
    size (decode_all int (some 16) parts init).2.event_decoder.event
      + sizes (decode_all int (some 16) parts init).2.event_decoder.data_lines
      + size (pending (decode_all int (some 16) parts init).2.line_decoder)
    ≤ 16
held_within_limit_example = held_within_limit int 16 parts no_error
