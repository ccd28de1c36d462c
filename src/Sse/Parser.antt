-- ===== src/Sse/Parser.antt =====
-- `_SSEParser` in httpx2/httpx2/_sse.py, and the loop of `EventSource` that drives it.
pub mod Whole
pub mod Bounds
use httpx.Prelude.{
  ℕ, Bool, true, false, Option, none, some, List, [], ◌∷◌, ◌++◌, if◌then◌else◌, Str,
}
use httpx.Sse.Lines.{LineDecoder}
use httpx.Sse.Lines
use httpx.Sse.Events.{EventDecoder, ServerSentEvent, ok, sse_error, exceeds}
use httpx.Sse.Events

pub record Parser (R : Type 0) : Type 0 where
  pub event_decoder : EventDecoder R
  pub line_decoder : LineDecoder

abbrev pub init : {R : Type 0} → Parser R
init = record { event_decoder = Events.init; line_decoder = Lines.init }

abbrev pub listed : {A : Type 0} → Option A → List A
listed none = []
listed (some a) = a ∷ []

module _ {R : Type 0} (int : Str → Option R) (max_event_size : Option ℕ) where
  -- `_decode_lines`: the events, whether it raised, and the decoder it leaves.
  unfoldable pub decode_lines :
      List Str → EventDecoder R → List (ServerSentEvent R) × Bool × EventDecoder R
  unfolding Events.decode
  decode_lines [] d = ([], false, d)
  decode_lines (line ∷ lines) d =
      let (one, d') = Events.decode int max_event_size line d in
      let (rest, failed, d'') = decode_lines lines d' in
      elim one [ sse_error ↦ ([], true, d') | ok sse ↦ (listed sse ++ rest, failed, d'') ]

  unfoldable pub decode : Str → Parser R → List (ServerSentEvent R) × Bool × Parser R
  unfolding decode_lines Lines.decode exceeds
  decode text p =
      let (lines, ld) = Lines.decode text p.line_decoder in
      let (events, failed, ed) = decode_lines lines p.event_decoder in
      (
        events,
        (if failed then true else exceeds max_event_size ld.pending_size ed),
        record { event_decoder = ed; line_decoder = ld },
      )

  unfoldable pub flush : Parser R → List (ServerSentEvent R) × Bool
  unfolding decode_lines Lines.flush
  flush p =
      let (lines, ld) = Lines.flush p.line_decoder in
      let (events, failed, ed) = decode_lines lines p.event_decoder in (events, failed)

  -- `decode` on each part, as far as none raises.
  unfoldable pub decode_all : List Str → Parser R → List (ServerSentEvent R) × Bool × Parser R
  unfolding decode
  decode_all [] p = ([], false, p)
  decode_all (part ∷ parts) p =
      let (events, failed, p') = decode part p in
      let (rest, failed', p'') = decode_all parts p' in
      if failed then (events, true, p') else (events ++ rest, failed', p'')

  -- `EventSource.__iter__` after the test of the content type.
  unfoldable pub iterate : List Str → List (ServerSentEvent R) × Bool
  unfolding decode_all flush
  iterate parts =
      let (events, failed, p) = decode_all parts init in
      let (rest, failed') = flush p in if failed then (events, true) else (events ++ rest, failed')
