-- ===== src/Tests/SessionTests.antt =====
-- Sessions over WebSockets at concrete inputs.
use mathlib.Core.List.{map}
use httpx.Prelude.{◌≡◌, Bool, true, false, some, List, [], ◌∷◌, ◌++◌, Str, codes, All, arith}
use httpx.Sse.Lines.{size}
use httpx.WebSocket.{Protocol, Session, text, binary, create, message, ping}
use httpx.WebSocket.Background.{
  no_partial, continues, handle_events, background_receive, message_size, chunk, read_error,
}
use httpx.WebSocket.Messages.{Sent, IsSmall, wire, whole, wire-whole}
use httpx.WebSocket.Bounds.{ThreadFits, background_receive-ThreadFits}

-- A connection that is whether it sent a close, and that reads each byte as a binary message.
abbrev toy : Protocol Bool
toy = record {
  send = λ w e. some (codes "frame", w);
  send_close = λ w code reason. (codes "close", true);
  receive_data = λ w s. (message binary s true ∷ ping s ∷ [], w);
  is_closing = λ w. w;
}

-- A write fails if the stream was closed.
abbrev broken : Bool → List Str → Bool
broken is_closed written = is_closed

-- A text in two fragments with a pong between them, and a binary message.
abbrev two_messages : List Sent
two_messages =
    (text, ([], codes "ab"), (codes "p" ∷ [], codes "c") ∷ []) ∷ (binary, ([], 1 ∷ []), []) ∷ []

two_messages-IsSmall : All (IsSmall 10) two_messages
unfolding message_size size
two_messages-IsSmall = (omega arith, (omega arith, tt))

wire-whole_example :
    (s' : Session Bool) × (handle_events toy broken 10 (wire two_messages) no_partial (create false)
      ≡ continues no_partial s')
    × (s'.events ≡ (create false).events ++ map whole two_messages)
wire-whole_example = wire-whole toy broken 10 two_messages (create false) two_messages-IsSmall

background_receive-ThreadFits_example : ThreadFits toy broken 1 (
    background_receive toy broken 1
      (chunk (codes "a") ∷ chunk (codes "bcd") ∷ read_error ∷ [])
      no_partial
      (create false))
background_receive-ThreadFits_example =
    background_receive-ThreadFits toy broken 1
      (chunk (codes "a") ∷ chunk (codes "bcd") ∷ read_error ∷ []) false
