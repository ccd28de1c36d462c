-- ===== src/WebSocket/Background.antt =====
-- The threads of a session in httpx2/httpx2/websockets/_api.py: `_background_receive`, which
-- reassembles messages, and `_background_keepalive_ping`.
use httpx.Prelude.{
  ℕ, ◌+◌, Bool, true, false, Option, none, some, List, [], ◌∷◌, ◌++◌, if◌then◌else◌, ltb, Str,
  codes, length,
}
use httpx.Sse.Lines.{size}
use httpx.WebSocket.{
  Kind, text, binary, Event, message, ping, pong, close_connection, other, disconnect,
  network_error, event, failure, Protocol, Session, internal_error, message_too_big, put, ack,
  write, close, send_ping,
}

-- len of the encoded data
unfoldable pub message_size : Kind → Str → ℕ
unfolding size
message_size text t = size t
message_size binary b = length b

-- `partial_message_buffer` with the type of its content, and `partial_message_size`.
pub record Partial : Type 0 where
  pub buffer : Option (Kind × Str)
  pub filled : ℕ

abbrev pub no_partial : Partial
no_partial = record { buffer = none; filled = 0 }

-- How the handling of an event goes on: to the next event; out of the loop over the events; to the
-- handler of stream errors; or by an exception that ends the thread.
pub data Flow (W : Type 0) : Type 0 where
  continues breaks : Partial → Session W → Flow W
  stream_error crashes : Session W → Flow W

-- `buffer + data`, which raises a TypeError for data of another type.
unfoldable pub extend : Option (Kind × Str) → Kind → Str → Option Str
extend none k t = some t
extend (some (text, b)) text t = some (b ++ t)
extend (some (text, b)) binary t = none
extend (some (binary, b)) binary t = some (b ++ t)
extend (some (binary, b)) text t = none

-- What a read gives: bytes, none of them at the end of the stream; an error; or that the session
-- was closed while it waited.
pub data Read : Type 0 where
  chunk : Str → Read
  read_error closed_meanwhile : Read

-- How the thread stands after some reads: waiting for the next, stopped, or ended by an exception.
pub data Thread (W : Type 0) : Type 0 where
  waiting : Partial → Session W → Thread W
  stopped crashed : Session W → Thread W

module _ {W : Type 0} where
  -- A message that is within the limit, with the new size.
  unfoldable pub take_message : Kind → Str → Bool → ℕ → Partial → Session W → Flow W
  unfolding extend put
  take_message k t finished n part s = elim (extend part.buffer k t) [
    | none ↦ crashes s
    | some full ↦
        if finished
        then continues no_partial (put (event (message k full true)) s)
        else continues (record { buffer = some (k, full); filled = n }) s
  ]

module _ {W : Type 0} (protocol : Protocol W) (fails : Bool → List Str → Bool) (max_bytes : ℕ) where
  open protocol use {send, receive_data}

  unfoldable pub on_message : Kind → Str → Bool → Partial → Session W → Flow W
  unfolding message_size take_message close put
  on_message k t finished part s =
      let n = part.filled + message_size k t in
      if ltb max_bytes n
      then breaks (record part { filled = n })
          (put (failure (disconnect message_too_big (codes "Message too big")))
            (close protocol fails message_too_big (codes "Message too big") s))
      else take_message k t finished n part s

  unfoldable pub on_ping : Str → Partial → Session W → Flow W
  unfolding write
  on_ping payload part s = elim (send s.connection (pong payload)) [
    | none ↦ crashes s
    | some (bytes, w) ↦
        let (done, s') = write protocol fails bytes (record s { connection = w }) in
        if done then continues part s' else stream_error s'
  ]

  unfoldable pub handle_event : Event → Partial → Session W → Flow W
  unfolding on_message on_ping ack put
  handle_event (message k t finished) part s = on_message k t finished part s
  handle_event (ping payload) part s = on_ping payload part s
  handle_event (pong payload) part s = continues part (ack payload s)
  handle_event (close_connection code reason) part s =
      continues part (put (event (close_connection code reason)) (record s { should_close = true }))
  handle_event (other n) part s = continues part (put (event (other n)) s)

  -- The loop over the events of one read.
  unfoldable pub handle_events : List Event → Partial → Session W → Flow W
  unfolding handle_event
  handle_events [] part s = continues part s
  handle_events (e ∷ es) part s = elim (handle_event e part s) [
    | continues part' s' ↦ handle_events es part' s'
    | breaks part' s' ↦ breaks part' s'
    | stream_error s' ↦ stream_error s'
    | crashes s' ↦ crashes s'
  ]

  -- The handler of stream errors.
  unfoldable pub fail_stream : Session W → Session W
  unfolding close put
  fail_stream s =
      put (failure network_error) (close protocol fails internal_error (codes "Stream error") s)

  unfoldable pub background_receive : List Read → Partial → Session W → Thread W
  unfolding handle_events fail_stream
  background_receive [] part s = if s.should_close then stopped s else waiting part s
  background_receive (r ∷ rs) part s = if s.should_close then stopped s else elim r [
    | closed_meanwhile ↦ stopped (record s { should_close = true })
    | read_error ↦ stopped (fail_stream s)
    | chunk [] ↦ stopped (fail_stream s)
    | chunk (b ∷ bs) ↦
        let (es, w) = receive_data s.connection (b ∷ bs) in
        elim (handle_events es part (record s { connection = w })) [
          | continues part' s' ↦ background_receive rs part' s'
          | breaks part' s' ↦ background_receive rs part' s'
          | stream_error s' ↦ stopped (fail_stream s')
          | crashes s' ↦ crashed s'
        ]
  ]

  -- A round of `_background_keepalive_ping` after its interval: whether the thread goes on, and the
  -- session. `answer` says whether the pong came in time; none that there is no timeout.
  unfoldable pub keepalive_round : Str → Option Bool → Session W → Bool × Session W
  unfolding send_ping close put
  keepalive_round random answer s =
      if s.should_close
      then (false, s)
      else (let ((r, callback), s') = send_ping protocol fails random [] s in
          elim r [
            | some e ↦ (false, s')
            | none ↦ elim answer [
              | none ↦ (true, s')
              | some true ↦ (true, s')
              | some false ↦ (
                true,
                put (failure network_error)
                    (close protocol fails internal_error (codes "Keepalive ping timeout") s'),
              )
            ]
          ])
