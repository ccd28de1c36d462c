-- ===== src/WebSocket.antt =====
-- httpx2/httpx2/websockets/_api.py and _ping.py: a session over an upgraded connection. `wsproto`
-- and the socket are not in the repository, and enter as parameters.
pub mod Background
pub mod Messages
pub mod Bounds
pub mod Closing
use httpx.Prelude.{
  ℕ, ◌+◌, Bool, true, false, not, Option, none, some, List, [], ◌∷◌, ◌++◌, if◌then◌else◌, Str,
  codes, str_eq,
}

pub data Kind : Type 0 where
  text binary : Kind

-- The events of `wsproto` that the session tells apart; the Boolean is `message_finished`.
pub data Event : Type 0 where
  message : Kind → Str → Bool → Event
  ping pong : Str → Event
  close_connection : ℕ → Str → Event
  other : ℕ → Event

-- The exceptions of _exceptions.py, and the others that a call can raise.
pub data Raised : Type 0 where
  disconnect : ℕ → Str → Raised
  network_error timeout_error local_protocol_error : Raised
  invalid_type_received : Event → Raised

-- What stands in the queue of the session.
pub data Item : Type 0 where
  event : Event → Item
  failure : Raised → Item

-- What the session uses of a connection of `wsproto`: `send` gives `none` for a LocalProtocolError,
-- and a close is accepted in each state in which the session sends one.
pub record Protocol (W : Type 0) : Type 0 where
  pub send : W → Event → Option (Str × W)
  pub send_close : W → ℕ → Str → Str × W
  pub receive_data : W → Str → List Event × W
  pub is_closing : W → Bool

pub record Session (W : Type 0) : Type 0 where
  pub connection : W
  pub should_close : Bool
  pub written : List Str
  pub stream_closed : Bool
  pub events : List Item
  pub pings : List (Str × ℕ)
  pub acknowledged : List ℕ
  pub next_callback : ℕ

abbrev pub internal_error : ℕ
internal_error = 1011

abbrev pub message_too_big : ℕ
message_too_big = 1009

-- `__init__`
unfoldable pub create : {W : Type 0} → W → Session W
create w = record {
  connection = w;
  should_close = false;
  written = [];
  stream_closed = false;
  events = [];
  pings = [];
  acknowledged = [];
  next_callback = 0;
}

-- `self._events.put`
unfoldable pub put : {W : Type 0} → Item → Session W → Session W
put item s = record s { events = s.events ++ item ∷ [] }

abbrev is_empty : Str → Bool
is_empty [] = true
is_empty (c ∷ cs) = false

unfoldable pub del_ping : Str → List (Str × ℕ) → List (Str × ℕ)
del_ping id [] = []
del_ping id ((j, e) ∷ ps) = let rest = del_ping id ps in if str_eq j id then rest else (j, e) ∷ rest

unfoldable pub find_ping : Str → List (Str × ℕ) → Option ℕ
find_ping id [] = none
find_ping id ((j, e) ∷ ps) = let rest = find_ping id ps in if str_eq j id then some e else rest

-- `PingManager.create`: the callback is a number, and an empty payload gets a random one.
unfoldable pub create_ping : {W : Type 0} → Str → Str → Session W → (Str × ℕ) × Session W
unfolding del_ping
create_ping random payload s =
    let id = if is_empty payload then random else payload in
    (
      (id, s.next_callback),
      record s {
        pings = (id, s.next_callback) ∷ del_ping id s.pings;
        next_callback = s.next_callback + 1;
      },
    )

-- `PingManager.ack`
unfoldable pub ack : {W : Type 0} → Str → Session W → Session W
unfolding del_ping find_ping
ack id s = elim (find_ping id s.pings) [
  | none ↦ s
  | some e ↦ record s { pings = del_ping id s.pings; acknowledged = e ∷ s.acknowledged }
]

-- `fails` says which writes raise a WriteError: from whether the stream is closed, and from what
-- was written before.
module _ {W : Type 0} (protocol : Protocol W) (fails : Bool → List Str → Bool) where
  open protocol use {is_closing, send_close}

  -- `self.stream.write`, and whether it was done.
  unfoldable pub write : Str → Session W → Bool × Session W
  write bytes s =
      if fails s.stream_closed s.written
      then (false, s)
      else (true, record s { written = s.written ++ bytes ∷ [] })

  -- The close frame, unless one was sent; an error in writing it is passed over.
  unfoldable pub say_close : ℕ → Str → Session W → Session W
  unfolding write
  say_close code reason s =
      if is_closing s.connection
      then s
      else (let (bytes, w) = send_close s.connection code reason in
          (write bytes (record s { connection = w })).1)

  unfoldable pub close : ℕ → Str → Session W → Session W
  unfolding say_close
  close code reason s = record (say_close code reason (record s { should_close = true })) {
    stream_closed = true;
  }

  -- `send`: what it raises, and the session after it.
  unfoldable pub send : Event → Session W → Option Raised × Session W
  unfolding write close
  send e s = elim (protocol.send s.connection e) [
    | none ↦ (some local_protocol_error, s)
    | some (bytes, w) ↦
        let (done, s') = write bytes (record s { connection = w }) in
        if done
        then (none, s')
        else (some network_error, close internal_error (codes "Stream write error") s')
  ]

  unfoldable pub send_text : Str → Session W → Option Raised × Session W
  unfolding send
  send_text t s = send (message text t true) s

  unfoldable pub send_bytes : Str → Session W → Option Raised × Session W
  unfolding send
  send_bytes b s = send (message binary b true) s

  -- `ping`, with the random id
  unfoldable pub send_ping : Str → Str → Session W → (Option Raised × ℕ) × Session W
  unfolding send create_ping
  send_ping random payload s =
      let ((id, callback), s') = create_ping random payload s in
      let (r, s'') = send (ping id) s' in ((r, callback), s'')

pub data Received (A : Type 0) : Type 0 where
  got : A → Received A
  raised : Raised → Received A

-- What `receive` makes of what it takes from the queue.
unfoldable pub open_item : Item → Received Event
open_item (failure r) = raised r
open_item (event (close_connection code reason)) = raised (disconnect code reason)
open_item (event (message k t f)) = got (message k t f)
open_item (event (ping p)) = got (ping p)
open_item (event (pong p)) = got (pong p)
open_item (event (other n)) = got (other n)

-- `receive` with a timeout that passes when nothing is there; without one it waits.
unfoldable pub receive : {W : Type 0} → Session W → Received Event × Session W
unfolding open_item
receive s = elim s.events [
  | [] ↦ (raised timeout_error, s)
  | item ∷ items ↦ (open_item item, record s { events = items })
]

unfoldable pub as_text : Received Event → Received Str
as_text (raised r) = raised r
as_text (got (message text t f)) = got t
as_text (got (message binary t f)) = raised (invalid_type_received (message binary t f))
as_text (got (ping p)) = raised (invalid_type_received (ping p))
as_text (got (pong p)) = raised (invalid_type_received (pong p))
as_text (got (close_connection c r)) = raised (invalid_type_received (close_connection c r))
as_text (got (other n)) = raised (invalid_type_received (other n))

unfoldable pub as_bytes : Received Event → Received Str
as_bytes (raised r) = raised r
as_bytes (got (message binary t f)) = got t
as_bytes (got (message text t f)) = raised (invalid_type_received (message text t f))
as_bytes (got (ping p)) = raised (invalid_type_received (ping p))
as_bytes (got (pong p)) = raised (invalid_type_received (pong p))
as_bytes (got (close_connection c r)) = raised (invalid_type_received (close_connection c r))
as_bytes (got (other n)) = raised (invalid_type_received (other n))

unfoldable pub receive_text : {W : Type 0} → Session W → Received Str × Session W
unfolding receive as_text
receive_text s = let (r, s') = receive s in (as_text r, s')

unfoldable pub receive_bytes : {W : Type 0} → Session W → Received Str × Session W
unfolding receive as_bytes
receive_bytes s = let (r, s') = receive s in (as_bytes r, s')
