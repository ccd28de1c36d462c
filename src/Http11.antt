-- ===== src/Http11.antt =====
-- httpcore2/httpcore2/_sync/http11.py. The protocol state machine (`h11`) and the socket are not
-- in the repository: what they answer enters as arguments, as events and as flags.
pub mod Exchange
use httpx.Prelude.{
  ℕ, ◌+◌, Bool, true, false, not, ◌&&◌, ◌||◌, Option, none, some, List, [], ◌∷◌, ◌++◌,
  if◌then◌else◌, ltb, leb, ◌==◌, Str, codes, str_eq,
}
use httpx.Origin.{Origin, origin_eq}

pub data State : Type 0 where
  new active idle closed : State

abbrev pub is_idle_state : State → Bool
is_idle_state idle = true
is_idle_state _ = false

abbrev pub is_closed_state : State → Bool
is_closed_state closed = true
is_closed_state _ = false

-- The states in which a request is accepted.
abbrev pub accepts : State → Bool
accepts new = true
accepts active = false
accepts idle = true
accepts closed = false

-- Times are those of `time.monotonic`, in the clock's ticks.
pub record Http11 : Type 0 where
  pub origin : Origin
  pub keepalive_expiry : Option ℕ
  pub expire_at : Option ℕ
  pub state : State
  pub request_count : ℕ

unfoldable pub create : Origin → Option ℕ → Http11
create o expiry = record {
  origin = o;
  keepalive_expiry = expiry;
  expire_at = none;
  state = new;
  request_count = 0;
}

pub data Error : Type 0 where
  runtime_error connection_not_available : Error
  -- what the sending and the receiving code raised
  raised : ℕ → Error

pub data Result {ℓ} (A : Type ℓ) : Type ℓ where
  ok : A → Result A
  err : Error → Result A

unfoldable pub close : Http11 → Http11
close c = record c { state = closed }

-- `_response_closed`: `done` says that both sides of the exchange are `h11.DONE`.
unfoldable pub response_closed : Bool → ℕ → Http11 → Http11
unfolding close
response_closed done now c =
    if done
    then record c {
      state = idle;
      expire_at = elim c.keepalive_expiry [ none ↦ c.expire_at | some k ↦ some (now + k) ];
    }
    else close c

unfoldable pub can_handle_request : Http11 → Origin → Bool
can_handle_request c o = origin_eq o c.origin

-- The section of `handle_request` under the state lock.
unfoldable pub begin_request : Origin → Http11 → Result Http11
unfolding can_handle_request
begin_request o c =
    if not (can_handle_request c o)
    then err runtime_error
    else if accepts c.state
    then ok (record c { request_count = c.request_count + 1; state = active; expire_at = none })
    else err connection_not_available

-- How the sending of the headers and the body ended.
pub data Sent : Type 0 where
  sent write_error : Sent
  send_raised : ℕ → Sent

-- What `_receive_event` returns to the loops that read a response, or that it raised.
pub data Event : Type 0 where
  response informational : ℕ → Event
  body_data : Str → Event
  end_of_message paused other : Event
  receive_raised : ℕ → Event

-- `_receive_response_headers`: the status, and the events that are left. `none` says that the
-- loop still waits for an event.
unfoldable pub receive_response_headers : List Event → Option (Result (ℕ × List Event))
receive_response_headers [] = none
receive_response_headers (response s ∷ es) = some (ok (s, es))
receive_response_headers (informational s ∷ es) =
    let rest = receive_response_headers es in if s == 101 then some (ok (s, es)) else rest
receive_response_headers (receive_raised e ∷ es) = some (err (raised e))
receive_response_headers (_ ∷ es) = receive_response_headers es

-- `_receive_response_body`: the chunks it yields, and whether it ended with the message.
unfoldable pub receive_response_body : List Event → List Str × Bool
receive_response_body [] = ([], false)
receive_response_body (body_data d ∷ es) =
    let rest = receive_response_body es in (d ∷ rest.0, rest.1)
receive_response_body (end_of_message ∷ es) = ([], true)
receive_response_body (paused ∷ es) = ([], true)
receive_response_body (receive_raised e ∷ es) = ([], false)
receive_response_body (_ ∷ es) = receive_response_body es

-- CONNECT and Upgrade responses get a stream that starts with the trailing data.
unfoldable pub is_upgrade : Str → ℕ → Bool
is_upgrade method status =
    status == 101 || (str_eq method (codes "CONNECT") && (leb 200 status && ltb status 300))

-- `handle_request` after the lock: an error anywhere closes the exchange before it is raised, and a
-- `WriteError` alone is no error.
unfoldable pub exchange :
    Sent → List Event → Bool → ℕ → Http11 → Option (Result (ℕ × List Event) × Http11)
unfolding response_closed receive_response_headers
exchange (send_raised e) es done now c = some (err (raised e), response_closed done now c)
exchange _ es done now c = elim (receive_response_headers es) [
  | none ↦ none
  | some (ok r) ↦ some (ok r, c)
  | some (err e) ↦ some (err e, response_closed done now c)
]

unfoldable pub handle_request :
    Origin → Sent → List Event → Bool → ℕ → Http11 → Option (Result (ℕ × List Event) × Http11)
unfolding begin_request exchange
handle_request o s es done now c = elim (begin_request o c) [
  | ok c' ↦ exchange s es done now c'
  | err e ↦ some (err e, c)
]

-- `HTTP11ConnectionByteStream.close`, with its `_closed` flag.
unfoldable pub stream_close : Bool → Bool → ℕ → Http11 → Bool × Http11
unfolding response_closed
stream_close true done now c = (true, c)
stream_close false done now c = (true, response_closed done now c)

-- What the pool asks.
unfoldable pub is_closed : Http11 → Bool
is_closed c = is_closed_state c.state

unfoldable pub is_connected : Http11 → Bool
unfolding is_closed
is_connected c = not (is_closed c)

unfoldable pub is_idle : Http11 → Bool
is_idle c = is_idle_state c.state

unfoldable pub is_available : Http11 → Bool
is_available c = is_idle_state c.state

-- `readable`: the socket has something to read, which on an idle connection is its end.
unfoldable pub has_expired : ℕ → Bool → Http11 → Bool
has_expired now readable c =
    elim c.expire_at [ none ↦ false | some t ↦ ltb t now ] || (is_idle_state c.state && readable)
