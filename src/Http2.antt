-- ===== src/Http2.antt =====
-- httpcore2/httpcore2/_sync/http2.py: the state of an HTTP/2 connection and the admission of
-- requests to streams. The protocol state machine (`h2`) and the socket are not in the
-- repository: stream ids, settings and events enter as arguments.
pub mod Permits
pub mod Runs
pub mod Frames
use httpx.Prelude.{
  ℕ, zero, suc, ◌+◌, ◌-◌, Bool, true, false, not, ◌&&◌, ◌||◌, Option, none, some, List, [], ◌∷◌,
  ◌++◌, if◌then◌else◌, ltb, leb, ◌==◌, Str, length, min,
}
use httpx.Origin.{Origin, origin_eq}

pub data State : Type 0 where
  active idle closed : State

abbrev pub is_idle_state : State → Bool
is_idle_state idle = true
is_idle_state _ = false

abbrev pub is_closed_state : State → Bool
is_closed_state closed = true
is_closed_state _ = false

-- The events of one stream.
pub data StreamEvent : Type 0 where
  response_received : List (Str × Str) → StreamEvent
  data_received : Str → StreamEvent
  stream_ended stream_reset : StreamEvent

-- `self._events`: stream ids with the events that wait for their readers.
abbrev pub Events : Type 0
Events = List (ℕ × List StreamEvent)

-- `permits` is the value of the semaphore. `waking` counts the tasks that have a permit and have
-- not yet looked at the deficit, and `admitted` those that passed and have no stream id yet.
pub record Http2 : Type 0 where
  pub origin : Origin
  pub keepalive_expiry : Option ℕ
  pub expire_at : Option ℕ
  pub state : State
  pub request_count : ℕ
  pub used_all_stream_ids : Bool
  pub connection_error : Bool
  pub events : Events
  pub terminated : Option ℕ
  pub local_max_streams : ℕ
  pub max_streams : ℕ
  pub max_streams_deficit : ℕ
  pub permits : ℕ
  pub waking : ℕ
  pub admitted : ℕ

pub data Error : Type 0 where
  runtime_error connection_not_available remote_protocol_error : Error

pub data Result {ℓ} (A : Type ℓ) : Type ℓ where
  ok : A → Result A
  err : Error → Result A

-- A connection after `__init__`, with the stream limits that the first request sets up: of
-- `local_max` permits all but one are taken again.
unfoldable pub create : Origin → Option ℕ → ℕ → Http2
create o expiry local_max = record {
  origin = o;
  keepalive_expiry = expiry;
  expire_at = none;
  state = idle;
  request_count = 0;
  used_all_stream_ids = false;
  connection_error = false;
  events = [];
  terminated = none;
  local_max_streams = local_max;
  max_streams = 1;
  max_streams_deficit = 0;
  permits = local_max - (local_max - 1);
  waking = 0;
  admitted = 0;
}

unfoldable pub close : Http2 → Http2
close c = record c { state = closed }

-- The first section of `handle_request` under the state lock.
unfoldable pub begin_request : Origin → Http2 → Result Http2
begin_request o c =
    if not (origin_eq o c.origin)
    then err runtime_error
    else if is_closed_state c.state
    then err connection_not_available
    else ok (record c { request_count = c.request_count + 1; expire_at = none; state = active })

-- `self._max_streams_semaphore.acquire()`; `none` while it blocks.
unfoldable pub acquire : Http2 → Option Http2
acquire c =
    if ltb 0 c.permits
    then some (record c { permits = c.permits - 1; waking = c.waking + 1 })
    else none

-- The test of the deficit after it: the request is admitted, or gives its permit up.
unfoldable pub pass_deficit : Http2 → Http2
pass_deficit c =
    if c.max_streams_deficit == 0
    then record c { waking = c.waking - 1; admitted = c.admitted + 1 }
    else record c { waking = c.waking - 1; max_streams_deficit = c.max_streams_deficit - 1 }

-- The stream id, or `none` for `NoAvailableStreamIDError`.
unfoldable pub open_stream : Option ℕ → Http2 → Result Http2 × Http2
open_stream (some id) c =
    let c' = record c { admitted = c.admitted - 1; events = (id, []) ∷ c.events } in (ok c', c')
open_stream none c = (
  err connection_not_available,
  record c {
    used_all_stream_ids = true;
    request_count = c.request_count - 1;
    admitted = c.admitted - 1;
    permits = c.permits + 1;
  },
)

abbrev pub has_stream : ℕ → Events → Bool
has_stream id [] = false
has_stream id ((j, q) ∷ es) = id == j || has_stream id es

-- `del self._events[stream_id]`
abbrev pub del_stream : ℕ → Events → Events
del_stream id [] = []
del_stream id ((j, q) ∷ es) = let rest = del_stream id es in if id == j then es else (j, q) ∷ rest

-- A permit comes back: it pays off the deficit first.
unfoldable pub give_back : Http2 → Http2
give_back c =
    if ltb 0 c.max_streams_deficit
    then record c { max_streams_deficit = c.max_streams_deficit - 1 }
    else record c { permits = c.permits + 1 }

-- The end of `_response_closed`: what becomes of the connection without open streams.
unfoldable pub settle : ℕ → Http2 → Http2
unfolding close
settle now c = elim c.events [
  | _ ∷ _ ↦ c
  | [] ↦ elim c.terminated [
    | some _ ↦ close c
    | none ↦ elim c.state [
      | active ↦
          let c' = record c {
            state = idle;
            expire_at = elim c.keepalive_expiry [ none ↦ c.expire_at | some k ↦ some (now + k) ];
          } in
          if c.used_all_stream_ids then close c' else c'
      | idle ↦ c
      | closed ↦ c
    ]
  ]
]

-- The start of `_response_closed`: an open stream is dropped, and its permit comes back.
unfoldable pub release_stream : ℕ → Http2 → Http2
unfolding give_back
release_stream id c =
    if has_stream id c.events
    then (let c' = give_back c in record c' { events = del_stream id c.events })
    else c

unfoldable pub response_closed : ℕ → ℕ → Http2 → Http2
unfolding release_stream settle
response_closed id now c = settle now (release_stream id c)

-- One round of each loop of `_receive_remote_settings_change`.
unfoldable pub raise_limit : Http2 → Http2
unfolding give_back
raise_limit c = let c' = give_back c in record c' { max_streams = c.max_streams + 1 }

unfoldable pub lower_limit : Http2 → Http2
lower_limit c =
    if ltb 0 c.permits
    then record c { permits = c.permits - 1; max_streams = c.max_streams - 1 }
    else record c {
      max_streams_deficit = c.max_streams_deficit + 1;
      max_streams = c.max_streams - 1;
    }

-- The two loops, with a number of rounds at most.
unfoldable pub raise_loop : ℕ → ℕ → Http2 → Http2
unfolding raise_limit
raise_loop zero new c = c
raise_loop (suc n) new c =
    let rest = raise_loop n new (raise_limit c) in if ltb c.max_streams new then rest else c

unfoldable pub lower_loop : ℕ → ℕ → Http2 → Http2
unfolding lower_limit
lower_loop zero new c = c
lower_loop (suc n) new c =
    let rest = lower_loop n new (lower_limit c) in if ltb new c.max_streams then rest else c

-- `_receive_remote_settings_change`; `none` says that the settings do not name the limit.
unfoldable pub receive_remote_settings_change : Option ℕ → Http2 → Http2
unfolding raise_loop lower_loop
receive_remote_settings_change none c = c
receive_remote_settings_change (some value) c =
    let new = min value c.local_max_streams in
    if new == 0 || new == c.max_streams
    then c
    else lower_loop c.max_streams new (raise_loop new new c)

-- What the pool asks. `h2_closed` says that the protocol state machine is closed.
unfoldable pub is_closed : Http2 → Bool
is_closed c = is_closed_state c.state

unfoldable pub is_connected : Http2 → Bool
unfolding is_closed
is_connected c = not (is_closed c)

unfoldable pub is_idle : Http2 → Bool
is_idle c = is_idle_state c.state

unfoldable pub is_available : Bool → Http2 → Bool
is_available h2_closed c =
    not (is_closed_state c.state)
    && (not c.connection_error && (not c.used_all_stream_ids && not h2_closed))

unfoldable pub has_expired : ℕ → Http2 → Bool
has_expired now c = elim c.expire_at [ none ↦ false | some t ↦ ltb t now ]

unfoldable pub can_multiplex : Http2 → Bool
can_multiplex c = true
