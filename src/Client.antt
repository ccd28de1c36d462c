-- ===== src/Client.antt =====
-- `Client` in httpx2/httpx2/_client.py: its state, and the responses that are open while it sends a
-- request with authentication and redirects. What a request and a response contain is in Redirects
-- and Auth; here each step succeeds or raises as a test on the number of the request says.
pub mod Life
pub mod Release
use httpx.Prelude.{
  ℕ, zero, suc, ◌+◌, Bool, true, false, not, Option, none, some, List, [], ◌∷◌, ◌++◌, if◌then◌else◌,
  ◌==◌, ltb,
}

pub data ClientState : Type 0 where
  unopened opened closed : ClientState

-- The client. `transports` refers to its own transport and then to those of the mounts that have
-- one; an object that is mounted under several patterns stands there as often. The calls of their
-- methods are logged in order.
pub record Client : Type 0 where
  pub state : ClientState
  pub transports : List ℕ
  pub entered : List ℕ
  pub closes : List ℕ
  pub exits : List ℕ

unfoldable pub create : List ℕ → Client
create transports = record {
  state = unopened;
  transports = transports;
  entered = [];
  closes = [];
  exits = [];
}

unfoldable pub enter_all : Client → Client
enter_all c = record c { entered = c.entered ++ c.transports }

unfoldable pub close_all : Client → Client
close_all c = record c { closes = c.closes ++ c.transports }

unfoldable pub exit_all : Client → Client
exit_all c = record c { exits = c.exits ++ c.transports }

unfoldable pub close : Client → Client
unfolding close_all
close c = elim c.state [
  | unopened ↦ close_all (record c { state = closed })
  | opened ↦ close_all (record c { state = closed })
  | closed ↦ c
]

-- `__enter__`: whether it raises, and the client.
unfoldable pub enter : Client → Bool × Client
unfolding enter_all
enter c = elim c.state [
  | unopened ↦ (false, enter_all (record c { state = opened }))
  | opened ↦ (true, c)
  | closed ↦ (true, c)
]

-- `__exit__`
unfoldable pub exit : Client → Client
unfolding exit_all
exit c = exit_all (record c { state = closed })

-- The state that `send` leaves; none if it raises because the client is closed.
unfoldable pub begin_send : Client → Option Client
begin_send c = elim c.state [
  | unopened ↦ some (record c { state = opened })
  | opened ↦ some (record c { state = opened })
  | closed ↦ none
]

-- How `_build_redirect_request` ends.
pub data Built : Type 0 where
  built remote_protocol_error other_error : Built

-- What the authentication flow does with a response.
pub data AuthStep : Type 0 where
  stops another_request flow_raises : AuthStep

-- The outcome of each step of the n-th request that the client sends.
pub record Script : Type 0 where
  pub auth_starts : Bool
  pub request_hooks : ℕ → Bool
  pub transport_returns : ℕ → Bool
  pub response_hooks : ℕ → Bool
  pub has_redirect_location : ℕ → Bool
  pub build_redirect : ℕ → Built
  pub reads : ℕ → Bool
  pub auth_step : ℕ → AuthStep

-- The requests sent so far, and the responses that are open, each by the number of its request.
pub record World : Type 0 where
  pub sent : ℕ
  pub open_responses : List ℕ

pub data Outcome : Type 0 where
  returned : ℕ → World → Outcome
  raised out_of_fuel : World → Outcome

unfoldable pub del : ℕ → List ℕ → List ℕ
del n [] = []
del n (m ∷ ms) = let rest = del n ms in if m == n then rest else m ∷ rest

-- response.close(), and the closing at the end of response.read()
unfoldable pub close_response : ℕ → World → World
unfolding del
close_response n w = record w { open_responses = del n w.open_responses }

abbrev pub open_next : World → World
open_next w = record { sent = w.sent + 1; open_responses = w.sent ∷ w.open_responses }

module _ (script : Script) (max_redirects : ℕ) (follow : Bool) where
  open script use {
    auth_starts, request_hooks, transport_returns, response_hooks, has_redirect_location,
    build_redirect, reads, auth_step,
  }

  -- A response that is a redirect and is not followed.
  unfoldable pub keep_redirect : ℕ → World → Outcome
  unfolding close_response
  keep_redirect n w = elim (build_redirect n) [
    | built ↦ returned n w
    | remote_protocol_error ↦ returned n w
    | other_error ↦ raised (close_response n w)
  ]

  -- `_send_handling_redirects` from a number of responses in the history.
  unfoldable pub send_handling_redirects : ℕ → ℕ → World → Outcome
  unfolding keep_redirect close_response
  send_handling_redirects zero history w = out_of_fuel w
  send_handling_redirects (suc fuel) history w =
      let n = w.sent in
      let next = send_handling_redirects fuel (history + 1) (close_response n (open_next w)) in
      if ltb max_redirects history
      then raised w
      else if not (request_hooks n)
      then raised w
      else if not (transport_returns n)
      then raised (record w { sent = n + 1 })
      else if not (response_hooks n)
      then raised (close_response n (open_next w))
      else if not (has_redirect_location n)
      then returned n (open_next w)
      else if not follow
      then keep_redirect n (open_next w)
      else elim (build_redirect n) [
        | remote_protocol_error ↦ raised (close_response n (open_next w))
        | other_error ↦ raised (close_response n (open_next w))
        | built ↦ if reads n then next else raised (close_response n (open_next w))
      ]

  -- The loop of `_send_handling_auth`; `rounds` bounds the requests of the flow, and `fuel` those
  -- of each loop of redirects.
  unfoldable pub auth_loop : ℕ → ℕ → ℕ → World → Outcome
  unfolding send_handling_redirects close_response
  auth_loop zero fuel history w = out_of_fuel w
  auth_loop (suc rounds) fuel history w = elim (send_handling_redirects fuel history w) [
    | raised w' ↦ raised w'
    | out_of_fuel w' ↦ out_of_fuel w'
    | returned n w' ↦ elim (auth_step n) [
      | stops ↦ returned n w'
      | flow_raises ↦ raised (close_response n w')
      | another_request ↦
          if reads n
          then auth_loop rounds fuel (history + 1) (close_response n w')
          else raised (close_response n w')
    ]
  ]

  unfoldable pub send_handling_auth : ℕ → ℕ → World → Outcome
  unfolding auth_loop
  send_handling_auth rounds fuel w = if auth_starts then auth_loop rounds fuel 0 w else raised w

  -- `send` of an open client, where `stream` says that the response is not read.
  unfoldable pub send : ℕ → ℕ → Bool → World → Outcome
  unfolding send_handling_auth close_response
  send rounds fuel stream w = elim (send_handling_auth rounds fuel w) [
    | raised w' ↦ raised w'
    | out_of_fuel w' ↦ out_of_fuel w'
    | returned n w' ↦
        if stream
        then returned n w'
        else if reads n
        then returned n (close_response n w')
        else raised (close_response n w')
  ]
