-- ===== src/Http11/Exchange.antt =====
-- One exchange at a time on an HTTP/1.1 connection, and the state that each ending leaves.
use mathlib.Core.List.{map}
use httpx.Prelude.{
  All, ℕ, ◌+◌, ◌≡◌, ◌≢◌, refl, Bool, true, Option, none, some, List, [], ◌∷◌, ◌++◌, if◌then◌else◌,
  arith, ◌⊎◌, inl, inr,
}
use httpx.Origin.{Origin, origin_eq_iff}
use httpx.Http11.{
  active, idle, closed, accepts, Http11, Result, ok, err, Error, runtime_error,
  connection_not_available, raised, Sent, Event, exchange, sent, write_error, send_raised,
  handle_request, response_closed, receive_response_headers, response, informational,
}

received :
    {c c' : Http11} {r : Result (ℕ × List Event)} (done : Bool) (now : ℕ)
    (got : Option (Result (ℕ × List Event)))
    → ◌≡◌ {A = Option (Result (ℕ × List Event) × Http11)}
        (elim got [
          | none ↦ none
          | some (ok r) ↦ some (ok r, c)
          | some (err e) ↦ some (err e, response_closed done now c)
        ])
        (some (r, c'))
    → (((p : ℕ × List Event) × (r ≡ ok p)) × (c' ≡ c))
      ⊎ (((e : Error) × (r ≡ err e)) × (c' ≡ response_closed done now c))
received done now none h = cc
received done now (some (ok p)) h = inl ((p, ground arith), ground arith)
received done now (some (err e)) h = inr ((e, ground arith), ground arith)

-- What a finished exchange leaves: the connection as it was on success, else closed or idle.
exchange-cases :
    (s : Sent) (es : List Event) (done : Bool) (now : ℕ) (c c' : Http11)
    (r : Result (ℕ × List Event))
    → exchange s es done now c ≡ some (r, c')
    → (((p : ℕ × List Event) × (r ≡ ok p)) × (c' ≡ c))
      ⊎ (((e : Error) × (r ≡ err e)) × (c' ≡ response_closed done now c))
unfolding exchange
exchange-cases sent es done now c c' r h = received done now (receive_response_headers es) h
exchange-cases write_error es done now c c' r h = received done now (receive_response_headers es) h
exchange-cases (send_raised e) es done now c c' r h = inr ((raised e, ground arith), ground arith)

-- While a response is open, any further request is turned away and changes nothing.
pub handle_request-active :
    (o o' : Origin) (s s' : Sent) (es es' rest : List Event) (done done' : Bool) (now now' n : ℕ)
    (c c' : Http11)
    → handle_request o s es done now c ≡ some (ok (n, rest), c')
    → o' ≡ c.origin
    → handle_request o' s' es' done' now' c' ≡ some (err connection_not_available, c')
unfolding handle_request
handle_request-active o o' s s' es es' rest done done' now now' n c c' h e = ground (
  arith,
  origin_eq_iff o' c.origin,
  exchange-cases s es done now
      (record c { request_count = c.request_count + 1; state = active; expire_at = none }) c'
      (ok (n, rest)),
)

-- A request that fails after it was accepted leaves the connection idle if both sides of the
-- exchange were done, and closed if not; one that was refused for its origin or for the connection's state leaves it as it was.
pub handle_request-failed :
    (o : Origin) (s : Sent) (es : List Event) (done : Bool) (now : ℕ) (e : Error) (c c' : Http11)
    → handle_request o s es done now c ≡ some (err e, c')
    → ((accepts c.state ≡ true)
        × (c'.state ≡ (if done then idle else closed))
        × (c'.request_count ≡ c.request_count + 1))
      ⊎ (((e ≡ runtime_error) ⊎ (e ≡ connection_not_available)) × (c' ≡ c))
unfolding handle_request
handle_request-failed o s es done now e c c' h = ground (
  arith,
  exchange-cases s es done now
      (record c { request_count = c.request_count + 1; state = active; expire_at = none }) c'
      (err e),
)

-- Interim responses are read past, whatever their number: the first final response is returned,
-- with the events after it.
pub receive_response_headers-interim :
    (codes' : List ℕ) (status : ℕ) (rest : List Event)
    → All (λ n. n ≢ 101) codes'
    → receive_response_headers (map informational codes' ++ response status ∷ rest)
      ≡ some (ok (status, rest))
unfolding receive_response_headers
receive_response_headers-interim [] status rest h = refl
receive_response_headers-interim (n ∷ ns) status rest h =
    ground (arith, receive_response_headers-interim ns status rest h.1)
