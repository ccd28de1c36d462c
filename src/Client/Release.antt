-- ===== src/Client/Release.antt =====
-- The responses that a client leaves open.
use httpx.Prelude.{
  ℕ, zero, suc, ◌+◌, ◌<◌, ◌≡◌, refl, ap, subst, ◌∙◌, Bool, true, false, not, List, [], ◌∷◌,
  if◌then◌else◌, ◌==◌, ltb, All, arith,
}
use httpx.Client.{
  Script, Built, built, remote_protocol_error, other_error, AuthStep, stops, another_request,
  flow_raises, World, Outcome, returned, raised, out_of_fuel, del, close_response, open_next,
  keep_redirect, send_handling_redirects, auth_loop, send_handling_auth, send,
}

-- The numbers of the responses that are open are those of requests that were sent.
abbrev pub IsNumbered : World → Type 0
IsNumbered w = All (λ m. m < w.sent) w.open_responses

del_absent : (n : ℕ) (ms : List ℕ) → All (λ m. m < n) ms → del n ms ≡ ms
unfolding del
del_absent n [] h = refl
del_absent n (m ∷ ms) h =
    let e : (m == n) ≡ false = ground arith in rw (e, del_absent n ms h.1) refl

del_latest : (n : ℕ) (ms : List ℕ) → All (λ m. m < n) ms → del n (n ∷ ms) ≡ ms
unfolding del
del_latest n ms h = let e : (n == n) ≡ true = ground arith in rw (e, del_absent n ms h) refl

All-later : (n k : ℕ) (ms : List ℕ) → n < k → All (λ m. m < n) ms → All (λ m. m < k) ms
All-later n k [] l h = tt
All-later n k (m ∷ ms) l h = (omega arith, All-later n k ms l h.1)

-- Where the responses in `before` were open before: the one that is returned is open with them, and
-- after an exception no other is.
abbrev pub IsReleased : List ℕ → Outcome → Type 0
IsReleased before (returned n w) =
    (w.open_responses ≡ n ∷ before) × All (λ m. m < n) before × (n < w.sent)
IsReleased before (raised w) = w.open_responses ≡ before
IsReleased before (out_of_fuel w) = w.open_responses ≡ before

either :
    (before : List ℕ) (b : Bool) (x y : Outcome)
    → IsReleased before x
    → IsReleased before y
    → IsReleased before (if b then x else y)
either before true x y p q = p
either before false x y p q = q

module _ (script : Script) (max_redirects : ℕ) (follow : Bool) where
  open script use {
    auth_starts, request_hooks, transport_returns, response_hooks, has_redirect_location,
    build_redirect, reads, auth_step,
  }

  closed :
      (w : World)
      → IsNumbered w
      → IsReleased w.open_responses (raised (close_response w.sent (open_next w)))
  unfolding close_response
  closed w h = del_latest w.sent w.open_responses h

  kept : (w : World) → IsNumbered w → IsReleased w.open_responses (returned w.sent (open_next w))
  kept w h = (refl, h, omega arith)

  keep_redirect-IsReleased :
      (w : World)
      → IsNumbered w
      → IsReleased w.open_responses (keep_redirect script max_redirects follow w.sent (open_next w))
  unfolding keep_redirect
  keep_redirect-IsReleased w h = from (build_redirect w.sent)
    where
      from :
          (b : Built)
          → IsReleased w.open_responses (elim b [
            | built ↦ returned w.sent (open_next w)
            | remote_protocol_error ↦ returned w.sent (open_next w)
            | other_error ↦ raised (close_response w.sent (open_next w))
          ])
      from built = kept w h
      from remote_protocol_error = kept w h
      from other_error = closed w h

  closed-IsNumbered : (w : World) → IsNumbered w → IsNumbered (close_response w.sent (open_next w))
  unfolding close_response
  closed-IsNumbered w h =
      rw (del_latest w.sent w.open_responses h)
        (All-later w.sent (w.sent + 1) w.open_responses (omega arith) h)

  moved :
      (w w' : World) (o : Outcome)
      → w'.open_responses ≡ w.open_responses
      → IsReleased w'.open_responses o
      → IsReleased w.open_responses o
  moved w w' o e h = subst (λ t. IsReleased t o) e h

  redirects-IsReleased :
      (fuel history : ℕ) (w : World)
      → IsNumbered w
      → IsReleased w.open_responses
          (send_handling_redirects script max_redirects follow fuel history w)
  unfolding send_handling_redirects
  redirects-IsReleased zero history w h = refl
  redirects-IsReleased (suc fuel) history w h =
      let before = w.open_responses in
      let n = w.sent in
      let w' = close_response n (open_next w) in
      let next = send_handling_redirects script max_redirects follow fuel (history + 1) w' in
      let goes_on =
        moved w w' next (closed w h)
          (redirects-IsReleased fuel (history + 1) w' (closed-IsNumbered w h)) in
      let shut = raised (close_response n (open_next w)) in
      let redirected = elim (build_redirect n) as (λ b. Outcome) [
        | remote_protocol_error ↦ shut
        | other_error ↦ shut
        | built ↦ if reads n then next else shut
      ] in
      let followed =
        if not follow
        then keep_redirect script max_redirects follow n (open_next w)
        else redirected in
      let located = if not (has_redirect_location n) then returned n (open_next w) else followed in
      let hooked = if not (response_hooks n) then shut else located in
      let failed = raised (record w { sent = n + 1 }) in
      let answered = if not (transport_returns n) then failed else hooked in
      either before (ltb max_redirects history) (raised w)
        (if not (request_hooks n) then raised w else answered) refl
        (either before (not (request_hooks n)) (raised w) answered refl (
          either before (not (transport_returns n)) failed hooked refl (
            either before (not (response_hooks n)) shut located (closed w h) (
              either before (not (has_redirect_location n)) (returned n (open_next w)) followed
                (kept w h)
                (either before (not follow)
                  (keep_redirect script max_redirects follow n (open_next w)) redirected
                  (keep_redirect-IsReleased w h) (from next goes_on (build_redirect n)))))))
    where
      from :
          (next : Outcome)
          → IsReleased w.open_responses next
          → (b : Built)
          → IsReleased w.open_responses (elim b [
            | remote_protocol_error ↦ raised (close_response w.sent (open_next w))
            | other_error ↦ raised (close_response w.sent (open_next w))
            | built ↦ if reads w.sent then next else raised (close_response w.sent (open_next w))
          ])
      from next g remote_protocol_error = closed w h
      from next g other_error = closed w h
      from next g built =
          either w.open_responses (reads w.sent) next (raised (close_response w.sent (open_next w)))
            g (closed w h)

  -- What follows a response that the loop of redirects returned.
  closed_after :
      (before : List ℕ) (n : ℕ) (w : World)
      → IsReleased before (returned n w)
      → IsReleased before (raised (close_response n w))
  unfolding close_response
  closed_after before n w h = ap (λ t. del n t) h.0 ∙ del_latest n before h.1

  renumbered :
      (before : List ℕ) (n : ℕ) (w : World)
      → IsReleased before (returned n w)
      → IsNumbered (close_response n w)
  unfolding close_response
  renumbered before n w h = rw (closed_after before n w h) (All-later n w.sent before h.2 h.1)

  auth_loop-IsReleased :
      (rounds fuel history : ℕ) (w : World)
      → IsNumbered w
      → IsReleased w.open_responses (auth_loop script max_redirects follow rounds fuel history w)
  unfolding auth_loop
  auth_loop-IsReleased zero fuel history w h = refl
  auth_loop-IsReleased (suc rounds) fuel history w h =
      from (send_handling_redirects script max_redirects follow fuel history w)
        (redirects-IsReleased fuel history w h)
        (λ w' k. auth_loop-IsReleased rounds fuel (history + 1) w' k)
    where
      Later : Type 0
      Later =
          (w' : World)
          → IsNumbered w'
          → IsReleased w'.open_responses
              (auth_loop script max_redirects follow rounds fuel (history + 1) w')

      stepped :
          (n : ℕ) (w' : World) (a : AuthStep)
          → IsReleased w.open_responses (returned n w')
          → Later
          → IsReleased w.open_responses (elim a [
            | stops ↦ returned n w'
            | flow_raises ↦ raised (close_response n w')
            | another_request ↦
                if reads n
                then auth_loop script max_redirects follow rounds fuel
                    (history + 1)
                    (close_response n w')
                else raised (close_response n w')
          ])
      stepped n w' stops g later = g
      stepped n w' flow_raises g later = closed_after w.open_responses n w' g
      stepped n w' another_request g later =
          let next =
            auth_loop script max_redirects follow rounds fuel (history + 1) (close_response n w') in
          either w.open_responses (reads n) next (raised (close_response n w'))
            (moved w (close_response n w') next (closed_after w.open_responses n w' g)
              (later (close_response n w') (renumbered w.open_responses n w' g)))
            (closed_after w.open_responses n w' g)

      from :
          (o : Outcome)
          → IsReleased w.open_responses o
          → Later
          → IsReleased w.open_responses (elim o [
            | raised w' ↦ raised w'
            | out_of_fuel w' ↦ out_of_fuel w'
            | returned n w' ↦ elim (auth_step n) [
              | stops ↦ returned n w'
              | flow_raises ↦ raised (close_response n w')
              | another_request ↦
                  if reads n
                  then auth_loop script max_redirects follow rounds fuel
                      (history + 1)
                      (close_response n w')
                  else raised (close_response n w')
            ]
          ])
      from (raised w') g later = g
      from (out_of_fuel w') g later = g
      from (returned n w') g later = stepped n w' (auth_step n) g later

  -- How a call of `send` may end, for the responses that were open before it.
  abbrev pub IsClean : Bool → List ℕ → Outcome → Type 0
  IsClean stream before (returned n w) = w.open_responses ≡ (if stream then n ∷ before else before)
  IsClean stream before (raised w) = w.open_responses ≡ before
  IsClean stream before (out_of_fuel w) = w.open_responses ≡ before

  cleaned :
      (b : Bool) (before : List ℕ) (n : ℕ) (w : World)
      → IsReleased before (returned n w)
      → IsClean false before
          (if b then returned n (close_response n w) else raised (close_response n w))
  cleaned true before n w h = closed_after before n w h
  cleaned false before n w h = closed_after before n w h

  -- Whichever step of a request fails, in a hook, in the transport, in a redirect, in the
  -- authentication flow or in reading: when `send` ends, every response that it opened is closed,
  -- but the one that it returns, and this one too, unless a stream was asked for.
  pub send-IsClean :
      (rounds fuel : ℕ) (stream : Bool) (w : World)
      → IsNumbered w
      → IsClean stream w.open_responses (send script max_redirects follow rounds fuel stream w)
  unfolding send send_handling_auth
  send-IsClean rounds fuel stream w h =
      ended stream
        (if auth_starts then auth_loop script max_redirects follow rounds fuel 0 w else raised w)
        (either w.open_responses auth_starts (auth_loop script max_redirects follow rounds fuel 0 w)
          (raised w) (auth_loop-IsReleased rounds fuel 0 w h) refl)
    where
      ended :
          (stream' : Bool) (o : Outcome)
          → IsReleased w.open_responses o
          → IsClean stream' w.open_responses (elim o [
            | raised w' ↦ raised w'
            | out_of_fuel w' ↦ out_of_fuel w'
            | returned n w' ↦
                if stream'
                then returned n w'
                else if reads n
                then returned n (close_response n w')
                else raised (close_response n w')
          ])
      ended stream' (raised w') g = g
      ended stream' (out_of_fuel w') g = g
      ended true (returned n w') g = g.0
      ended false (returned n w') g = cleaned (reads n) w.open_responses n w' g
