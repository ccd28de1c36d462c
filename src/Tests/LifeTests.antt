-- ===== src/Tests/LifeTests.antt =====
-- The life of a client and of its responses at concrete inputs.
use httpx.Prelude.{◌≡◌, refl, true, false, [], ◌∷◌, ◌==◌, arith}
use httpx.Client.{Script, built, flow_raises, World, send, raised}
use httpx.Client.Release.{IsClean, send-IsClean}

-- The first request is redirected, and the authentication flow raises after the second.
abbrev script : Script
script = record {
  auth_starts = true;
  request_hooks = λ n. true;
  transport_returns = λ n. true;
  response_hooks = λ n. true;
  has_redirect_location = λ n. n == 4;
  build_redirect = λ n. built;
  reads = λ n. true;
  auth_step = λ n. flow_raises;
}

-- Four requests were sent before, and one response is still open.
abbrev world : World
world = record { sent = 4; open_responses = 2 ∷ [] }

send-IsClean_example : IsClean script 20 true false (2 ∷ []) (send script 20 true 3 22 false world)
send-IsClean_example = send-IsClean script 20 true 3 22 false world (omega arith, tt)

flow_fails :
    send script 20 true 3 22 false world ≡ raised (record { sent = 6; open_responses = 2 ∷ [] })
unfolding send
flow_fails = refl
