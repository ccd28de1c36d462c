-- ===== src/Tests/StreamTests.antt =====
-- HTTP/1.1 exchanges, HTTP/2 permits, retries and body decoders at concrete inputs.
use mathlib.Core.List.{flatten}
use httpx.Prelude.{
  ℕ, zero, suc, ◌+◌, ◌≤◌, ◌<◌, ◌≡◌, refl, true, false, some, none, [], ◌∷◌, codes, str_eq, arith,
  length, inr, ◌⊎◌,
}
use httpx.Origin.{Origin, origin_eq}
use httpx.Http11
use httpx.Http11.{
  Http11, Result, ok, err, sent, send_raised, raised, response, informational, end_of_message,
  handle_request, accepts, runtime_error, connection_not_available, receive_response_headers, idle,
  closed,
}
use httpx.Http11.Exchange.{handle_request-failed}
use httpx.Http2
use httpx.Http2.{Http2, pass_deficit, acquire, receive_remote_settings_change}
use httpx.Http2.Permits.{settings_set_limit}
use httpx.Http2.Runs.{Reach, here, next, begins, acquires, admitted_within_limit}
use httpx.Connection.{Attempt, connected, failed, connect_error, connect, exponential_backoff}
use httpx.Connection.Retries.{connect-result, is_transient}
use httpx.Decoders.Chunker.{chunk_all}
use httpx.Decoders.Chunker.Pieces.{chunks_of, chunk_all-chunks_of}
use httpx.Decoders.Lines.{init, lines_of, splitlines, is_newline}
use httpx.Decoders.Lines.Whole.{lines_of-splitlines}

abbrev home : Origin
home = record { scheme = codes "http"; host = codes "a.org"; port = 80 }

abbrev fresh : Http11
fresh = record {
  origin = home;
  keepalive_expiry = some 5;
  expire_at = none;
  state = Http11.new;
  request_count = 0;
}

abbrev busy : Http11
busy = record fresh { state = Http11.active; request_count = 1 }

first_response :
    handle_request home sent (informational 100 ∷ response 200 ∷ end_of_message ∷ []) false 7 fresh
    ≡ some (ok (200, end_of_message ∷ []), busy)
unfolding handle_request origin_eq str_eq
first_response = refl

send_fails :
    handle_request home (send_raised 3) [] false 7 fresh
    ≡ some (err (raised 3), record busy { state = closed })
unfolding handle_request origin_eq str_eq
send_fails = refl

handle_request-failed_example :
    ((accepts Http11.new ≡ true) × (closed ≡ closed) × (◌≡◌ {A = ℕ} 1 (0 + 1)))
    ⊎ (((raised 3 ≡ runtime_error) ⊎ (raised 3 ≡ connection_not_available))
        × (record busy { state = closed } ≡ fresh))
handle_request-failed_example =
    handle_request-failed home (send_raised 3) [] false 7 (raised 3) fresh
      (record busy { state = closed }) send_fails

abbrev h2_start : Http2
h2_start = Http2.create home none 100

abbrev h2_begun : Http2
h2_begun = record h2_start { request_count = 1; state = Http2.active }

begun_h2 : Http2.begin_request home h2_start ≡ Http2.ok h2_begun
unfolding Http2.begin_request Http2.create origin_eq str_eq
begun_h2 = refl

abbrev h2_waking : Http2
h2_waking = record h2_begun { permits = 0; waking = 1 }

waking_h2 : acquire h2_begun ≡ some h2_waking
unfolding acquire Http2.create
waking_h2 = refl

to_waking : Reach h2_start h2_waking
to_waking =
    next (next here (begins home h2_start h2_begun begun_h2))
      (acquires h2_begun h2_waking waking_h2)

admits_h2 : h2_waking.admitted < (pass_deficit h2_waking).admitted
unfolding pass_deficit Http2.create
admits_h2 = omega arith

admitted_within_limit_example :
    (h2_waking.max_streams_deficit ≡ 0)
    × ((pass_deficit h2_waking).admitted + length (pass_deficit h2_waking).events
        ≤ (pass_deficit h2_waking).max_streams)
admitted_within_limit_example =
    admitted_within_limit home none 100 (omega arith) to_waking (omega arith) admits_h2

settings_set_limit_example : (receive_remote_settings_change (some 7) h2_start).max_streams ≡ 7
unfolding Http2.create
settings_set_limit_example = settings_set_limit 7 h2_start (omega arith)

abbrev flaky : ℕ → Attempt
flaky zero = failed connect_error
flaky (suc n) = connected false

connect-result_example : connect flaky 1 3 ≡ record { result = connected false; delays = 0 ∷ [] }
unfolding exponential_backoff
connect-result_example = connect-result flaky 1 3 1 (omega arith) before (inr refl)
  where
    before : (j : ℕ) → j < 1 → is_transient (flaky j) ≡ true
    before zero h = refl
    before (suc j) h = absurd (omega arith)

chunk_all-chunks_of_example :
    chunk_all (some 3) [] (codes "ab" ∷ codes "cdef" ∷ [])
    ≡ chunks_of 3 (flatten (codes "ab" ∷ codes "cdef" ∷ []))
chunk_all-chunks_of_example = chunk_all-chunks_of 3 (codes "ab" ∷ codes "cdef" ∷ []) (omega arith)

lines_of-splitlines_example :
    lines_of init ((97 ∷ 13 ∷ []) ∷ (10 ∷ 98 ∷ []) ∷ [])
    ≡ splitlines (flatten ((97 ∷ 13 ∷ []) ∷ (10 ∷ 98 ∷ []) ∷ []))
lines_of-splitlines_example = lines_of-splitlines ((97 ∷ 13 ∷ []) ∷ (10 ∷ 98 ∷ []) ∷ [])

two_lines : splitlines (97 ∷ 13 ∷ 10 ∷ 98 ∷ []) ≡ (97 ∷ []) ∷ (98 ∷ []) ∷ []
unfolding splitlines is_newline
two_lines = refl
