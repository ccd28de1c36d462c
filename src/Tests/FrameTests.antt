-- ===== src/Tests/FrameTests.antt =====
-- HTTP/2 frames at concrete inputs.
use mathlib.Core.List.{flatten}
use httpx.Prelude.{ℕ, suc, ◌<◌, ◌≡◌, refl, codes, length, arith, [], ◌∷◌}
use httpx.Http2.Frames.{send_stream_data, FitsFlow, send_stream_data-frames}

abbrev small_flow : ℕ → ℕ
small_flow i = suc (suc i)

small_flow_positive : (i : ℕ) → 0 < small_flow i
small_flow_positive i = omega arith

three_frames :
    send_stream_data 6 small_flow 0 (codes "abcdef") ≡ codes "ab" ∷ codes "cde" ∷ codes "f" ∷ []
unfolding send_stream_data
three_frames = refl

send_stream_data-frames_example :
    (flatten (send_stream_data (length (codes "abcdef")) small_flow 0 (codes "abcdef"))
      ≡ codes "abcdef")
    × FitsFlow small_flow 0
        (send_stream_data (length (codes "abcdef")) small_flow 0 (codes "abcdef"))
send_stream_data-frames_example =
    send_stream_data-frames small_flow small_flow_positive (codes "abcdef")
