-- ===== src/Http2/Frames.antt =====
-- httpcore2/httpcore2/_sync/http2.py: what a request sends on its stream, and how the events that
-- arrive reach the streams.
use mathlib.Core.List.{flatten}
use httpx.Prelude.{
  ℕ, zero, suc, ◌+◌, ◌≤◌, ◌<◌, ◌≡◌, refl, ap, ◌∙◌, Bool, false, not, ◌||◌, Option, none, some, List,
  [], ◌∷◌, ◌++◌, if◌then◌else◌, ◌==◌, ltb, Str, codes, str_eq, length, take, drop, min, arith,
  length-take, length-drop, take-append-drop,
}
use httpx.Headers.{lower}
use httpx.Http2.{StreamEvent, Events}

-- The value of the first header with the name "host", in any case.
unfoldable pub authority : List (Str × Str) → Option Str
unfolding lower
authority [] = none
authority ((k, v) ∷ hs) =
    let rest = authority hs in if str_eq (lower k) (codes "host") then some v else rest

-- The other headers, under lower-case names.
unfoldable pub plain_headers : List (Str × Str) → List (Str × Str)
unfolding lower
plain_headers [] = []
plain_headers ((k, v) ∷ hs) =
    let rest = plain_headers hs in
    if str_eq (lower k) (codes "host") || str_eq (lower k) (codes "transfer-encoding")
    then rest
    else (lower k, v) ∷ rest

-- The header list of `_send_request_headers`; `none` is the LocalProtocolError.
unfoldable pub request_headers : Str → Str → Str → List (Str × Str) → Option (List (Str × Str))
unfolding authority plain_headers
request_headers method scheme target hs = elim (authority hs) [
  | none ↦ none
  | some host ↦ some (
      (codes ":method", method)
      ∷ (codes ":authority", host)
      ∷ (codes ":scheme", scheme)
      ∷ (codes ":path", target)
      ∷ plain_headers hs)
]

-- The loop of `_send_stream_data` on the data from its position. `flow i` is what the i-th call of
-- `_wait_for_outgoing_flow` returns.
unfoldable pub send_stream_data : ℕ → (ℕ → ℕ) → ℕ → Str → List Str
send_stream_data zero flow i data_left = []
send_stream_data (suc fuel) flow i [] = []
send_stream_data (suc fuel) flow i (b ∷ bs) =
    take (flow i) (b ∷ bs) ∷ send_stream_data fuel flow (i + 1) (drop (flow i) (b ∷ bs))

-- One round of `_wait_for_outgoing_flow`: the flow allowed, or none while it must read.
unfoldable pub outgoing_flow : ℕ → ℕ → Option ℕ
outgoing_flow local_flow max_frame_size =
    let flow = min local_flow max_frame_size in if ltb 0 flow then some flow else none

-- `_receive_response` on the headers of the event, with `int` for the status and the headers that
-- are not pseudo-headers.
abbrev is_pseudo : Str → Bool
is_pseudo [] = false
is_pseudo (c ∷ cs) = c == 58

unfoldable pub read_response : (Str → ℕ) → ℕ → List (Str × Str) → ℕ × List (Str × Str)
read_response int status [] = (status, [])
read_response int status ((k, v) ∷ hs) =
    let with_status = read_response int (int v) hs in
    let rest = read_response int status hs in
    if str_eq k (codes ":status")
    then with_status
    else if not (is_pseudo k)
    then (rest.0, (k, v) ∷ rest.1)
    else rest

-- The dispatch of `_receive_events` for an event of one stream.
unfoldable pub dispatch : ℕ → StreamEvent → Events → Events
dispatch id e [] = []
dispatch id e ((j, q) ∷ es) =
    let rest = dispatch id e es in if id == j then (j, q ++ e ∷ []) ∷ es else (j, q) ∷ rest

-- The end of `_receive_stream_event`: the first event that waits, and those after it.
unfoldable pub pop_event : ℕ → Events → Option StreamEvent × Events
pop_event id [] = (none, [])
pop_event id ((j, []) ∷ es) = let rest = pop_event id es in (rest.0, (j, []) ∷ rest.1)
pop_event id ((j, e ∷ q) ∷ es) =
    let rest = pop_event id es in
    if id == j then (some e, (j, q) ∷ es) else (rest.0, (j, e ∷ q) ∷ rest.1)

-- A frame that was sent while the flow allowed `n` bytes.
abbrev pub FitsFlow : (ℕ → ℕ) → ℕ → List Str → Type 0
FitsFlow flow i [] = Unit
FitsFlow flow i (f ∷ fs) = (0 < length f) × (length f ≤ flow i) × FitsFlow flow (i + 1) fs

module _ (flow : ℕ → ℕ) (positive : (i : ℕ) → 0 < flow i) where
  frames-content :
      (fuel i : ℕ) (s : Str) → length s ≤ fuel → flatten (send_stream_data fuel flow i s) ≡ s
  unfolding send_stream_data flatten
  frames-content zero i [] h = refl
  frames-content zero i (b ∷ bs) h = absurd (omega arith)
  frames-content (suc fuel) i [] h = refl
  frames-content (suc fuel) i (b ∷ bs) h =
      ap (λ x. take (flow i) (b ∷ bs) ++ x)
        (frames-content fuel (i + 1) (drop (flow i) (b ∷ bs))
          (let l = length-drop (flow i) (b ∷ bs) in let p = positive i in omega arith))
      ∙ take-append-drop (flow i) (b ∷ bs)

  frames-FitsFlow : (fuel i : ℕ) (s : Str) → FitsFlow flow i (send_stream_data fuel flow i s)
  unfolding send_stream_data
  frames-FitsFlow zero i s = tt
  frames-FitsFlow (suc fuel) i [] = tt
  frames-FitsFlow (suc fuel) i (b ∷ bs) =
      let l = length-take (flow i) (b ∷ bs) in
      let p = positive i in
      (omega arith, omega arith, frames-FitsFlow fuel (i + 1) (drop (flow i) (b ∷ bs)))

  -- If each wait returns a positive flow, then with fuel for as many rounds as there are bytes the
  -- frames sent are together the data, in order, and no frame is empty or larger than the flow
  -- allowed when it was sent.
  pub send_stream_data-frames :
      (s : Str)
      → (flatten (send_stream_data (length s) flow 0 s) ≡ s)
        × FitsFlow flow 0 (send_stream_data (length s) flow 0 s)
  send_stream_data-frames s =
      (frames-content (length s) 0 s (omega arith), frames-FitsFlow (length s) 0 s)
