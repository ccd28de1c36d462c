-- ===== src/Response/Once.antt =====
-- The stream of a response is iterated and closed at most once.
use mathlib.Core.List.{flatten}
use httpx.Prelude.{
  ℕ, ◌≡◌, refl, ap, ◌∙◌, Bool, true, false, Option, none, some, List, [], ◌∷◌, if◌then◌else◌, Str,
  arith, Bool-cases, inl, inr,
}
use httpx.Response.{
  Response, Iteration, Error, stream_consumed, stream_closed, stream_raised, decoding_error, slices,
  decoded, joined, create, close, consume, count, start_raw, start_bytes, take_part, take_parts,
  loop_raw, chunk_parts, iter_raw, ContentDecoder, Driven, done, broken, drive, iter_decoded,
  iter_bytes, read,
}

-- What a program does with a response. An iteration runs to its end in one call, or its generator
-- starts, takes parts of the stream, and is left: at the end, by an exception, or closed by its
-- consumer. Between these steps other calls, and other generators, go on.
pub data Call : Type 0 where
  call_iter_raw call_iter_bytes : Option ℕ → Call
  call_read call_close call_start_raw call_start_bytes call_leave : Call
  call_part : Str → Call

abbrev flag : Bool → ℕ
flag true = 1
flag false = 0

-- The stream was iterated once if it counts as consumed, and else never; and closed once if the
-- response is closed, and else never.
abbrev pub IsOnce : Response → Type 0
IsOnce r = (r.iterated ≡ flag r.is_stream_consumed) × (r.closes ≡ flag r.is_closed)

close-IsOnce : (r : Response) → IsOnce r → IsOnce (close r)
unfolding close
close-IsOnce r h = elim (Bool-cases r.is_closed) [
  | inl c ↦ rw c (h.0, h.1 ∙ ap flag c)
  | inr c ↦ rw c (h.0, let e : r.closes ≡ 0 = h.1 ∙ ap flag c in omega arith)
]

consume-IsOnce : (r : Response) → r.is_stream_consumed ≡ false → IsOnce r → IsOnce (consume r)
unfolding consume
consume-IsOnce r c h = ((let e : r.iterated ≡ 0 = h.0 ∙ ap flag c in omega arith), h.1)

abbrev OnceAfter : (A : Type 0) → A × Response → Type 0
OnceAfter A x = IsOnce x.1

-- A test between two outcomes.
branch :
    {A : Type 0} (b : Bool) (x y : A × Response)
    → IsOnce x.1
    → (b ≡ false → IsOnce y.1)
    → IsOnce (if b then x else y).1
branch true x y p q = p
branch false x y p q = q refl

start_raw-IsOnce : (r : Response) → IsOnce r → IsOnce (start_raw r).1
unfolding start_raw
start_raw-IsOnce r h =
    branch r.is_stream_consumed (some stream_consumed, r)
      (if r.is_closed then (some stream_closed, r) else (none, consume r)) h
      (λ c.
        branch r.is_closed (some stream_closed, r) (none, consume r) h (λ k. consume-IsOnce r c h))

start_bytes-IsOnce : (r : Response) → IsOnce r → IsOnce (start_bytes r).1
unfolding start_bytes
start_bytes-IsOnce r h = from r.content
  where
    from :
        (o : Option Str)
        → OnceAfter (Option Error) (elim o [ some content ↦ (none, r) | none ↦ start_raw r ])
    from (some content) = h
    from none = start_raw-IsOnce r h

take_parts-IsOnce : (ps : List Str) (r : Response) → IsOnce r → IsOnce (take_parts ps r)
unfolding take_parts take_part
take_parts-IsOnce [] r h = h
take_parts-IsOnce (p ∷ ps) r h = take_parts-IsOnce ps (take_part p r) h

loop_raw-IsOnce :
    (size : Option ℕ) (x : Option Error × Response) → IsOnce x.1 → IsOnce (loop_raw size x).1
unfolding loop_raw
loop_raw-IsOnce size (some e, r) h = h
loop_raw-IsOnce size (none, r) h =
    close-IsOnce (take_parts r.parts r) (take_parts-IsOnce r.parts r h)

iter_raw-IsOnce : (size : Option ℕ) (r : Response) → IsOnce r → IsOnce (iter_raw size r).1
unfolding iter_raw
iter_raw-IsOnce size r h = loop_raw-IsOnce size (start_raw r) (start_raw-IsOnce r h)

module _ {D : Type 0} (decoder : ContentDecoder D) where
  iter_decoded-IsOnce :
      (size : Option ℕ) (r : Response) → IsOnce r → IsOnce (iter_decoded decoder size r).1
  unfolding iter_decoded count
  iter_decoded-IsOnce size r h = from (drive decoder decoder.start 0 r.parts)
    where
      from :
          (d : Driven D)
          → OnceAfter Iteration (elim d [
            | broken out n ↦ (
              record { chunks = chunk_parts size [] out; error = some decoding_error },
              close (count n r),
            )
            | done out d' n ↦ (
              if r.stream_fails
                  then record { chunks = chunk_parts size [] out; error = some stream_raised }
                  else decoded decoder size out (decoder.flush d'),
              close (count n r),
            )
          ])
      from (broken out n) = close-IsOnce (count n r) h
      from (done out d' n) = close-IsOnce (count n r) h

  iter_bytes-IsOnce :
      (size : Option ℕ) (r : Response) → IsOnce r → IsOnce (iter_bytes decoder size r).1
  unfolding iter_bytes
  iter_bytes-IsOnce size r h = from r.content
    where
      s : Response
      s = (start_raw r).1

      begun :
          (o : Option Error)
          → OnceAfter Iteration (elim o [
            | some e ↦ (record { chunks = []; error = some e }, s)
            | none ↦ iter_decoded decoder size s
          ])
      begun (some e) = start_raw-IsOnce r h
      begun none = iter_decoded-IsOnce size s (start_raw-IsOnce r h)

      from :
          (o : Option Str)
          → OnceAfter Iteration (elim o [
            | some content ↦ (record { chunks = slices size content; error = none }, r)
            | none ↦ elim (start_raw r).0 [
              | some e ↦ (record { chunks = []; error = some e }, s)
              | none ↦ iter_decoded decoder size s
            ]
          ])
      from (some content) = h
      from none = begun (start_raw r).0

  joined-IsOnce : (x : Iteration × Response) → IsOnce x.1 → IsOnce (joined decoder x).1
  joined-IsOnce (i, r) h = from i.error
    where
      from :
          (o : Option Error)
          → OnceAfter (Option Error) (elim o [
            | some e ↦ (some e, r)
            | none ↦ (none, record r { content = some (flatten i.chunks) })
          ])
      from (some e) = h
      from none = h

  read-IsOnce : (r : Response) → IsOnce r → IsOnce (read decoder r).1
  unfolding read
  read-IsOnce r h = from r.content
    where
      from :
          (o : Option Str)
          → OnceAfter (Option Error) (elim o [
            | some content ↦ (none, r)
            | none ↦ joined decoder (iter_bytes decoder none r)
          ])
      from (some content) = h
      from none = joined-IsOnce (iter_bytes decoder none r) (iter_bytes-IsOnce none r h)

  -- One call after the other, also after one that raised.
  unfoldable pub run : List Call → Response → Response
  run [] r = r
  run (call_iter_raw size ∷ calls) r = run calls (iter_raw size r).1
  run (call_iter_bytes size ∷ calls) r = run calls (iter_bytes decoder size r).1
  run (call_read ∷ calls) r = run calls (read decoder r).1
  run (call_close ∷ calls) r = run calls (close r)
  run (call_start_raw ∷ calls) r = run calls (start_raw r).1
  run (call_start_bytes ∷ calls) r = run calls (start_bytes r).1
  run (call_part part ∷ calls) r = run calls (take_part part r)
  run (call_leave ∷ calls) r = run calls (close r)

  run-from : (calls : List Call) (r : Response) → IsOnce r → IsOnce (run calls r)
  unfolding run take_part
  run-from [] r h = h
  run-from (call_iter_raw size ∷ calls) r h =
      run-from calls (iter_raw size r).1 (iter_raw-IsOnce size r h)
  run-from (call_iter_bytes size ∷ calls) r h =
      run-from calls (iter_bytes decoder size r).1 (iter_bytes-IsOnce size r h)
  run-from (call_read ∷ calls) r h = run-from calls (read decoder r).1 (read-IsOnce r h)
  run-from (call_close ∷ calls) r h = run-from calls (close r) (close-IsOnce r h)
  run-from (call_start_raw ∷ calls) r h = run-from calls (start_raw r).1 (start_raw-IsOnce r h)
  run-from (call_start_bytes ∷ calls) r h =
      run-from calls (start_bytes r).1 (start_bytes-IsOnce r h)
  run-from (call_part part ∷ calls) r h = run-from calls (take_part part r) h
  run-from (call_leave ∷ calls) r h = run-from calls (close r) (close-IsOnce r h)

  -- Whatever sequence of `iter_raw`, `iter_bytes`, `read` and `close` a program runs on a response,
  -- also after errors, and with iterations that are suspended, interleaved or left early: its stream
  -- is iterated at most once, which is when it counts as consumed, and closed at most once, which
  -- is when the response is closed.
  pub run-IsOnce :
      (calls : List Call) (parts : List Str) (fails : Bool)
      → IsOnce (run calls (create parts fails))
  unfolding create
  run-IsOnce calls parts fails = run-from calls (create parts fails) (refl, refl)
