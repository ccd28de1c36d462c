-- ===== src/Response/Rereading.antt =====
-- Iterating a response that was read.
use mathlib.Core.List.{flatten}
use httpx.Prelude.{
  ℕ, suc, ◌≡◌, refl, ap, sym, ◌∙◌, Bool, true, false, Option, none, some, List, [], ◌∷◌, ◌++◌,
  if◌then◌else◌, Str, arith, length, zero, append-nil,
}
use httpx.Decoders.Chunker.{decode, flush, chunk_all, pieces}
use httpx.Decoders.Chunker.Pieces.{take-all, drop-all, chunks_of, chunk_all-chunks_of}
use httpx.Response.{
  Response, Iteration, stream_raised, decoding_error, create, close, consume, count, start_raw,
  chunk_parts, slices, ContentDecoder, Driven, done, broken, drive, decoded, joined, iter_decoded,
  iter_bytes, read,
}

-- Without a size, no byte is lost.
flatten-chunk_all : (parts : List Str) → flatten (chunk_all none [] parts) ≡ flatten parts
unfolding chunk_all flatten decode flush
flatten-chunk_all [] = refl
flatten-chunk_all ([] ∷ parts) = flatten-chunk_all parts
flatten-chunk_all ((c ∷ cs) ∷ parts) = ap (λ t. (c ∷ cs) ++ t) (flatten-chunk_all parts)

pieces-nil : (rounds n : ℕ) → pieces {A = ℕ} rounds n [] ≡ []
unfolding pieces
pieces-nil zero n = refl
pieces-nil (suc rounds) n = refl

flatten-slices : (t : Str) → flatten (slices none t) ≡ t
unfolding slices flatten pieces
flatten-slices [] = refl
flatten-slices (c ∷ cs) =
    rw
      (
        take-all (length cs) cs (omega arith),
        drop-all (length cs) cs (omega arith),
        pieces-nil (length cs) (suc (length cs)),
      )
      (append-nil (c ∷ cs))

same_slices :
    (n : ℕ) (out : List Str)
    → slices (some (suc n)) (flatten (chunk_all none [] out)) ≡ chunk_all (some (suc n)) [] out
unfolding slices
same_slices n out =
    ap (λ t. chunks_of (suc n) t) (flatten-chunk_all out)
    ∙ sym (chunk_all-chunks_of (suc n) out (omega arith))

module _ {D : Type 0} (decoder : ContentDecoder D) (parts : List Str) (fails : Bool) where
  abbrev fresh : Response
  fresh = consume (create parts fails)

  -- What `iter_decoded` makes of the decoder's outcome.
  abbrev outcome : Driven D → Option ℕ → Iteration × Response
  outcome d size = elim d [
    | broken out n ↦ (
      record { chunks = chunk_parts size [] out; error = some decoding_error },
      close (count n fresh),
    )
    | done out d' n ↦ (
      if fails
          then record { chunks = chunk_parts size [] out; error = some stream_raised }
          else decoded decoder size out (decoder.flush d'),
      close (count n fresh),
    )
  ]

  -- An iteration that raises nothing chunks one list of parts, whatever the size.
  abbrev Chunked : (Option ℕ → Iteration × Response) → Type 0
  Chunked f =
      (out : List Str) × (s : Response) × ((size : Option ℕ)
        → f size ≡ (record { chunks = chunk_all size [] out; error = none }, s))

  flushed :
      (out : List Str) (o : Option (List Str)) (s : Response) (k : Option ℕ)
      → (decoded decoder k out o).error ≡ none
      → Chunked (λ size. (decoded decoder size out o, s))
  flushed out none s k h = cc
  flushed out (some last) s k h = (out ++ last, s, λ size. refl)

  unfailing :
      (b : Bool) (out : List Str) (o : Option (List Str)) (s : Response) (k : Option ℕ)
      → (if b
          then record { chunks = chunk_parts k [] out; error = some stream_raised }
          else decoded decoder k out o).error
        ≡ none
      → Chunked (λ size. (
        if b
            then record { chunks = chunk_parts size [] out; error = some stream_raised }
            else decoded decoder size out o,
        s,
      ))
  unfailing true out o s k h = cc
  unfailing false out o s k h = flushed out o s k h

  outcome-Chunked :
      (d : Driven D) (k : Option ℕ) → (outcome d k).0.error ≡ none → Chunked (outcome d)
  outcome-Chunked (broken out n) k h = cc
  outcome-Chunked (done out d n) k h =
      unfailing fails out (decoder.flush d) (close (count n fresh)) k h

  iter_decoded-Chunked :
      (k : Option ℕ)
      → (iter_decoded decoder k fresh).0.error ≡ none
      → Chunked (λ size. iter_decoded decoder size fresh)
  unfolding iter_decoded create consume count close
  iter_decoded-Chunked k h = outcome-Chunked (drive decoder decoder.start 0 parts) k h

  -- If iterating the stream with a positive chunk size raises nothing, then reading the response
  -- first raises nothing, and iterating its content then gives the chunks that iterating the stream
  -- gives; without a chunk size, both give the same bytes.
  pub iter_bytes-read :
      (n : ℕ)
      → (iter_bytes decoder (some (suc n)) (create parts fails)).0.error ≡ none
      → ((read decoder (create parts fails)).0 ≡ none)
        × ((iter_bytes decoder (some (suc n)) (read decoder (create parts fails)).1).0
            ≡ (iter_bytes decoder (some (suc n)) (create parts fails)).0)
        × (flatten (iter_bytes decoder none (read decoder (create parts fails)).1).0.chunks
            ≡ flatten (iter_bytes decoder none (create parts fails)).0.chunks)
  unfolding read iter_bytes create start_raw
  iter_bytes-read n h =
      let (out, s, e) = iter_decoded-Chunked (some (suc n)) h in
      (
        ap (λ x. (joined decoder x).0) (e none),
        ap (λ x. (iter_bytes decoder (some (suc n)) (joined decoder x).1).0) (e none)
            ∙ (ap (λ t. record { chunks = t; error = none }) (same_slices n out)
                ∙ sym (ap (λ x. x.0) (e (some (suc n))))),
        ap (λ x. flatten (iter_bytes decoder none (joined decoder x).1).0.chunks) (e none)
            ∙ (flatten-slices (flatten (chunk_all none [] out))
                ∙ sym (ap (λ x. flatten x.0.chunks) (e none))),
      )
