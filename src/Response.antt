-- ===== src/Response.antt =====
-- `Response` in httpx2/httpx2/_models.py: the reading of its stream and its life. An iteration that
-- a consumer leaves or suspends is the steps `start_raw` or `start_bytes`, `take_part` for a part
-- of the stream, and `close`, which the `finally` of `iter_raw` calls however the generator is
-- left. The choice between the synchronous and the asynchronous methods is left out.
pub mod Once
pub mod Rereading
use mathlib.Core.List.{flatten}
use httpx.Prelude.{
  ℕ, zero, suc, ◌+◌, Bool, true, false, Option, none, some, List, [], ◌∷◌, ◌++◌, if◌then◌else◌, Str,
  length,
}
use httpx.Decoders.Chunker.{pieces, decode, chunk_all}

-- The response, with the parts of its stream, whether the stream raises after them, and how often
-- the stream was iterated and closed.
pub record Response : Type 0 where
  pub parts : List Str
  pub stream_fails : Bool
  pub content : Option Str
  pub is_closed : Bool
  pub is_stream_consumed : Bool
  pub num_bytes_downloaded : ℕ
  pub iterated : ℕ
  pub closes : ℕ

-- A response on a stream.
unfoldable pub create : List Str → Bool → Response
create parts fails = record {
  parts = parts;
  stream_fails = fails;
  content = none;
  is_closed = false;
  is_stream_consumed = false;
  num_bytes_downloaded = 0;
  iterated = 0;
  closes = 0;
}

pub data Error : Type 0 where
  stream_consumed stream_closed stream_raised decoding_error : Error

-- What an iteration gives, and what it raises then.
pub record Iteration : Type 0 where
  pub chunks : List Str
  pub error : Option Error

unfoldable pub close : Response → Response
close r = if r.is_closed then r else record r { is_closed = true; closes = r.closes + 1 }

-- The chunks of the parts so far, without the last `flush`.
unfoldable pub chunk_parts : Option ℕ → Str → List Str → List Str
unfolding decode
chunk_parts size buffer [] = []
chunk_parts size buffer (part ∷ parts) =
    let (out, rest) = decode size buffer part in out ++ chunk_parts size rest parts

-- The stream is iterated from here on.
unfoldable pub consume : Response → Response
consume r = record r {
  is_stream_consumed = true;
  num_bytes_downloaded = 0;
  iterated = r.iterated + 1;
}

-- The first step of `iter_raw`: its tests, and then the loop begins.
unfoldable pub start_raw : Response → Option Error × Response
unfolding consume
start_raw r =
    if r.is_stream_consumed
    then (some stream_consumed, r)
    else if r.is_closed
    then (some stream_closed, r)
    else (none, consume r)

-- The first step of `iter_bytes`.
unfoldable pub start_bytes : Response → Option Error × Response
unfolding start_raw
start_bytes r = elim r.content [ some content ↦ (none, r) | none ↦ start_raw r ]

-- A part of the stream is taken.
unfoldable pub take_part : Str → Response → Response
take_part part r = record r { num_bytes_downloaded = r.num_bytes_downloaded + length part }

unfoldable pub take_parts : List Str → Response → Response
unfolding take_part
take_parts [] r = r
take_parts (p ∷ ps) r = take_parts ps (take_part p r)

abbrev refused : Error → Response → Iteration × Response
refused e r = (record { chunks = []; error = some e }, r)

-- `iter_raw` behind its first step, to its end
unfoldable pub loop_raw : Option ℕ → Option Error × Response → Iteration × Response
unfolding chunk_parts take_parts close
loop_raw size (some e, r) = refused e r
loop_raw size (none, r) = (
  if r.stream_fails
      then record { chunks = chunk_parts size [] r.parts; error = some stream_raised }
      else record { chunks = chunk_all size [] r.parts; error = none },
  close (take_parts r.parts r),
)

-- `iter_raw`, to its end
unfoldable pub iter_raw : Option ℕ → Response → Iteration × Response
unfolding start_raw loop_raw
iter_raw size r = loop_raw size (start_raw r)

-- A decoder of content; none is a DecodingError.
pub record ContentDecoder (D : Type 0) : Type 0 where
  pub start : D
  pub decode : D → Str → Option (List Str × D)
  pub flush : D → Option (List Str)

-- The decoder over the parts that are not empty: what it gave, its state and the bytes read, or
-- what it gave before it raised.
pub data Driven (D : Type 0) : Type 0 where
  done : List Str → D → ℕ → Driven D
  broken : List Str → ℕ → Driven D

abbrev after : {D : Type 0} → List Str → Driven D → Driven D
after out (done out' d n) = done (out ++ out') d n
after out (broken out' n) = broken (out ++ out') n

unfoldable pub drive : {D : Type 0} → ContentDecoder D → D → ℕ → List Str → Driven D
drive decoder d n [] = done [] d n
drive decoder d n ([] ∷ parts) = drive decoder d n parts
drive decoder d n ((c ∷ cs) ∷ parts) = elim (decoder.decode d (c ∷ cs)) [
  | none ↦ broken [] (n + length (c ∷ cs))
  | some (out, d') ↦ after out (drive decoder d' (n + length (c ∷ cs)) parts)
]

-- The bytes read so far.
unfoldable pub count : ℕ → Response → Response
count n r = record r { num_bytes_downloaded = n }

unfoldable pub blanks : Str → List Str
blanks [] = []
blanks (c ∷ cs) = [] ∷ blanks cs

-- The slices of the content; those of size 0 are empty.
unfoldable pub slices : Option ℕ → Str → List Str
unfolding blanks
slices none content = pieces (length content) (length content) content
slices (some zero) content = blanks content
slices (some (suc n)) content = pieces (length content) (suc n) content

module _ {D : Type 0} (decoder : ContentDecoder D) where
  open decoder use {start, flush}

  abbrev pub decoded : Option ℕ → List Str → Option (List Str) → Iteration
  decoded size out none = record { chunks = chunk_parts size [] out; error = some decoding_error }
  decoded size out (some last) = record { chunks = chunk_all size [] (out ++ last); error = none }

  -- `iter_bytes` on the stream, behind the first step of `iter_raw`. A decoder that raises leaves
  -- the generator of `iter_raw`, which closes the response.
  unfoldable pub iter_decoded : Option ℕ → Response → Iteration × Response
  unfolding chunk_parts count close drive
  iter_decoded size r = elim (drive decoder start 0 r.parts) [
    | broken out n ↦ (
      record { chunks = chunk_parts size [] out; error = some decoding_error },
      close (count n r),
    )
    | done out d n ↦ (
      if r.stream_fails
          then record { chunks = chunk_parts size [] out; error = some stream_raised }
          else decoded size out (flush d),
      close (count n r),
    )
  ]

  -- `iter_bytes`, to its end
  unfoldable pub iter_bytes : Option ℕ → Response → Iteration × Response
  unfolding slices start_raw iter_decoded
  iter_bytes size r = elim r.content [
    | some content ↦ (record { chunks = slices size content; error = none }, r)
    | none ↦ elim (start_raw r).0 [
      | some e ↦ refused e (start_raw r).1
      | none ↦ iter_decoded size (start_raw r).1
    ]
  ]

  abbrev pub joined : Iteration × Response → Option Error × Response
  joined (i, r) = elim i.error [
    | some e ↦ (some e, r)
    | none ↦ (none, record r { content = some (flatten i.chunks) })
  ]

  -- `read`: what it raises, and the response, which then has its content.
  unfoldable pub read : Response → Option Error × Response
  unfolding iter_bytes flatten
  read r = elim r.content [ some content ↦ (none, r) | none ↦ joined (iter_bytes none r) ]
