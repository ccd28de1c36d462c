-- ===== src/Decoders/Chunker.antt =====
-- `ByteChunker` and `TextChunker` in httpx2/httpx2/_decoders.py: content in pieces of one size. The
-- buffer (`io.BytesIO`, `io.StringIO`) is the list of the items written and not yet returned.
pub mod Pieces
use httpx.Prelude.{
  ℕ, zero, suc, ◌-◌, Bool, true, false, Option, none, some, List, [], ◌∷◌, ◌++◌, if◌then◌else◌, leb,
  ◌==◌, length, take, drop,
}

module _ {ℓ} {A : Type ℓ} where
  -- [value[i : i + n] for i in range(0, len(value), n)], by the number of rounds left. The length
  -- of `value` is enough of them when `n` is positive.
  unfoldable pub pieces : ℕ → ℕ → List A → List (List A)
  pieces zero n value = []
  pieces (suc rounds) n [] = []
  pieces (suc rounds) n (x ∷ xs) = take n (x ∷ xs) ∷ pieces rounds n (drop n (x ∷ xs))

  -- chunks[-1] and chunks[:-1]; there is a last chunk where the code looks for it.
  unfoldable pub last_piece : List (List A) → List A
  last_piece [] = []
  last_piece (c ∷ []) = c
  last_piece (c ∷ d ∷ cs) = last_piece (d ∷ cs)

  unfoldable pub but_last : List (List A) → List (List A)
  but_last [] = []
  but_last (c ∷ []) = []
  but_last (c ∷ d ∷ cs) = c ∷ but_last (d ∷ cs)

  is_empty : List A → Bool
  is_empty [] = true
  is_empty (x ∷ xs) = false

  -- The branch of `decode` that has a chunk to return.
  unfoldable pub split_off : ℕ → List A → List (List A) × List A
  unfolding pieces last_piece but_last
  split_off n value =
      let chunks = pieces (length value) n value in
      if length (last_piece chunks) == n then (chunks, []) else (but_last chunks, last_piece chunks)

  -- `decode`: what is returned, and the buffer after it.
  unfoldable pub decode : Option ℕ → List A → List A → List (List A) × List A
  unfolding split_off is_empty
  decode none buffer content = ((if is_empty content then [] else content ∷ []), buffer)
  decode (some n) buffer content =
      let value = buffer ++ content in
      if leb n (length value) then split_off n value else ([], value)

  -- `flush`
  unfoldable pub flush : List A → List (List A)
  unfolding is_empty
  flush buffer = if is_empty buffer then [] else buffer ∷ []

  -- The calls that `iter_bytes` makes: `decode` on each part, then `flush`.
  unfoldable pub chunk_all : Option ℕ → List A → List (List A) → List (List A)
  unfolding decode flush
  chunk_all size buffer [] = flush buffer
  chunk_all size buffer (part ∷ parts) =
      let (out, rest) = decode size buffer part in out ++ chunk_all size rest parts
