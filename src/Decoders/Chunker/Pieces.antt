-- ===== src/Decoders/Chunker/Pieces.antt =====
-- The chunks depend on the content alone and not on the parts it came in.
use mathlib.Core.List.{flatten}
use httpx.Prelude.{
  ℕ, zero, suc, ◌≤◌, ◌<◌, ◌≡◌, refl, ap, ◌∙◌, some, List, [], ◌∷◌, ◌++◌, if◌then◌else◌, leb, ◌==◌,
  length, take, drop, arith, append-nil, append_assoc, take-append-drop, length-take, length-drop,
  All, Bool-cases, inl, inr, sym, ap₂,
}
use httpx.Decoders.Chunker.{pieces, last_piece, but_last, split_off, decode, flush, chunk_all}

module _ {ℓ} {A : Type ℓ} where
  -- The chunks of a text: full ones, and the rest if there is any.
  abbrev pub chunks_of : ℕ → List A → List (List A)
  chunks_of n value = pieces (length value) n value

  take-append : (n : ℕ) (xs ys : List A) → n ≤ length xs → take n (xs ++ ys) ≡ take n xs
  take-append zero xs ys h = refl
  take-append (suc n) [] ys h = absurd (omega arith)
  take-append (suc n) (x ∷ xs) ys h = ap (λ t. x ∷ t) (take-append n xs ys (omega arith))

  drop-append : (n : ℕ) (xs ys : List A) → n ≤ length xs → drop n (xs ++ ys) ≡ drop n xs ++ ys
  drop-append zero xs ys h = refl
  drop-append (suc n) [] ys h = absurd (omega arith)
  drop-append (suc n) (x ∷ xs) ys h = drop-append n xs ys (omega arith)

  pub take-all : (n : ℕ) (xs : List A) → length xs ≤ n → take n xs ≡ xs
  take-all zero [] h = refl
  take-all zero (x ∷ xs) h = absurd (omega arith)
  take-all (suc n) [] h = refl
  take-all (suc n) (x ∷ xs) h = ap (λ t. x ∷ t) (take-all n xs (omega arith))

  pub drop-all : (n : ℕ) (xs : List A) → length xs ≤ n → drop n xs ≡ []
  drop-all zero [] h = refl
  drop-all zero (x ∷ xs) h = absurd (omega arith)
  drop-all (suc n) [] h = refl
  drop-all (suc n) (x ∷ xs) h = drop-all n xs (omega arith)

  -- More rounds than items change nothing.
  pieces-rounds :
      (r s n : ℕ) (v : List A) → 0 < n → length v ≤ r → length v ≤ s → pieces r n v ≡ pieces s n v
  unfolding pieces
  pieces-rounds zero zero n v p h k = refl
  pieces-rounds zero (suc s) n [] p h k = refl
  pieces-rounds zero (suc s) n (x ∷ xs) p h k = absurd (omega arith)
  pieces-rounds (suc r) zero n [] p h k = refl
  pieces-rounds (suc r) zero n (x ∷ xs) p h k = absurd (omega arith)
  pieces-rounds (suc r) (suc s) n [] p h k = refl
  pieces-rounds (suc r) (suc s) n (x ∷ xs) p h k =
      ap (λ t. take n (x ∷ xs) ∷ t)
        (pieces-rounds r s n (drop n (x ∷ xs)) p (omega (arith, length-drop n (x ∷ xs)))
          (omega (arith, length-drop n (x ∷ xs))))

  chunks_of-step :
      (n : ℕ) (x : A) (xs : List A)
      → 0 < n
      → chunks_of n (x ∷ xs) ≡ take n (x ∷ xs) ∷ chunks_of n (drop n (x ∷ xs))
  unfolding pieces
  chunks_of-step n x xs p =
      ap (λ t. take n (x ∷ xs) ∷ t)
        (pieces-rounds (length xs) (length (drop n (x ∷ xs))) n (drop n (x ∷ xs)) p
          (omega (arith, length-drop n (x ∷ xs))) (omega arith))

  abbrev done : ℕ → List (List A) → List (List A)
  done n cs = if length (last_piece cs) == n then cs else but_last cs

  abbrev left : ℕ → List (List A) → List A
  left n cs = if length (last_piece cs) == n then [] else last_piece cs

  -- What is returned and what is kept are the chunks so far; less than a chunk is kept.
  record Splits (n : ℕ) (w v : List A) (cs : List (List A)) : Type ℓ where
    same : done n cs ++ chunks_of n (left n cs ++ w) ≡ chunks_of n (v ++ w)
    short : length (left n cs) < n

  Splits-cons :
      (n : ℕ) (w v : List A) (x : A) (c : List A) (d : List A) (ds : List (List A))
      → chunks_of n (x ∷ (v ++ w)) ≡ c ∷ chunks_of n (drop n (x ∷ v) ++ w)
      → Splits n w (drop n (x ∷ v)) (d ∷ ds)
      → Splits n w (x ∷ v) (c ∷ d ∷ ds)
  unfolding last_piece but_last
  Splits-cons n w v x c d ds e s = elim (Bool-cases (length (last_piece (d ∷ ds)) == n)) [
    | inl full ↦ record {
      same = rw full (ap (λ t. c ∷ t) (rw full at s.same) ∙ sym e);
      short = rw full (rw full at s.short);
    }
    | inr part ↦ record {
      same = rw part (ap (λ t. c ∷ t) (rw part at s.same) ∙ sym e);
      short = rw part (rw part at s.short);
    }
  ]

  -- The first chunk of a content that has one.
  chunk_step :
      (n : ℕ) (w v : List A) (x : A)
      → 0 < n
      → n ≤ length (x ∷ v)
      → chunks_of n (x ∷ (v ++ w)) ≡ take n (x ∷ v) ∷ chunks_of n (drop n (x ∷ v) ++ w)
  chunk_step n w v x p h =
      chunks_of-step n x (v ++ w) p
      ∙ ap₂ (λ a b. a ∷ chunks_of n b) (take-append n (x ∷ v) w h) (drop-append n (x ∷ v) w h)

  chunk_front :
      (n : ℕ) (w v : List A) (x : A)
      → 0 < n
      → length (x ∷ v) ≡ n
      → chunks_of n (x ∷ (v ++ w)) ≡ (x ∷ v) ∷ chunks_of n w
  chunk_front n w v x p e =
      chunk_step n w v x p (omega arith)
      ∙ ap₂ (λ a b. a ∷ chunks_of n (b ++ w)) (take-all n (x ∷ v) (omega arith))
          (drop-all n (x ∷ v) (omega arith))

  -- A single piece: a full chunk is returned, and less is kept.
  one-Splits :
      (n : ℕ) (w v : List A) (x : A)
      → 0 < n
      → length (x ∷ v) ≤ n
      → Splits n w (x ∷ v) ((x ∷ v) ∷ [])
  unfolding last_piece but_last
  one-Splits n w v x p h = elim (Bool-cases (length (x ∷ v) == n)) [
    | inl full ↦ record {
      same = rw full (sym (chunk_front n w v x p (ground arith)));
      short = rw full p;
    }
    | inr part ↦ record { same = rw part refl; short = rw part (ground arith) }
  ]

  pieces-nil : (r n : ℕ) → pieces {A = A} r n [] ≡ []
  unfolding pieces
  pieces-nil zero n = refl
  pieces-nil (suc r) n = refl

  -- Whatever more content `w` is to come, cutting what there is now changes no chunk.
  pieces-Splits :
      (r n : ℕ) (w v : List A) (x : A)
      → 0 < n
      → length v ≤ r
      → Splits n w (x ∷ v) (pieces (suc r) n (x ∷ v))
  unfolding pieces
  pieces-Splits zero n w v x p h =
      rw (take-all n (x ∷ v) (omega arith)) (one-Splits n w v x p (omega arith))
  pieces-Splits (suc r) n w v x p h = go (drop n (x ∷ v)) refl (λ u y. pieces-Splits r n w u y p)
    where
      go :
          (ys : List A)
          → drop n (x ∷ v) ≡ ys
          → ((u : List A) (y : A) → length u ≤ r → Splits n w (y ∷ u) (pieces (suc r) n (y ∷ u)))
          → Splits n w (x ∷ v) (take n (x ∷ v) ∷ pieces (suc r) n ys)
      go [] e ih =
          let all_of : length (x ∷ v) ≤ n = omega (arith, ap length e, length-drop n (x ∷ v)) in
          rw (take-all n (x ∷ v) all_of) (one-Splits n w v x p all_of)
      go (y ∷ ys) e ih =
          let fits : length ys ≤ r = omega (arith, ap length e, length-drop n (x ∷ v)) in
          Splits-cons n w v x (take n (x ∷ v)) (take n (y ∷ ys)) (pieces r n (drop n (y ∷ ys)))
            (chunk_step n w v x p (omega (arith, ap length e, length-drop n (x ∷ v))))
            (rw e (ih ys y fits))

  split_off-Splits :
      (n : ℕ) (w v : List A)
      → 0 < n
      → n ≤ length v
      → ((split_off n v).0 ++ chunks_of n ((split_off n v).1 ++ w) ≡ chunks_of n (v ++ w))
        × (length (split_off n v).1 < n)
  unfolding split_off
  split_off-Splits n w [] p h = absurd (omega arith)
  split_off-Splits n w (x ∷ v) p h =
      let s = pieces-Splits (length v) n w v x p (omega arith) in
      elim (Bool-cases (length (last_piece (pieces (suc (length v)) n (x ∷ v))) == n)) [
        | inl full ↦ rw full (rw full at s.same, rw full at s.short)
        | inr part ↦ rw part (rw part at s.same, rw part at s.short)
      ]

  -- The buffer holds less than a chunk.
  decode-Splits :
      (n : ℕ) (w buffer content : List A)
      → 0 < n
      → length buffer < n
      → ((decode (some n) buffer content).0 ++ chunks_of n ((decode (some n) buffer content).1 ++ w)
          ≡ chunks_of n (buffer ++ (content ++ w)))
        × (length (decode (some n) buffer content).1 < n)
  unfolding decode
  decode-Splits n w buffer content p h = elim (Bool-cases (leb n (length (buffer ++ content)))) [
    | inl enough ↦
        rw (enough, ← append_assoc) (split_off-Splits n w (buffer ++ content) p (ground arith))
    | inr few ↦ rw few (ap (chunks_of n) (append_assoc buffer content w), ground arith)
  ]

  flush-chunks_of :
      (n : ℕ) (buffer : List A) → 0 < n → length buffer < n → flush buffer ≡ chunks_of n buffer
  unfolding flush pieces
  flush-chunks_of n [] p h = refl
  flush-chunks_of n (x ∷ v) p h =
      rw (take-all n (x ∷ v) (omega arith), drop-all n (x ∷ v) (omega arith), pieces-nil)

  chunk_all-from :
      (n : ℕ) (buffer : List A) (parts : List (List A))
      → 0 < n
      → length buffer < n
      → chunk_all (some n) buffer parts ≡ chunks_of n (buffer ++ flatten parts)
  unfolding chunk_all flatten
  chunk_all-from n buffer [] p h = rw append-nil (flush-chunks_of n buffer p h)
  chunk_all-from n buffer (part ∷ parts) p h =
      let s = decode-Splits n (flatten parts) buffer part p h in
      rw (chunk_all-from n (decode (some n) buffer part).1 parts p s.1) s.0

  -- For a positive chunk size, the chunks that the calls of `decode` and the final `flush` return
  -- are the content cut into pieces of that size, whatever the parts that the content came in.
  pub chunk_all-chunks_of :
      (n : ℕ) (parts : List (List A))
      → 0 < n
      → chunk_all (some n) [] parts ≡ chunks_of n (flatten parts)
  chunk_all-chunks_of n parts p = chunk_all-from n [] parts p (omega arith)

  pub flatten-pieces : (r n : ℕ) (v : List A) → 0 < n → length v ≤ r → flatten (pieces r n v) ≡ v
  unfolding pieces flatten
  flatten-pieces zero n [] p h = refl
  flatten-pieces zero n (x ∷ v) p h = absurd (omega arith)
  flatten-pieces (suc r) n [] p h = refl
  flatten-pieces (suc r) n (x ∷ v) p h =
      ap (λ t. take n (x ∷ v) ++ t)
        (flatten-pieces r n (drop n (x ∷ v)) p (omega (arith, length-drop n (x ∷ v))))
      ∙ take-append-drop n (x ∷ v)

  -- The sizes of chunks: from 1 to `n`.
  abbrev pub HasSize : ℕ → List A → Type 0
  HasSize n c = (0 < length c) × (length c ≤ n)

  pieces-HasSize : (r n : ℕ) (v : List A) → 0 < n → All (HasSize n) (pieces r n v)
  unfolding pieces
  pieces-HasSize zero n v p = tt
  pieces-HasSize (suc r) n [] p = tt
  pieces-HasSize (suc r) n (x ∷ v) p = (
    (omega (arith, length-take n (x ∷ v)), omega (arith, length-take n (x ∷ v))),
    pieces-HasSize r n (drop n (x ∷ v)) p,
  )

  -- Nothing is lost or repeated, and no chunk is empty or larger than the size asked for.
  pub chunk_all-content :
      (n : ℕ) (parts : List (List A))
      → 0 < n
      → (flatten (chunk_all (some n) [] parts) ≡ flatten parts)
        × All (HasSize n) (chunk_all (some n) [] parts)
  chunk_all-content n parts p = rw (chunk_all-chunks_of n parts p) (
    flatten-pieces (length (flatten parts)) n (flatten parts) p (omega arith),
    pieces-HasSize (length (flatten parts)) n (flatten parts) p,
  )
