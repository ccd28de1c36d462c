-- ===== src/Multipart/Length.antt =====
-- The length that is announced for a form is that of its bytes.
use mathlib.Core.List.{flatten}
use httpx.Prelude.{
  ℕ, ◌+◌, ◌≡◌, refl, ap, sym, ◌∙◌, Bool, true, false, Option, none, some, List, [], ◌∷◌, ◌++◌,
  if◌then◌else◌, Str, length, length-append, All, arith,
}
use httpx.Decoders.Chunker.{pieces}
use httpx.Decoders.Chunker.Pieces.{flatten-pieces}
use httpx.Multipart.{
  to_bytes, File, FileContent, text, bytes, stream, Field, data_field, file_field,
  render_data_headers, render_file_headers,
}
use httpx.Multipart.Stream.{
  peek_filelike_length, chunk_size, file_rest, render_file_data, finished, raised, yield_first,
  and_then, render, Count, known, unknown, value_error, data_length, get_length, iter_chunks,
  count_from, get_content_length, add_header,
}

-- A size that the system reports for a file is the number of bytes that are read of it.
abbrev IsHonestFile : FileContent → Type 0
IsHonestFile (text t) = Unit
IsHonestFile (bytes b) = Unit
IsHonestFile (stream f) = (n : ℕ) → f.stat_size ≡ some n → n ≡ length (file_rest f)

abbrev pub IsHonest : Field → Type 0
IsHonest (data_field f) = Unit
IsHonest (file_field f) = IsHonestFile f.file

-- The bytes of some chunks.
abbrev total : List Str → ℕ
total [] = 0
total (c ∷ cs) = length c + total cs

total-append : (cs ds : List Str) → total (cs ++ ds) ≡ total cs + total ds
total-append [] ds = omega arith
total-append (c ∷ cs) ds = let e = total-append cs ds in omega arith

length-flatten : (cs : List Str) → length (flatten cs) ≡ total cs
unfolding flatten
length-flatten [] = refl
length-flatten (c ∷ cs) =
    let e = length-flatten cs in let a = length-append c (flatten cs) in omega arith

total-read : (s : Str) → total (pieces (length s) chunk_size s) ≡ length s
total-read s =
    let same = flatten-pieces (length s) chunk_size s (omega arith) (omega arith) in
    sym (length-flatten (pieces (length s) chunk_size s)) ∙ ap length same

known_eq : (m n : ℕ) → known m ≡ known n → m ≡ n
known_eq m n h = cc

peek-length :
    (f : File) (n : ℕ)
    → IsHonestFile (stream f)
    → peek_filelike_length f ≡ some n
    → n ≡ length (file_rest f)
unfolding peek_filelike_length file_rest
peek-length f n h e = from f.stat_size f.can_seek refl refl e
  where
    from :
        (o : Option ℕ) (b : Bool)
        → f.stat_size ≡ o
        → f.can_seek ≡ b
        → elim o [ some m ↦ some m | none ↦ if b then some (length f.content) else none ] ≡ some n
        → n ≡ length (file_rest f)
    from (some m) b s k e' = h n (s ∙ e')
    from none true s k e' = let same : length f.content ≡ n = cc in rw k (sym same)
    from none false s k e' = cc

data-length :
    (c : FileContent) (n : ℕ)
    → IsHonestFile c
    → data_length c ≡ some n
    → total (render_file_data c) ≡ n
unfolding data_length render_file_data
data-length (text t) n h e = let same : length (to_bytes t) ≡ n = cc in omega arith
data-length (bytes b) n h e = let same : length b ≡ n = cc in omega arith
data-length (stream f) n h e = total-read (file_rest f) ∙ sym (peek-length f n h e)

add_header-known :
    (n m : ℕ) (o : Option ℕ) → add_header n o ≡ known m → (k : ℕ) × (o ≡ some k) × (m ≡ n + k)
add_header-known n m none e = cc
add_header-known n m (some k) e = (k, refl, sym (known_eq (n + k) m e))

-- A field whose length is known renders, and into that many bytes.
render-length :
    (f : Field) (m : ℕ)
    → IsHonest f
    → get_length f ≡ known m
    → (cs : List Str) × (render f ≡ finished cs) × (total cs ≡ m)
unfolding render get_length
render-length (data_field f) m h e =
    let same = known_eq (length (render_data_headers f) + length f.value) m e in
    (render_data_headers f ∷ f.value ∷ [], refl, omega arith)
render-length (file_field f) m h e = from (render_file_headers f) e
  where
    from :
        (o : Option Str)
        → elim o [ none ↦ value_error | some hs ↦ add_header (length hs) (data_length f.file) ]
          ≡ known m
        → (cs : List Str) × (elim o [
          | none ↦ raised []
          | some hs ↦ finished (hs ∷ render_file_data f.file)
        ]
            ≡ finished cs)
          × (total cs ≡ m)
    from none e' = cc
    from (some hs) e' =
        let (k, a, b) = add_header-known (length hs) m (data_length f.file) e' in
        let d = data-length f.file k h a in (hs ∷ render_file_data f.file, refl, omega arith)

module _ (boundary : Str) where
  Counted : ℕ → List Field → ℕ → Type 0
  Counted n fs k = (cs : List Str) × (iter_chunks boundary fs ≡ finished cs) × (n + total cs ≡ k)

  counted :
      (fs : List Field) (n k : ℕ)
      → All IsHonest fs
      → count_from boundary n fs ≡ known k
      → Counted n fs k
  unfolding count_from iter_chunks and_then yield_first Counted
  counted [] n k h e =
      let same = known_eq (n + (2 + length boundary + 4)) k e in
      let o = length-append boundary (45 ∷ 45 ∷ 13 ∷ 10 ∷ []) in
      ((45 ∷ 45 ∷ boundary ++ 45 ∷ 45 ∷ 13 ∷ 10 ∷ []) ∷ [], refl, omega arith)
  counted (f ∷ fs) n k h e = from (get_length f) refl e (λ i e'. counted fs i k h.1 e')
    where
      from :
          (c : Count)
          → get_length f ≡ c
          → elim c [
            | value_error ↦ value_error
            | unknown ↦ unknown
            | known m ↦ count_from boundary (n + (2 + length boundary + 2) + m + 2) fs
          ]
            ≡ known k
          → ((i : ℕ) → count_from boundary i fs ≡ known k → Counted i fs k)
          → Counted n (f ∷ fs) k
      from value_error g e' later = cc
      from unknown g e' later = cc
      from (known m) g e' later =
          let (cs, r, t) = render-length f m h.0 g in
          let (ds, i, u) = later (n + (2 + length boundary + 2) + m + 2) e' in
          let o = length-append boundary (13 ∷ 10 ∷ []) in
          let a = total-append cs ((13 ∷ 10 ∷ []) ∷ ds) in
          (
            (45 ∷ 45 ∷ boundary ++ 13 ∷ 10 ∷ []) ∷ cs ++ (13 ∷ 10 ∷ []) ∷ ds,
            rw (r, i) refl,
            omega arith,
          )

  -- If `get_content_length` gives a length, then rendering the form raises nothing, and the chunks
  -- are together that many bytes, provided that a size which the system reports for a file is the
  -- number of bytes that are read of it.
  pub get_content_length-iter_chunks :
      (fs : List Field) (n : ℕ)
      → All IsHonest fs
      → get_content_length boundary fs ≡ known n
      → (cs : List Str) × (iter_chunks boundary fs ≡ finished cs) × (length (flatten cs) ≡ n)
  unfolding get_content_length Counted
  get_content_length-iter_chunks fs n h e =
      let (cs, i, t) = counted fs 0 n h e in (cs, i, length-flatten cs ∙ (omega arith))
