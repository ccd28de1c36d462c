-- ===== src/Content/Framed.antt =====
-- The length that frames a body is that of the body.
use mathlib.Core.List.{flatten}
use httpx.Prelude.{
  ℕ, ◌-◌, ◌≡◌, refl, ap, subst, ◌∙◌, Bool, true, false, Option, none, some, List, [], ◌∷◌, ◌++◌,
  append-nil, if◌then◌else◌, Str, codes, length, length-drop, drop, All, arith,
}
use httpx.Decoders.Chunker.{pieces}
use httpx.Decoders.Chunker.Pieces.{flatten-pieces}
use httpx.Multipart.{to_bytes, File, FileTuple}
use httpx.Multipart.Length.{IsHonest, get_content_length-iter_chunks}
use httpx.Multipart.Stream.{
  finished, Form, chunk_size, iter_fields, Framing, content_length, chunked, get_framing, Count,
  known, unknown, value_error, get_content_length,
}
use httpx.Content.{
  Content, text, bytes, file, iterable, async_iterable, Body, byte_stream, iterator_stream,
  multipart_stream, Encoded, peek_filelike_remaining_length, iterate, body_chunks, framing_of,
  encode_bytes, encode_iterable, encode_content, encode_typed, encode_urlencoded_data, plain_data,
  encode_json, encode_multipart_data, Data, form, raw, Arguments, encode_form, encode_request,
}

-- The chunks of a body are together so many bytes.
abbrev pub HasLength : Body → ℕ → Type 0
HasLength b n = (cs : List Str) × (body_chunks b ≡ finished cs) × (length (flatten cs) ≡ n)

-- What a frame says of a body: its length, that it comes in chunks, or without a frame that there
-- is none.
abbrev pub Frames : Option Framing → Body → Type 0
Frames none b = HasLength b 0
Frames (some (content_length n)) b = HasLength b n
Frames (some chunked) b = Unit

abbrev IsFramed : Encoded → Type 0
IsFramed e = Frames e.framing e.body

flatten-one : (b : Str) → flatten (b ∷ []) ≡ b
unfolding flatten
flatten-one b = append-nil b

bytes-HasLength : (b : Str) → HasLength (byte_stream b) (length b)
unfolding body_chunks
bytes-HasLength b = (b ∷ [], refl, ap length (flatten-one b))

encode_bytes-IsFramed : (b : Str) → IsFramed (encode_bytes b)
unfolding encode_bytes
encode_bytes-IsFramed [] = bytes-HasLength []
encode_bytes-IsFramed (c ∷ cs) = bytes-HasLength (c ∷ cs)

file-HasLength : (f : File) → HasLength (iterator_stream (file f)) (length f.content - f.position)
unfolding body_chunks iterate
file-HasLength f =
    let s = drop f.position f.content in
    (
      pieces (length s) chunk_size s,
      refl,
      ap length (flatten-pieces (length s) chunk_size s (omega arith) (omega arith))
          ∙ length-drop f.position f.content,
    )

encode_file-IsFramed : (f : File) → IsFramed (encode_iterable (file f))
unfolding encode_iterable peek_filelike_remaining_length
encode_file-IsFramed f = from f.can_seek
  where
    from :
        (b : Bool)
        → Frames
            (some (framing_of (if b then some (length f.content - f.position) else none)))
            (iterator_stream (file f))
    from true = file-HasLength f
    from false = tt

encode_content-IsFramed : (c : Content) → IsFramed (encode_content c)
unfolding encode_content encode_iterable peek_filelike_remaining_length
encode_content-IsFramed (text t) = encode_bytes-IsFramed (to_bytes t)
encode_content-IsFramed (bytes b) = encode_bytes-IsFramed b
encode_content-IsFramed (file f) = encode_file-IsFramed f
encode_content-IsFramed (iterable parts) = tt
encode_content-IsFramed (async_iterable parts) = tt

-- What can be returned, if anything is.
abbrev IsFramedIfAny : Option Encoded → Type 0
IsFramedIfAny none = Unit
IsFramedIfAny (some e) = IsFramed e

module _ (urlencode : List (Str × Str) → Str) (guess : Str → Option Str) (boundary : Str) where
  multipart-IsFramed :
      (d : List (Str × Form)) (files : List (Str × FileTuple))
      → All IsHonest (iter_fields guess d files)
      → IsFramedIfAny (encode_multipart_data guess d files boundary)
  unfolding encode_multipart_data get_framing body_chunks
  multipart-IsFramed d files h = from (get_content_length boundary (iter_fields guess d files)) refl
    where
      from :
          (c : Count)
          → get_content_length boundary (iter_fields guess d files) ≡ c
          → IsFramedIfAny
              (elim (elim c as (λ x. Option Framing) [
                | known n ↦ some (content_length n)
                | unknown ↦ some chunked
                | value_error ↦ none
              ]) [
                | none ↦ none
                | some framing ↦ some (record {
                  framing = some framing;
                  content_type = some (codes "multipart/form-data; boundary=" ++ boundary);
                  body = multipart_stream boundary (iter_fields guess d files);
                })
              ])
      from (known n) e = get_content_length-iter_chunks boundary (iter_fields guess d files) n h e
      from unknown e = tt
      from value_error e = tt

  encode_form-IsFramed :
      (c : Option Content) (d : List (Str × Form)) (files : List (Str × FileTuple))
      (json : Option Str)
      → All IsHonest (iter_fields guess d files)
      → IsFramedIfAny (encode_form urlencode guess boundary c d files json)
  unfolding encode_form encode_urlencoded_data encode_json encode_typed
  encode_form-IsFramed (some c) d files json h = encode_content-IsFramed c
  encode_form-IsFramed none d (f ∷ files) json h = multipart-IsFramed d (f ∷ files) h
  encode_form-IsFramed none (item ∷ d) [] json h =
      bytes-HasLength (to_bytes (urlencode (plain_data (item ∷ d))))
  encode_form-IsFramed none [] [] (some t) h = bytes-HasLength (to_bytes t)
  encode_form-IsFramed none [] [] none h = bytes-HasLength []

  abbrev form_of : Option Data → List (Str × Form)
  form_of none = []
  form_of (some (form d)) = d
  form_of (some (raw c)) = []

  -- Whatever the arguments, the body of a request is framed as the headers say: with a
  -- `Content-Length`, its chunks are together that many bytes, and with no framing header it is
  -- empty. A size that the system reports for a file of a multipart form is assumed to be the number
  -- of bytes that are read of it.
  pub encode_request-framed :
      (a : Arguments) (e : Encoded)
      → All IsHonest (iter_fields guess (form_of a.data_argument) a.files)
      → encode_request urlencode guess boundary a ≡ some e
      → Frames e.framing e.body
  unfolding encode_request
  encode_request-framed a e h s = from a.data_argument h s
    where
      is_framed : (o : Option Encoded) → IsFramedIfAny o → o ≡ some e → IsFramed e
      is_framed none g t = cc
      is_framed (some e') g t = let same : e' ≡ e = cc in subst IsFramed same g

      from :
          (o : Option Data)
          → All IsHonest (iter_fields guess (form_of o) a.files)
          → elim o as (λ x. Option Encoded) [
            | some (raw c) ↦ some (encode_content c)
            | some (form d) ↦ encode_form urlencode guess boundary a.content d a.files a.json
            | none ↦ encode_form urlencode guess boundary a.content [] a.files a.json
          ]
            ≡ some e
          → IsFramed e
      from (some (raw c)) k t = is_framed (some (encode_content c)) (encode_content-IsFramed c) t
      from (some (form d)) k t =
          is_framed (encode_form urlencode guess boundary a.content d a.files a.json)
            (encode_form-IsFramed a.content d a.files a.json k) t
      from none k t =
          is_framed (encode_form urlencode guess boundary a.content [] a.files a.json)
            (encode_form-IsFramed a.content [] a.files a.json k) t
