-- ===== src/Multipart/Stream.antt =====
-- The parts of httpx2/httpx2/_multipart.py that give out the bytes of a form and count them, with
-- `peek_filelike_length` of httpx2/httpx2/_utils.py.
use httpx.Prelude.{
  ℕ, ◌+◌, Option, none, some, List, [], ◌∷◌, ◌++◌, if◌then◌else◌, Str, length, drop,
}
use httpx.Decoders.Chunker.{pieces}
use httpx.Multipart.{
  to_bytes, File, FileContent, text, bytes, stream, Field, data_field, file_field, FileTuple,
  create_file_field, render_data_headers, render_file_headers,
}

-- `peek_filelike_length`: the size that the system knows, or the place of the end.
unfoldable pub peek_filelike_length : File → Option ℕ
peek_filelike_length f = elim f.stat_size [
  | some n ↦ some n
  | none ↦ if f.can_seek then some (length f.content) else none
]

abbrev pub chunk_size : ℕ
chunk_size = 65536

-- What is read of a file: from the start, if it can be sought.
unfoldable pub file_rest : File → Str
file_rest f = if f.can_seek then f.content else drop f.position f.content

-- `render_data` of FileField: each read but the last gives a whole chunk.
unfoldable pub render_file_data : FileContent → List Str
unfolding to_bytes file_rest
render_file_data (text t) = to_bytes t ∷ []
render_file_data (bytes b) = b ∷ []
render_file_data (stream f) = pieces (length (file_rest f)) chunk_size (file_rest f)

-- What a generator gives out before it ends or raises.
pub data Run : Type 0 where
  finished raised : List Str → Run

-- `yield` before the rest, and `yield from`
unfoldable pub yield_first : List Str → Run → Run
yield_first cs (finished ds) = finished (cs ++ ds)
yield_first cs (raised ds) = raised (cs ++ ds)

unfoldable pub and_then : Run → Run → Run
unfolding yield_first
and_then (finished cs) r = yield_first cs r
and_then (raised cs) r = raised cs

-- `render` of both kinds of field
unfoldable pub render : Field → Run
unfolding render_file_data
render (data_field f) = finished (render_data_headers f ∷ f.value ∷ [])
render (file_field f) = elim (render_file_headers f) [
  | none ↦ raised []
  | some hs ↦ finished (hs ∷ render_file_data f.file)
]

-- What counting gives: a length, that it is not known, or a ValueError.
pub data Count : Type 0 where
  known : ℕ → Count
  unknown value_error : Count

abbrev pub add_header : ℕ → Option ℕ → Count
add_header n none = unknown
add_header n (some m) = known (n + m)

-- the length of the data of a file
unfoldable pub data_length : FileContent → Option ℕ
unfolding peek_filelike_length
data_length (text t) = some (length (to_bytes t))
data_length (bytes b) = some (length b)
data_length (stream f) = peek_filelike_length f

-- `get_length` of both kinds of field
unfoldable pub get_length : Field → Count
unfolding data_length
get_length (data_field f) = known (length (render_data_headers f) + length f.value)
get_length (file_field f) = elim (render_file_headers f) [
  | none ↦ value_error
  | some hs ↦ add_header (length hs) (data_length f.file)
]

-- A value of a form: one, or a list.
pub data Form : Type 0 where
  one : Str → Form
  many : List Str → Form

unfoldable pub data_fields : Str → List Str → List Field
data_fields name [] = []
data_fields name (v ∷ vs) = data_field (record { name = name; value = v }) ∷ data_fields name vs

-- `_iter_fields`, on encoded values
unfoldable pub file_fields : (Str → Option Str) → List (Str × FileTuple) → List Field
unfolding create_file_field
file_fields guess [] = []
file_fields guess ((name, value) ∷ files) =
    file_field (create_file_field guess name value) ∷ file_fields guess files

unfoldable pub iter_fields :
    (Str → Option Str) → List (Str × Form) → List (Str × FileTuple) → List Field
unfolding data_fields file_fields
iter_fields guess [] files = file_fields guess files
iter_fields guess ((name, one v) ∷ items) files =
    data_field (record { name = name; value = v }) ∷ iter_fields guess items files
iter_fields guess ((name, many vs) ∷ items) files =
    data_fields name vs ++ iter_fields guess items files

module _ (boundary : Str) where
  abbrev opening : Str
  opening = 45 ∷ 45 ∷ boundary ++ 13 ∷ 10 ∷ []

  abbrev closing : Str
  closing = 45 ∷ 45 ∷ boundary ++ 45 ∷ 45 ∷ 13 ∷ 10 ∷ []

  -- `iter_chunks` of MultipartStream
  unfoldable pub iter_chunks : List Field → Run
  unfolding render and_then yield_first
  iter_chunks [] = finished (closing ∷ [])
  iter_chunks (f ∷ fs) =
      yield_first (opening ∷ [])
        (and_then (render f) (yield_first ((13 ∷ 10 ∷ []) ∷ []) (iter_chunks fs)))

  -- The loop of `get_content_length` from a length on.
  unfoldable pub count_from : ℕ → List Field → Count
  unfolding get_length
  count_from n [] = known (n + (2 + length boundary + 4))
  count_from n (f ∷ fs) = elim (get_length f) [
    | value_error ↦ value_error
    | unknown ↦ unknown
    | known m ↦ count_from (n + (2 + length boundary + 2) + m + 2) fs
  ]

  unfoldable pub get_content_length : List Field → Count
  unfolding count_from
  get_content_length fs = count_from 0 fs

-- `get_headers` without the type of the content: the two ways to frame the body.
pub data Framing : Type 0 where
  content_length : ℕ → Framing
  chunked : Framing

-- none is the ValueError
unfoldable pub get_framing : Str → List Field → Option Framing
unfolding get_content_length
get_framing boundary fs = elim (get_content_length boundary fs) [
  | known n ↦ some (content_length n)
  | unknown ↦ some chunked
  | value_error ↦ none
]
