-- ===== src/Content.antt =====
-- httpx2/httpx2/_content.py: the body of a request and the headers that frame it. Python's
-- `urlencode` is a parameter, and a JSON value is given by its text.
pub mod Framed
use httpx.Prelude.{
  ℕ, ◌+◌, ◌-◌, Bool, true, false, Option, none, some, List, [], ◌∷◌, ◌++◌, if◌then◌else◌, Str,
  codes, length, drop,
}
use httpx.Decoders.Chunker.{pieces}
use httpx.Multipart.{to_bytes, File, Field, FileTuple}
use httpx.Multipart.Stream.{
  Run, finished, Form, one, many, chunk_size, iter_fields, iter_chunks, Framing, content_length,
  chunked, get_framing,
}

-- What a caller gives as content: a text, bytes, a file, or an iterable of chunks.
pub data Content : Type 0 where
  text bytes : Str → Content
  file : File → Content
  iterable async_iterable : List Str → Content

-- The streams of a body.
pub data Body : Type 0 where
  byte_stream : Str → Body
  iterator_stream : Content → Body
  multipart_stream : Str → List Field → Body

-- A body with the header that frames it, if there is one, and the type of its content.
pub record Encoded : Type 0 where
  pub framing : Option Framing
  pub content_type : Option Str
  pub body : Body

-- `peek_filelike_remaining_length` of _utils.py
unfoldable pub peek_filelike_remaining_length : Content → Option ℕ
peek_filelike_remaining_length (text t) = none
peek_filelike_remaining_length (bytes b) = none
peek_filelike_remaining_length (file f) =
    if f.can_seek then some (length f.content - f.position) else none
peek_filelike_remaining_length (iterable parts) = none
peek_filelike_remaining_length (async_iterable parts) = none

-- What IteratorByteStream reads of its content, the first time.
unfoldable pub iterate : Content → List Str
unfolding to_bytes
iterate (text t) = to_bytes t ∷ []
iterate (bytes b) = b ∷ []
iterate (file f) =
    pieces (length (drop f.position f.content)) chunk_size (drop f.position f.content)
iterate (iterable parts) = parts
iterate (async_iterable parts) = parts

-- The chunks of a body.
unfoldable pub body_chunks : Body → Run
unfolding iterate
body_chunks (byte_stream b) = finished (b ∷ [])
body_chunks (iterator_stream c) = finished (iterate c)
body_chunks (multipart_stream boundary fields) = iter_chunks boundary fields

abbrev length_if_any : Str → Option Framing
length_if_any [] = none
length_if_any (c ∷ cs) = some (content_length (length (c ∷ cs)))

abbrev pub framing_of : Option ℕ → Framing
framing_of none = chunked
framing_of (some n) = content_length n

unfoldable pub encode_bytes : Str → Encoded
encode_bytes b = record { framing = length_if_any b; content_type = none; body = byte_stream b }

unfoldable pub encode_iterable : Content → Encoded
unfolding peek_filelike_remaining_length
encode_iterable c = record {
  framing = some (framing_of (peek_filelike_remaining_length c));
  content_type = none;
  body = iterator_stream c;
}

-- `encode_content`
unfoldable pub encode_content : Content → Encoded
unfolding encode_bytes encode_iterable to_bytes
encode_content (text t) = encode_bytes (to_bytes t)
encode_content (bytes b) = encode_bytes b
encode_content (file f) = encode_iterable (file f)
encode_content (iterable parts) = encode_iterable (iterable parts)
encode_content (async_iterable parts) = record {
  framing = some chunked;
  content_type = none;
  body = iterator_stream (async_iterable parts);
}

-- A text of some type: `encode_text`, `encode_html` and `encode_json`.
unfoldable pub encode_typed : Str → Str → Encoded
unfolding to_bytes
encode_typed content_type t = record {
  framing = some (content_length (length (to_bytes t)));
  content_type = some content_type;
  body = byte_stream (to_bytes t);
}

unfoldable pub encode_text : Str → Encoded
unfolding encode_typed
encode_text t = encode_typed (codes "text/plain; charset=utf-8") t

unfoldable pub encode_html : Str → Encoded
unfolding encode_typed
encode_html t = encode_typed (codes "text/html; charset=utf-8") t

unfoldable pub encode_json : Str → Encoded
unfolding encode_typed
encode_json t = encode_typed (codes "application/json") t

abbrev pairs_of : Str → List Str → List (Str × Str)
pairs_of k [] = []
pairs_of k (v ∷ vs) = (k, v) ∷ pairs_of k vs

unfoldable pub plain_data : List (Str × Form) → List (Str × Str)
plain_data [] = []
plain_data ((k, one v) ∷ d) = (k, v) ∷ plain_data d
plain_data ((k, many vs) ∷ d) = pairs_of k vs ++ plain_data d

unfoldable pub encode_urlencoded_data : (List (Str × Str) → Str) → List (Str × Form) → Encoded
unfolding encode_typed plain_data
encode_urlencoded_data urlencode d =
    encode_typed (codes "application/x-www-form-urlencoded") (urlencode (plain_data d))

abbrev multipart_type : Str → Str
multipart_type boundary = codes "multipart/form-data; boundary=" ++ boundary

-- `encode_multipart_data`; none is the ValueError of a header.
unfoldable pub encode_multipart_data :
    (Str → Option Str) → List (Str × Form) → List (Str × FileTuple) → Str → Option Encoded
unfolding get_framing iter_fields
encode_multipart_data guess d files boundary =
    elim (get_framing boundary (iter_fields guess d files)) [
      | none ↦ none
      | some framing ↦ some (record {
        framing = some framing;
        content_type = some (multipart_type boundary);
        body = multipart_stream boundary (iter_fields guess d files);
      })
    ]

-- The argument `data`: a form, or content as for `content`.
pub data Data : Type 0 where
  form : List (Str × Form) → Data
  raw : Content → Data

pub record Arguments : Type 0 where
  pub content : Option Content
  pub data_argument : Option Data
  pub files : List (Str × FileTuple)
  pub json : Option Str

abbrev pub no_body : Encoded
no_body = record { framing = none; content_type = none; body = byte_stream [] }

module _ (urlencode : List (Str × Str) → Str) (guess : Str → Option Str) (boundary : Str) where
  -- `encode_request` when `data` is a form, or empty.
  unfoldable pub encode_form :
      Option Content → List (Str × Form) → List (Str × FileTuple) → Option Str → Option Encoded
  unfolding encode_content encode_urlencoded_data encode_json
  encode_form (some c) d files json = some (encode_content c)
  encode_form none d (f ∷ files) json = encode_multipart_data guess d (f ∷ files) boundary
  encode_form none (item ∷ d) [] json = some (encode_urlencoded_data urlencode (item ∷ d))
  encode_form none [] [] (some t) = some (encode_json t)
  encode_form none [] [] none = some no_body

  unfoldable pub encode_request : Arguments → Option Encoded
  unfolding encode_form encode_content
  encode_request a = elim a.data_argument [
    | some (raw c) ↦ some (encode_content c)
    | some (form d) ↦ encode_form a.content d a.files a.json
    | none ↦ encode_form a.content [] a.files a.json
  ]

-- `encode_response`
unfoldable pub encode_response : Option Content → Option Str → Option Str → Option Str → Encoded
unfolding encode_content encode_text encode_html encode_json
encode_response (some c) t html json = encode_content c
encode_response none (some t) html json = encode_text t
encode_response none none (some html) json = encode_html html
encode_response none none none (some json) = encode_json json
encode_response none none none none = no_body
