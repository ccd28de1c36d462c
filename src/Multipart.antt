-- ===== src/Multipart.antt =====
-- httpx2/httpx2/_multipart.py: the fields of a form, their bytes, and the length that is announced
-- for them. Texts are code points until they are encoded. `mimetypes` is a parameter.
pub mod Stream
pub mod Length
pub mod Escaping
use httpx.Prelude.{
  ℕ, zero, suc, ◌+◌, ◌/◌, ◌%◌, Bool, true, false, not, ◌&&◌, ◌||◌, Option, none, some, List, [],
  ◌∷◌, ◌++◌, if◌then◌else◌, ◌==◌, ltb, leb, Str, codes, length, drop, any,
}
use httpx.Decoders.Chunker.{pieces}
use httpx.Headers.{lower}
use httpx.Mounts.Environment.{contains_text}
use httpx.Url.Path.{starts_with}
use httpx.Url.Quote.{encode, hex_digit}
use httpx.Auth.Challenge.{strip}

-- text.encode()
unfoldable pub to_bytes : Str → Str
unfolding encode
to_bytes [] = []
to_bytes (c ∷ cs) = encode c ++ to_bytes cs

abbrev crlf : Str
crlf = 13 ∷ 10 ∷ []

-- _HTML5_FORM_ENCODING_REPLACEMENTS, and a character that is not in it
unfoldable pub replacement : ℕ → Str
unfolding hex_digit
replacement c =
    if c == 34
    then codes "%22"
    else if c == 92
    then 92 ∷ 92 ∷ []
    else if leb c 0x1f && not (c == 0x1b)
    then 37 ∷ hex_digit (c / 16) ∷ hex_digit (c % 16) ∷ []
    else c ∷ []

unfoldable pub replace_all : Str → Str
unfolding replacement
replace_all [] = []
replace_all (c ∷ cs) = replacement c ++ replace_all cs

-- `_format_form_param`
unfoldable pub format_form_param : Str → Str → Str
unfolding to_bytes replace_all
format_form_param name value = to_bytes (name ++ (61 ∷ 34 ∷ replace_all value ++ 34 ∷ []))

-- content_type.split(b";")
abbrev cons_first : ℕ → List Str → List Str
cons_first c [] = (c ∷ []) ∷ []
cons_first c (x ∷ xs) = (c ∷ x) ∷ xs

unfoldable pub sections : Str → List Str
sections [] = [] ∷ []
sections (c ∷ cs) = let rest = sections cs in if c == 59 then [] ∷ rest else cons_first c rest

abbrev is_ascii_space : ℕ → Bool
is_ascii_space c = (leb 9 c && leb c 13) || c == 32

unfoldable pub boundary_of : List Str → Option Str
unfolding strip lower starts_with
boundary_of [] = none
boundary_of (s ∷ ss) =
    let rest = boundary_of ss in
    if starts_with (codes "boundary=") (lower (strip is_ascii_space s))
    then some (strip (λ c. c == 34) (drop 9 (strip is_ascii_space s)))
    else rest

unfoldable pub get_multipart_boundary_from_content_type : Option Str → Option Str
unfolding boundary_of sections starts_with
get_multipart_boundary_from_content_type none = none
get_multipart_boundary_from_content_type (some content_type) =
    if not (starts_with (codes "multipart/form-data") content_type)
    then none
    else if any (λ c. c == 59) content_type
    then boundary_of (sections content_type)
    else none

-- DataField, whose value is encoded.
pub record DataField : Type 0 where
  pub name : Str
  pub value : Str

-- A file object: its bytes, the position in it, the size that `fileno` and `fstat` give if they
-- raise nothing, and whether it can be sought.
pub record File : Type 0 where
  pub content : Str
  pub position : ℕ
  pub stat_size : Option ℕ
  pub can_seek : Bool

pub data FileContent : Type 0 where
  text bytes : Str → FileContent
  stream : File → FileContent

pub record FileField : Type 0 where
  pub name : Str
  pub filename : Option Str
  pub file : FileContent
  pub headers : List (Str × Str)

pub data Field : Type 0 where
  data_field : DataField → Field
  file_field : FileField → Field

-- The tuple that a file is given as: the type and the headers may be absent.
pub record FileTuple : Type 0 where
  pub name : Option Str
  pub file : FileContent
  pub content_type : Option Str
  pub headers : List (Str × Str)

abbrev is_empty : Str → Bool
is_empty [] = true
is_empty (c ∷ cs) = false

abbrev or_octets : Option Str → Str
or_octets none = codes "application/octet-stream"
or_octets (some t) = t

-- `_guess_content_type`, with what `mimetypes` guesses
unfoldable pub guess_content_type : (Str → Option Str) → Option Str → Option Str
guess_content_type guess none = none
guess_content_type guess (some filename) =
    if is_empty filename then none else some (or_octets (guess filename))

abbrev or_else : Option Str → Option Str → Option Str
or_else none t = t
or_else (some s) t = some s

unfoldable pub has_content_type_header : List (Str × Str) → Bool
unfolding contains_text lower
has_content_type_header [] = false
has_content_type_header ((k, v) ∷ hs) =
    contains_text (codes "content-type") (lower k) || has_content_type_header hs

-- `FileField.__init__`
unfoldable pub create_file_field : (Str → Option Str) → Str → FileTuple → FileField
unfolding guess_content_type has_content_type_header
create_file_field guess name value = record {
  name = name;
  filename = value.name;
  file = value.file;
  headers = elim (or_else value.content_type (guess_content_type guess value.name)) [
    | none ↦ value.headers
    | some t ↦
        if has_content_type_header value.headers
        then value.headers
        else value.headers ++ (codes "Content-Type", t) ∷ []
  ];
}

-- `render_headers` of DataField
unfoldable pub render_data_headers : DataField → Str
unfolding format_form_param
render_data_headers f =
    codes "Content-Disposition: form-data; "
    ++ (format_form_param (codes "name") f.name ++ (crlf ++ crlf))

abbrev is_header_name_char : ℕ → Bool
is_header_name_char c =
    (leb 48 c && leb c 57)
    || ((leb 65 c && leb c 90)
        || ((leb 97 c && leb c 122) || any (λ d. c == d) (codes "!#$%&'*+-.^_`|~")))

abbrev all_in : (ℕ → Bool) → Str → Bool
all_in p [] = true
all_in p (c ∷ cs) = p c && all_in p cs

-- _HEADER_NAME_RE.fullmatch
unfoldable pub is_header_name : Str → Bool
is_header_name s = not (is_empty s) && all_in is_header_name_char s

-- _FORBIDDEN_HEADER_VALUE_CHARS_RE
unfoldable pub is_forbidden : ℕ → Bool
is_forbidden c = leb c 8 || ((leb 10 c && leb c 0x1f) || c == 0x7f)

-- The loop over the headers; none is the ValueError.
unfoldable pub header_parts : List (Str × Str) → Option Str
unfolding is_header_name is_forbidden to_bytes
header_parts [] = some []
header_parts ((k, v) ∷ hs) =
    let rest = header_parts hs in
    if not (is_header_name k) then none else if any is_forbidden v then none else elim rest [
      | none ↦ none
      | some t ↦ some (crlf ++ (to_bytes k ++ (58 ∷ 32 ∷ to_bytes v ++ t)))
    ]

abbrev filename_part : Option Str → Str
unfolding format_form_param
filename_part none = []
filename_part (some []) = []
filename_part (some (c ∷ cs)) = codes "; " ++ format_form_param (codes "filename") (c ∷ cs)

-- `render_headers` of FileField
unfoldable pub render_file_headers : FileField → Option Str
unfolding format_form_param header_parts
render_file_headers f = elim (header_parts f.headers) [
  | none ↦ none
  | some hs ↦ some (
      codes "Content-Disposition: form-data; "
      ++ (format_form_param (codes "name") f.name
          ++ (filename_part f.filename ++ (hs ++ (crlf ++ crlf)))))
]
