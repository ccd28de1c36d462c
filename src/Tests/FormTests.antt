-- ===== src/Tests/FormTests.antt =====
-- Multipart forms and parsed URLs at concrete inputs.
use mathlib.Core.List.{flatten}
use httpx.Prelude.{
  ◌≡◌, refl, true, none, some, List, [], ◌∷◌, ◌++◌, Str, codes, str_eq, length, All,
}
use httpx.Multipart.{
  Field, data_field, file_field, stream, to_bytes, format_form_param, render_data_headers,
  render_file_headers, header_parts,
}
use httpx.Multipart.Stream.{
  finished, known, get_content_length, get_length, iter_chunks, data_length,
}
use httpx.Multipart.Length.{IsHonest, get_content_length-iter_chunks}
use httpx.Multipart.Escaping.{IsPlainByte, format_form_param-IsPlainByte}
use httpx.Multipart.Stream.{content_length, iter_fields}
use httpx.Content.{Arguments, Encoded, file, iterator_stream, encode_request}
use httpx.Content.Framed.{Frames, encode_request-framed}
use httpx.Url.Path.{pos, normalize_path, normalize_port}
use httpx.Url.Quote.{quote, path_safe, query_safe, userinfo_safe, is_unreserved}
use httpx.Url.Split.{is_authority_char, is_letter, is_scheme_char, scheme_run, match_url}
use httpx.Url.Parse.{ParseResult}
use httpx.Url.Parse.Parts.{Names, urlparse, authority, str, netloc, decimal}
use httpx.Url.Parse.Reparse.{match_url-str}

-- A text field, and a file of three bytes of which the first was read.
abbrev form : List Field
form =
    data_field (record { name = codes "a"; value = codes "1" })
    ∷ file_field (record {
      name = codes "f";
      filename = some (codes "x");
      file =
          stream
            (record { content = 1 ∷ 2 ∷ 3 ∷ []; position = 1; stat_size = none; can_seek = true });
      headers = [];
    })
    ∷ []

form-IsHonest : All IsHonest form
form-IsHonest = (tt, (λ n h. cc, tt))

form_length : get_content_length (codes "b") form ≡ known 127
unfolding get_content_length get_length render_data_headers render_file_headers header_parts
    data_length format_form_param
form_length = refl

get_content_length-iter_chunks_example :
    (cs : List Str) × (iter_chunks (codes "b") form ≡ finished cs) × (length (flatten cs) ≡ 127)
get_content_length-iter_chunks_example =
    get_content_length-iter_chunks (codes "b") form 127 form-IsHonest form_length

format_form_param-IsPlainByte_example :
    (escaped : Str) × (format_form_param (codes "name") (34 ∷ 13 ∷ 10 ∷ [])
      ≡ to_bytes (codes "name") ++ (61 ∷ 34 ∷ escaped ++ 34 ∷ []))
    × All IsPlainByte escaped
format_form_param-IsPlainByte_example =
    format_form_param-IsPlainByte (codes "name") (34 ∷ 13 ∷ 10 ∷ [])

abbrev names : Names
names = record {
  int = λ s. some (pos 81);
  is_ipv4_address = λ s. true;
  is_ipv6_address = λ s. true;
  idna_encode = λ s. none;
}

abbrev parsed : ParseResult
parsed = record {
  scheme = codes "http";
  userinfo = [];
  host = codes "a.org";
  port = some (pos 81);
  path = codes "/y";
  query = some (codes "q");
  fragment = none;
}

url_parsed : urlparse names (codes "HTTP://A.org:81/x/../y?q") [] ≡ some parsed
unfolding urlparse normalize_path normalize_port quote str_eq path_safe query_safe userinfo_safe
    is_unreserved scheme_run
url_parsed = refl

match_url-str_example : match_url (str parsed) ≡ record {
  scheme = some (codes "http");
  authority = some (authority parsed);
  path = codes "/y";
  query = some (codes "q");
  fragment = none;
}
unfolding authority netloc is_letter is_scheme_char is_authority_char decimal
match_url-str_example =
    match_url-str names (codes "HTTP://A.org:81/x/../y?q") [] parsed url_parsed
      (refl, (refl, (refl, (refl, (refl, tt))))) refl
      (refl, (refl, (refl, (refl, (refl, (refl, (refl, (refl, tt))))))))

-- A file that was read to its second byte.
abbrev upload : Arguments
upload = record {
  content =
      some (
        file
          (record { content = 1 ∷ 2 ∷ 3 ∷ []; position = 1; stat_size = none; can_seek = true }));
  data_argument = none;
  files = [];
  json = none;
}

abbrev uploaded : Encoded
uploaded = record {
  framing = some (content_length 2);
  content_type = none;
  body =
      iterator_stream (
        file
          (record { content = 1 ∷ 2 ∷ 3 ∷ []; position = 1; stat_size = none; can_seek = true }));
}

upload_encoded : encode_request (λ ps. []) (λ s. none) (codes "b") upload ≡ some uploaded
unfolding encode_request
upload_encoded = refl

no_files : All IsHonest (iter_fields (λ s. none) [] [])
unfolding iter_fields
no_files = tt

encode_request-framed_example : Frames (some (content_length 2)) uploaded.body
encode_request-framed_example =
    encode_request-framed (λ ps. []) (λ s. none) (codes "b") upload uploaded no_files upload_encoded

-- A path of two slashes after a scheme is printed as an authority.
abbrev slashes : ParseResult
slashes = record {
  scheme = codes "x";
  userinfo = [];
  host = [];
  port = none;
  path = codes "//evil";
  query = none;
  fragment = none;
}

slashes_parsed : urlparse names (codes "x:////evil") [] ≡ some slashes
unfolding urlparse normalize_path normalize_port quote path_safe is_unreserved scheme_run
slashes_parsed = refl

slashes_printed : str slashes ≡ codes "x://evil"
unfolding str authority
slashes_printed = refl
