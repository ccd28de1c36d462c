-- ===== src/Tests/AuthTests.antt =====
-- Digest authentication and the text of URLs at concrete inputs.
use httpx.Prelude.{ℕ, ◌≡◌, refl, Option, none, some, [], ◌∷◌, Str, codes, str_eq}
use httpx.Headers.{from_pairs, contains, get_list, set}
use httpx.Auth.Challenge.{ok, parse_challenge}
use httpx.Auth.Digest.{
  nonce_count_text, Request, Response, create, second_request, digest_header, answer_challenge,
  build_auth_header, resolve_qop, header_value, hash_a1,
}
use httpx.Auth.Counting.{IsAnswered, second_request-IsAnswered}

-- A hash that gives one text, for any algorithm.
abbrev hash_func : Str → Option (Str → Str)
hash_func name = some (λ s. codes "h")

abbrev client_nonce : ℕ → Str → Str
client_nonce n nonce = codes "c"

abbrev request : Request
request = record { method = codes "GET"; raw_path = codes "/"; headers = [] }

abbrev challenged : Response
challenged = record {
  status_code = 401;
  headers = from_pairs ((codes "WWW-Authenticate", codes "Digest realm=r, nonce=n, qop=auth") ∷ []);
}

abbrev answered : Request
answered = record request {
  headers =
      set (codes "Authorization")
        (header_value hash_func client_nonce (create (codes "u") (codes "p"))
          (record {
            realm = codes "r";
            nonce = codes "n";
            algorithm = codes "MD5";
            opaque = none;
            qop = some (codes "auth");
          })
          request 1 (λ s. codes "h") (some (codes "auth")))
        [];
}

answers :
    (second_request hash_func client_nonce
      (λ r. r)
      request
      challenged
      (create (codes "u") (codes "p"))).0
    ≡ some (ok answered)
unfolding second_request build_auth_header answer_challenge digest_header parse_challenge
    resolve_qop contains get_list str_eq create header_value hash_a1 from_pairs
answers = refl

second_request-IsAnswered_example :
    IsAnswered hash_func client_nonce
      (λ r. r)
      request
      answered
      (create (codes "u") (codes "p"))
      (second_request hash_func client_nonce
        (λ r. r)
        request
        challenged
        (create (codes "u") (codes "p"))).1
second_request-IsAnswered_example =
    second_request-IsAnswered hash_func client_nonce (λ r. r) request answered challenged
      (create (codes "u") (codes "p")) answers

-- The count is not cut to eight digits.
long_count : nonce_count_text 4294967298 ≡ codes "100000002"
unfolding nonce_count_text
long_count = refl
