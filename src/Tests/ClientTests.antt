-- ===== src/Tests/ClientTests.antt =====
-- Headers and redirects at concrete inputs.
use httpx.Prelude.{
  ℕ, ◌≡◌, refl, true, false, Option, none, some, [], ◌∷◌, Str, codes, str_eq, if◌then◌else◌,
}
use httpx.Headers.{Headers, from_pairs, get, set, lower}
use httpx.Headers.Lookup.{get-set}
use httpx.Redirects.{
  Urls, Request, Response, origin_eq, is_https_redirect, redirect_headers, send_handling_redirects,
}
use httpx.Redirects.Safety.{redirect_headers-credentials}
use httpx.Redirects.Limit.{Ended, redirects_end}

abbrev sent_headers : Headers
sent_headers =
    from_pairs ((codes "Accept", codes "a") ∷ (codes "Authorization", codes "secret") ∷ [])

get-set_example : get (codes "ACCEPT") (set (codes "accept") (codes "b") sent_headers) ≡ (
    if str_eq (lower (codes "accept")) (lower (codes "ACCEPT"))
    then some (codes "b")
    else get (codes "ACCEPT") sent_headers)
get-set_example = get-set (codes "ACCEPT") (codes "accept") (codes "b") sent_headers

-- URLs that are their hosts.
abbrev hosts : Urls Str
hosts = record {
  parse = λ s. some s;
  origin = λ u. record { scheme = codes "http"; host = u; port = some 80 };
  netloc = λ u. u;
  has_scheme = λ u. true;
  has_host = λ u. true;
  with_host_of = λ base u. some base;
  is_relative_url = λ u. false;
  join = λ base u. some u;
  has_fragment = λ u. false;
  with_fragment_of = λ base u. u;
}

abbrev request : Request Str Str
request = record {
  method = codes "GET";
  url = codes "a.org";
  headers = sent_headers;
  stream = none;
}

other_origin : origin_eq (hosts.origin (codes "b.org")) (hosts.origin request.url) ≡ false
unfolding origin_eq str_eq
other_origin = refl

redirect_headers-credentials_example :
    (get (codes "Authorization") (redirect_headers hosts request (codes "b.org") (codes "GET")) ≡ (
      if is_https_redirect (hosts.origin request.url) (hosts.origin (codes "b.org"))
      then get (codes "Authorization") request.headers
      else none))
    × (get (codes "Cookie") (redirect_headers hosts request (codes "b.org") (codes "GET")) ≡ none)
    × (get (codes "Host") (redirect_headers hosts request (codes "b.org") (codes "GET"))
        ≡ some (codes "b.org"))
redirect_headers-credentials_example =
    redirect_headers-credentials hosts request (codes "b.org") (codes "GET") other_origin

-- A server that redirects for ever.
abbrev again : ℕ → Request Str Str → Option Response
again n r =
    some
      (record { status_code = 302; headers = from_pairs ((codes "Location", codes "a.org") ∷ []) })

redirects_end_example :
    Ended 2 (send_handling_redirects hosts 2 again (λ n. true) 4 true 0 [] request)
redirects_end_example = redirects_end hosts 2 again (λ n. true) true request
