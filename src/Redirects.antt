-- ===== src/Redirects.antt =====
-- Redirects in httpx2/httpx2/_client.py. URLs enter through the interface `Urls`, bodies as a type
-- of streams, and the transport with the event hooks as a function of the number of the request.
pub mod Safety
pub mod Limit
use httpx.Prelude.{
  ℕ, zero, suc, ◌+◌, Bool, true, false, not, ◌&&◌, ◌||◌, Option, none, some, List, [], ◌∷◌, ◌++◌,
  if◌then◌else◌, ◌==◌, ltb, Str, codes, str_eq, length,
}
use httpx.Headers.{Headers, contains, get, pop, set}

-- `Origin` of _urls.py
pub record Origin : Type 0 where
  pub scheme : Str
  pub host : Str
  pub port : Option ℕ

abbrev port_eq : Option ℕ → Option ℕ → Bool
port_eq none none = true
port_eq none (some q) = false
port_eq (some p) none = false
port_eq (some p) (some q) = p == q

unfoldable pub origin_eq : Origin → Origin → Bool
origin_eq a b = str_eq a.scheme b.scheme && (str_eq a.host b.host && port_eq a.port b.port)

-- What redirects use of `URL`; `none` is an InvalidURL.
pub record Urls (U : Type 0) : Type 0 where
  pub parse : Str → Option U
  pub origin : U → Origin
  pub netloc : U → Str
  pub has_scheme : U → Bool
  pub has_host : U → Bool
  pub with_host_of : U → U → Option U
  pub is_relative_url : U → Bool
  pub join : U → U → Option U
  pub has_fragment : U → Bool
  pub with_fragment_of : U → U → U

pub record Request (U B : Type 0) : Type 0 where
  pub method : Str
  pub url : U
  pub headers : Headers
  pub stream : Option B

pub record Response : Type 0 where
  pub status_code : ℕ
  pub headers : Headers

unfoldable pub has_redirect_location : Response → Bool
unfolding contains
has_redirect_location r =
    (r.status_code == 301
      || (r.status_code == 302
          || (r.status_code == 303 || (r.status_code == 307 || r.status_code == 308))))
    && contains (codes "Location") r.headers

-- `_redirect_method`: the three steps, each on the method that the one before it left.
abbrev see_other : ℕ → Str → Str
see_other status m = if status == 303 && not (str_eq m (codes "HEAD")) then codes "GET" else m

abbrev found : ℕ → Str → Str
found status m =
    if status == 302 && not (str_eq m (codes "HEAD") || str_eq m (codes "QUERY"))
    then codes "GET"
    else m

abbrev moved_permanently : ℕ → Str → Str
moved_permanently status m = if status == 301 && str_eq m (codes "POST") then codes "GET" else m

unfoldable pub redirect_method : Str → ℕ → Str
redirect_method m status = moved_permanently status (found status (see_other status m))

-- `_is_https_redirect`
unfoldable pub is_https_redirect : Origin → Origin → Bool
is_https_redirect o l =
    str_eq o.host l.host
    && (str_eq o.scheme (codes "http")
        && (port_eq o.port (some 80)
            && (str_eq l.scheme (codes "https") && port_eq l.port (some 443))))

-- Whether a redirect turns the request into a GET.
unfoldable pub switches_to_get : Str → Str → Bool
switches_to_get old new = not (str_eq new old) && str_eq new (codes "GET")

module _ {U : Type 0} (urls : Urls U) where
  open urls use {
    parse, has_scheme, has_host, with_host_of, is_relative_url, join, has_fragment,
    with_fragment_of,
  }

  -- `if url.scheme and not url.host: url = url.copy_with(host=...)`
  unfoldable pub fix_host : U → U → Option U
  fix_host base url =
      if has_scheme url && not (has_host url) then with_host_of base url else some url

  unfoldable pub resolve : U → U → Option U
  resolve base url = if is_relative_url url then join base url else some url

  unfoldable pub attach_fragment : U → U → U
  attach_fragment base url =
      if has_fragment base && not (has_fragment url) then with_fragment_of base url else url

  -- `_redirect_url`; `none` is the RemoteProtocolError.
  unfoldable pub located_url : U → Str → Option U
  unfolding fix_host resolve attach_fragment
  located_url base location = elim (parse location) [
    | none ↦ none
    | some url ↦ elim (fix_host base url) [
      | none ↦ none
      | some hosted ↦ elim (resolve base hosted) [
        | none ↦ none
        | some url' ↦ some (attach_fragment base url')
      ]
    ]
  ]

  -- A response without the header does not come here: `has_redirect_location` is tested before.
  unfoldable pub redirect_url : U → Response → Option U
  unfolding get located_url
  redirect_url base resp = elim (get (codes "Location") resp.headers) [
    | none ↦ none
    | some location ↦ located_url base location
  ]

module _ {U B : Type 0} (urls : Urls U) where
  open urls use {origin, netloc}

  -- The headers of another origin.
  unfoldable pub leave_origin : Request U B → U → Headers → Headers
  unfolding is_https_redirect pop set
  leave_origin req url hs = set (codes "Host") (netloc url) (
      if is_https_redirect (origin req.url) (origin url)
      then hs
      else pop (codes "Authorization") hs)

  unfoldable pub drop_body_headers : Request U B → Str → Headers → Headers
  unfolding switches_to_get pop
  drop_body_headers req method hs =
      if switches_to_get req.method method
      then pop (codes "Transfer-Encoding") (pop (codes "Content-Length") hs)
      else hs

  -- `_redirect_headers`
  unfoldable pub redirect_headers : Request U B → U → Str → Headers
  unfolding origin_eq leave_origin drop_body_headers pop
  redirect_headers req url method = pop (codes "Cookie") (
      drop_body_headers req method (
        if not (origin_eq (origin url) (origin req.url))
        then leave_origin req url req.headers
        else req.headers))

  -- `_redirect_stream`
  unfoldable pub redirect_stream : Request U B → Str → Option B
  unfolding switches_to_get
  redirect_stream req method = if switches_to_get req.method method then none else req.stream

  -- `_build_redirect_request`, less the cookies that the new request gets from the store.
  unfoldable pub build_redirect_request : Request U B → Response → Option (Request U B)
  unfolding redirect_method redirect_url redirect_headers redirect_stream
  build_redirect_request req resp =
      let method = redirect_method req.method resp.status_code in
      elim (redirect_url urls req.url resp) [
        | none ↦ none
        | some url ↦ some (record {
          method = method;
          url = url;
          headers = redirect_headers req url method;
          stream = redirect_stream req method;
        })
      ]

pub data Outcome (U B : Type 0) : Type 0 where
  answered : Response → List Response → Option (Request U B) → Outcome U B
  too_many_redirects remote_protocol_error raised out_of_fuel : Outcome U B

module _ {U B : Type 0} (urls : Urls U) (max_redirects : ℕ)
    (send : ℕ → Request U B → Option Response) (reads : ℕ → Bool) where
  -- `_send_handling_redirects`: `n` numbers the requests, `send` gives `none` where the transport
  -- or a hook raises, and `reads` says whether `response.read()` returns. An answer carries its
  -- history, and the request that would follow it if redirects are not followed.
  unfoldable pub send_handling_redirects : ℕ → Bool → ℕ → List Response → Request U B → Outcome U B
  unfolding has_redirect_location build_redirect_request
  send_handling_redirects zero follow n history req = out_of_fuel
  send_handling_redirects (suc fuel) follow n history req =
      if ltb max_redirects (length history) then too_many_redirects else elim (send n req) [
        | none ↦ raised
        | some resp ↦
            if not (has_redirect_location resp)
            then answered resp history none
            else if follow
            then elim (build_redirect_request urls req resp) [
              | none ↦ remote_protocol_error
              | some req' ↦
                  let next =
                    send_handling_redirects fuel follow (n + 1) (history ++ resp ∷ []) req' in
                  if reads n then next else raised
            ]
            else answered resp history (build_redirect_request urls req resp)
      ]
