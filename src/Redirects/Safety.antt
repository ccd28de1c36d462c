-- ===== src/Redirects/Safety.antt =====
-- What a redirect keeps of a request's headers and body.
use httpx.Prelude.{
  ◌≡◌, refl, ap, ◌∙◌, Bool, true, false, not, none, some, if◌then◌else◌, Str, codes, str_eq,
  str_eq_refl,
}
use httpx.Headers.{Headers, get, set, pop, lower}
use httpx.Headers.Lookup.{get-set, get-pop}
use httpx.Redirects.{
  Urls, Request, origin_eq, is_https_redirect, switches_to_get, leave_origin, drop_body_headers,
  redirect_headers,
}

-- Names that differ in more than case.
abbrev pub Differ : Str → Str → Type 0
Differ k j = str_eq (lower k) (lower j) ≡ false

popped_same : (k : Str) (hs : Headers) → get k (pop k hs) ≡ none
popped_same k hs = get-pop k k hs ∙ ap (λ b. if b then none else get k hs) (str_eq_refl (lower k))

popped_other : (j k : Str) (hs : Headers) → Differ k j → get j (pop k hs) ≡ get j hs
popped_other j k hs d = get-pop j k hs ∙ ap (λ b. if b then none else get j hs) d

set_same : (k v : Str) (hs : Headers) → get k (set k v hs) ≡ some v
set_same k v hs =
    get-set k k v hs ∙ ap (λ b. if b then some v else get k hs) (str_eq_refl (lower k))

set_other : (j k v : Str) (hs : Headers) → Differ k j → get j (set k v hs) ≡ get j hs
set_other j k v hs d = get-set j k v hs ∙ ap (λ b. if b then some v else get j hs) d

authorization-cookie : Differ (codes "Cookie") (codes "Authorization")
unfolding lower str_eq
authorization-cookie = refl

authorization-host : Differ (codes "Host") (codes "Authorization")
unfolding lower str_eq
authorization-host = refl

authorization-length : Differ (codes "Content-Length") (codes "Authorization")
unfolding lower str_eq
authorization-length = refl

authorization-encoding : Differ (codes "Transfer-Encoding") (codes "Authorization")
unfolding lower str_eq
authorization-encoding = refl

host-cookie : Differ (codes "Cookie") (codes "Host")
unfolding lower str_eq
host-cookie = refl

host-length : Differ (codes "Content-Length") (codes "Host")
unfolding lower str_eq
host-length = refl

host-encoding : Differ (codes "Transfer-Encoding") (codes "Host")
unfolding lower str_eq
host-encoding = refl

module _ {U B : Type 0} (urls : Urls U) (req : Request U B) (url : U) (method : Str) where
  open urls use {origin, netloc}

  -- Headers under other names than those of the body read as before.
  drop_body_headers-get :
      (j : Str) (hs : Headers)
      → Differ (codes "Transfer-Encoding") j
      → Differ (codes "Content-Length") j
      → get j (drop_body_headers urls req method hs) ≡ get j hs
  unfolding drop_body_headers
  drop_body_headers-get j hs t c = dropped (switches_to_get req.method method)
    where
      dropped :
          (b : Bool)
          → get j
              (if b then pop (codes "Transfer-Encoding") (pop (codes "Content-Length") hs) else hs)
            ≡ get j hs
      dropped true =
          popped_other j (codes "Transfer-Encoding") (pop (codes "Content-Length") hs) t
          ∙ popped_other j (codes "Content-Length") hs c
      dropped false = refl

  leave_origin-authorization :
      (hs : Headers)
      → get (codes "Authorization") (leave_origin urls req url hs) ≡ (
          if is_https_redirect (origin req.url) (origin url)
          then get (codes "Authorization") hs
          else none)
  unfolding leave_origin
  leave_origin-authorization hs =
      set_other (codes "Authorization") (codes "Host") (netloc url)
        (if is_https_redirect (origin req.url) (origin url)
          then hs
          else pop (codes "Authorization") hs)
        authorization-host
      ∙ from (is_https_redirect (origin req.url) (origin url))
    where
      from :
          (b : Bool)
          → get (codes "Authorization") (if b then hs else pop (codes "Authorization") hs)
            ≡ (if b then get (codes "Authorization") hs else none)
      from true = refl
      from false = popped_same (codes "Authorization") hs

  leave_origin-host :
      (hs : Headers) → get (codes "Host") (leave_origin urls req url hs) ≡ some (netloc url)
  unfolding leave_origin
  leave_origin-host hs = set_same (codes "Host") (netloc url) (
      if is_https_redirect (origin req.url) (origin url)
      then hs
      else pop (codes "Authorization") hs)

  -- To another origin, a header under another name than those of the body and the cookies is what
  -- leaving the origin makes of it.
  redirect_headers-leave :
      (j : Str)
      → origin_eq (origin url) (origin req.url) ≡ false
      → Differ (codes "Cookie") j
      → Differ (codes "Transfer-Encoding") j
      → Differ (codes "Content-Length") j
      → get j (redirect_headers urls req url method) ≡ get j (leave_origin urls req url req.headers)
  unfolding redirect_headers
  redirect_headers-leave j o k t c =
      let left = leave_origin urls req url req.headers in
      let inner = if not (origin_eq (origin url) (origin req.url)) then left else req.headers in
      popped_other j (codes "Cookie") (drop_body_headers urls req method inner) k
      ∙ (drop_body_headers-get j inner t c
          ∙ ap (λ b. get j (if not b then left else req.headers)) o)

  redirect_headers-cookie : get (codes "Cookie") (redirect_headers urls req url method) ≡ none
  unfolding redirect_headers
  redirect_headers-cookie = popped_same (codes "Cookie") (
      drop_body_headers urls req method (
        if not (origin_eq (origin url) (origin req.url))
        then leave_origin urls req url req.headers
        else req.headers))

  -- The headers of a redirect to another origin: the `Authorization` header is not among them if
  -- the redirect is not one from HTTP to HTTPS on the same host and the default ports, and is the
  -- request's own if it is. In both cases `Host` names the new host, and there is no `Cookie` header.
  pub redirect_headers-credentials :
      origin_eq (origin url) (origin req.url) ≡ false
      → (get (codes "Authorization") (redirect_headers urls req url method) ≡ (
          if is_https_redirect (origin req.url) (origin url)
          then get (codes "Authorization") req.headers
          else none))
        × (get (codes "Cookie") (redirect_headers urls req url method) ≡ none)
        × (get (codes "Host") (redirect_headers urls req url method) ≡ some (netloc url))
  redirect_headers-credentials o = (
    redirect_headers-leave (codes "Authorization") o authorization-cookie authorization-encoding
          authorization-length
        ∙ leave_origin-authorization req.headers,
    redirect_headers-cookie,
    redirect_headers-leave (codes "Host") o host-cookie host-encoding host-length
        ∙ leave_origin-host req.headers,
  )
