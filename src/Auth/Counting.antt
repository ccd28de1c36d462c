-- ===== src/Auth/Counting.antt =====
-- The nonce counts of digest authentication.
use httpx.Prelude.{
  ℕ, ◌+◌, ◌≡◌, refl, ap, sym, subst, ◌∙◌, Bool, true, false, not, ◌||◌, Option, none, some, List,
  [], ◌∷◌, if◌then◌else◌, Str, codes, str_eq_refl, ◌==◌, inl, inr, ◌⊎◌,
}
use httpx.Headers.{Headers, get, set, lower, contains, get_list}
use httpx.Headers.Lookup.{get-set}
use httpx.Auth.Challenge.{
  Challenge, Error, protocol_error, Result, ok, err, parse_challenge, strip, is_space,
}
use httpx.Auth.Digest.{
  Digest, Request, Response, upper, resolve_qop, header_value, build_auth_header, first_request,
  digest_header, answer_challenge, second_request,
}

Result-cases : {A : Type 0} (r : Result A) → ((e : Error) × (r ≡ err e)) ⊎ ((a : A) × (r ≡ ok a))
Result-cases (err e) = inl (e, refl)
Result-cases (ok a) = inr (a, refl)

set_same : (k v : Str) (hs : Headers) → get k (set k v hs) ≡ some v
set_same k v hs =
    get-set k k v hs ∙ ap (λ b. if b then some v else get k hs) (str_eq_refl (lower k))

module _ (hash_func : Str → Option (Str → Str)) (client_nonce : ℕ → Str → Str) where
  -- A request whose header is the one for the n-th use of a challenge.
  abbrev pub IsUse : Digest → Challenge → ℕ → Request → Request → Type 0
  IsUse d c n req sent =
      (digest : Str → Str) × (qop : Option Str) × (hash_func (upper c.algorithm) ≡ some digest)
      × (get (codes "Authorization") sent.headers
          ≡ some (header_value hash_func client_nonce d c req n digest qop))

  -- The requests that follow, none of which is challenged, use the challenge in turn; the count
  -- stops at the first that raises.
  abbrev pub UsesFrom : Digest → Challenge → ℕ → List Request → Digest → Type 0
  UsesFrom d c n [] e = Unit
  UsesFrom d c n (req ∷ reqs) e =
      (sent : Request)
      → (first_request hash_func client_nonce req e).0 ≡ ok sent
      → IsUse d c n req sent
        × UsesFrom d c (n + 1) reqs (first_request hash_func client_nonce req e).1

  -- Building a header, and the count after it.
  build-use :
      (req : Request) (c : Challenge) (d : Digest) (v : Str)
      → (build_auth_header hash_func client_nonce req c d).0 ≡ ok v
      → ((digest : Str → Str) × (qop : Option Str) × (hash_func (upper c.algorithm) ≡ some digest)
          × (v ≡ header_value hash_func client_nonce d c req d.nonce_count digest qop))
        × ((build_auth_header hash_func client_nonce req c d).1
            ≡ record d { nonce_count = d.nonce_count + 1 })
  unfolding build_auth_header
  build-use req c d v h = used (hash_func (upper c.algorithm)) refl h
    where
      Value : (Str → Str) → Option Str → Type 0
      Value digest qop = v ≡ header_value hash_func client_nonce d c req d.nonce_count digest qop

      with_qop :
          (digest : Str → Str) (r : Result (Option Str))
          → (elim r [
            | err e ↦ err e
            | ok qop ↦ ok (header_value hash_func client_nonce d c req d.nonce_count digest qop)
          ])
            ≡ ok v
          → (qop : Option Str) × Value digest qop
      with_qop digest (err e) k = cc
      with_qop digest (ok qop) k = (qop, cc)

      built : Option (Str → Str) → Result Str × Digest
      built o = elim o [
        | none ↦ (err protocol_error, d)
        | some digest ↦ (
          elim (resolve_qop c.qop) [
            | err e ↦ err e
            | ok qop ↦ ok (header_value hash_func client_nonce d c req d.nonce_count digest qop)
          ],
          record d { nonce_count = d.nonce_count + 1 },
        )
      ]

      used :
          (o : Option (Str → Str))
          → hash_func (upper c.algorithm) ≡ o
          → (built o).0 ≡ ok v
          → ((digest : Str → Str) × (qop : Option Str) × (hash_func (upper c.algorithm)
                ≡ some digest)
              × Value digest qop)
            × ((built o).1 ≡ record d { nonce_count = d.nonce_count + 1 })
      used none e k = cc
      used (some digest) e k =
          let (qop, q) = with_qop digest (resolve_qop c.qop) k in ((digest, qop, e, q), refl)

  authorized :
      (req sent : Request) (c : Challenge) (d : Digest)
      → (elim (build_auth_header hash_func client_nonce req c d).0 as (λ _. Result Request) [
        | err e ↦ err e
        | ok v ↦ ok (record req { headers = set (codes "Authorization") v req.headers })
      ])
        ≡ ok sent
      → IsUse d c d.nonce_count req sent
        × ((build_auth_header hash_func client_nonce req c d).1
            ≡ record d { nonce_count = d.nonce_count + 1 })
  authorized req sent c d h = from (build_auth_header hash_func client_nonce req c d).0 refl h
    where
      from :
          (r : Result Str)
          → (build_auth_header hash_func client_nonce req c d).0 ≡ r
          → (elim r as (λ _. Result Request) [
            | err e ↦ err e
            | ok v ↦ ok (record req { headers = set (codes "Authorization") v req.headers })
          ])
            ≡ ok sent
          → IsUse d c d.nonce_count req sent
            × ((build_auth_header hash_func client_nonce req c d).1
                ≡ record d { nonce_count = d.nonce_count + 1 })
      from (err e) k h = cc
      from (ok v) k h =
          let ((digest, qop, a, b), e) = build-use req c d v k in
          let same : record req { headers = set (codes "Authorization") v req.headers } ≡ sent =
            cc in
          (
            (
              digest,
              qop,
              a,
              ap (λ (r : Request). get (codes "Authorization") r.headers) (sym same)
                  ∙ (set_same (codes "Authorization") v req.headers ∙ ap (λ x. some x) b),
            ),
            e,
          )

  -- A header does not depend on the count or the last challenge that the state holds.
  same_header :
      (d : Digest) (c last : Challenge) (req : Request) (n k : ℕ) (digest : Str → Str)
      (qop : Option Str)
      → header_value hash_func client_nonce
          (record d { last_challenge = some last; nonce_count = k })
          c
          req
          n
          digest
          qop
        ≡ header_value hash_func client_nonce d c req n digest qop
  unfolding header_value
  same_header d c last req n k digest qop = refl

  uses :
      (reqs : List Request) (d : Digest) (c : Challenge) (n : ℕ)
      → UsesFrom d c n reqs (record d { last_challenge = some c; nonce_count = n })
  unfolding first_request
  uses [] d c n = tt
  uses (req ∷ reqs) d c n = λ sent h.
      let e = record d { last_challenge = some c; nonce_count = n } in
      let ((digest, qop, a, b), k) = authorized req sent c e h in
      (
        (digest, qop, a, b ∙ ap (λ x. some x) (same_header d c c req n n digest qop)),
        subst (λ s. UsesFrom d c (n + 1) reqs s) (sym k) (uses reqs d c (n + 1)),
      )

  -- What holds after a challenge was answered with `req'`.
  abbrev pub IsAnswered : (Request → Request) → Request → Request → Digest → Digest → Type 0
  IsAnswered set_cookies req req' d d' =
      (c : Challenge) × (h : Str) × (sent : Request) × (parse_challenge h ≡ ok c)
      × IsUse d c 1 req sent
      × (req' ≡ set_cookies sent)
      × ((reqs : List Request) → UsesFrom d c 2 reqs d')

  answered :
      (set_cookies : Request → Request) (req req' : Request) (c : Challenge) (h : Str) (d : Digest)
      → parse_challenge h ≡ ok c
      → (answer_challenge hash_func client_nonce set_cookies req c d).0 ≡ ok req'
      → IsAnswered set_cookies req req' d
          (answer_challenge hash_func client_nonce set_cookies req c d).1
  unfolding answer_challenge
  answered set_cookies req req' c h d p e =
      from (build_auth_header hash_func client_nonce req c fresh).0 refl e
    where
      fresh : Digest
      fresh = record d { last_challenge = some c; nonce_count = 1 }

      from :
          (r : Result Str)
          → (build_auth_header hash_func client_nonce req c fresh).0 ≡ r
          → (elim (elim r as (λ _. Result Request) [
            | err x ↦ err x
            | ok v ↦ ok (record req { headers = set (codes "Authorization") v req.headers })
          ])
              as (λ _. Result Request) [ err x ↦ err x | ok s ↦ ok (set_cookies s) ])
            ≡ ok req'
          → IsAnswered set_cookies req req' d
              (build_auth_header hash_func client_nonce req c fresh).1
      from (err x) k e = cc
      from (ok v) k e =
          let ((digest, qop, a, b), n) = build-use req c fresh v k in
          let sent : Request = record req { headers = set (codes "Authorization") v req.headers } in
          let same : set_cookies sent ≡ req' = cc in
          (
            c,
            h,
            sent,
            p,
            (
              digest,
              qop,
              a,
              set_same (codes "Authorization") v req.headers
                  ∙ ap (λ x. some x) (b ∙ same_header d c c req 1 1 digest qop),
            ),
            sym same,
            (λ reqs. subst (λ s. UsesFrom d c 2 reqs s) (sym n) (uses reqs d c 2)),
          )

  -- If the flow answers a challenge, the answer is its first use, with the nonce count 1; the
  -- requests after it that are not challenged use it with the counts 2, 3 and so on, so that no
  -- count is used twice for one challenge.
  pub second_request-IsAnswered :
      (set_cookies : Request → Request) (req req' : Request) (resp : Response) (d : Digest)
      → (second_request hash_func client_nonce set_cookies req resp d).0 ≡ some (ok req')
      → IsAnswered set_cookies req req' d
          (second_request hash_func client_nonce set_cookies req resp d).1
  unfolding second_request
  second_request-IsAnswered set_cookies req req' resp d e =
      guarded
        (not (resp.status_code == 401) || not (contains (codes "www-authenticate") resp.headers)) e
    where
      parsed : (h : Str) → Result Challenge → Option (Result Request) × Digest
      parsed h r = elim r [
        | err x ↦ (some (err x), d)
        | ok c ↦
            let (a, d') = answer_challenge hash_func client_nonce set_cookies req c d in
            (some a, d')
      ]

      found : Option Str → Option (Result Request) × Digest
      found o = elim o [ none ↦ (none, d) | some h ↦ parsed h (parse_challenge h) ]

      challenge :
          (h : Str) (r : Result Challenge)
          → parse_challenge h ≡ r
          → (parsed h r).0 ≡ some (ok req')
          → IsAnswered set_cookies req req' d (parsed h r).1
      challenge h (err x) p e = cc
      challenge h (ok c) p e = answered set_cookies req req' c h d p (cc)

      header :
          (o : Option Str)
          → (found o).0 ≡ some (ok req')
          → IsAnswered set_cookies req req' d (found o).1
      header none e = cc
      header (some h) e = challenge h (parse_challenge h) refl e

      all_headers : Option Str
      all_headers =
          digest_header hash_func client_nonce
            (get_list (strip is_space) (codes "www-authenticate") false resp.headers)

      guarded :
          (b : Bool)
          → (if b then (none, d) else found all_headers).0 ≡ some (ok req')
          → IsAnswered set_cookies req req' d (if b then (none, d) else found all_headers).1
      guarded true e = cc
      guarded false e = header all_headers e
