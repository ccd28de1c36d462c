-- ===== src/Redirects/Limit.antt =====
-- The loop over redirects ends, within `max_redirects`.
use httpx.Prelude.{
  ℕ, zero, suc, ◌+◌, ◌≤◌, ◌<◌, Bool, true, false, not, Option, none, some, List, [], ◌∷◌, ◌++◌,
  if◌then◌else◌, ltb, length, length-append, arith, Bool-cases, inl, inr,
}
use httpx.Redirects.{
  Urls, Request, Response, Outcome, answered, too_many_redirects, remote_protocol_error, raised,
  out_of_fuel, send_handling_redirects, has_redirect_location, build_redirect_request,
}

-- An outcome of the code, whose history, if it has one, is within the limit.
unfoldable pub Ended : {U B : Type 0} → ℕ → Outcome U B → Type 0
Ended limit (answered resp history next) = length history ≤ limit
Ended limit too_many_redirects = Unit
Ended limit remote_protocol_error = Unit
Ended limit raised = Unit
Ended limit out_of_fuel = ⊥

module _ {U B : Type 0} (urls : Urls U) (limit : ℕ) (send : ℕ → Request U B → Option Response)
    (reads : ℕ → Bool) where
  Ended-from :
      (fuel : ℕ) (follow : Bool) (n : ℕ) (history : List Response) (req : Request U B)
      → limit + 1 < fuel + length history
      → 0 < fuel
      → Ended limit (send_handling_redirects urls limit send reads fuel follow n history req)
  unfolding send_handling_redirects Ended
  Ended-from zero follow n history req f p = absurd (omega arith)
  Ended-from (suc fuel) follow n history req f p = elim (Bool-cases (ltb limit (length history))) [
    | inl h ↦ rw h tt
    | inr h ↦
        let within : length history ≤ limit = ground arith in
        rw h (
          sent (send n req) within (λ resp req'.
            Ended-from fuel follow (n + 1) (history ++ resp ∷ []) req'
              (let l = length-append history (resp ∷ []) in omega arith) (omega arith)))
  ]
    where
      followed :
          (resp : Response)
          → ((req' : Request U B)
              → Ended limit (
                  send_handling_redirects urls limit send reads fuel follow
                    (n + 1)
                    (history ++ resp ∷ [])
                    req'))
          → (o : Option (Request U B))
          → Ended limit (elim o [
            | none ↦ remote_protocol_error
            | some req' ↦
                if reads n
                then send_handling_redirects urls limit send reads fuel follow
                    (n + 1)
                    (history ++ resp ∷ [])
                    req'
                else raised
          ])
      followed resp later none = tt
      followed resp later (some req') = read_then (reads n)
        where
          read_then :
              (b : Bool)
              → Ended limit (
                  if b
                  then send_handling_redirects urls limit send reads fuel follow
                      (n + 1)
                      (history ++ resp ∷ [])
                      req'
                  else raised)
          read_then true = later req'
          read_then false = tt

      redirected :
          (resp : Response)
          → length history ≤ limit
          → ((req' : Request U B)
              → Ended limit (
                  send_handling_redirects urls limit send reads fuel follow
                    (n + 1)
                    (history ++ resp ∷ [])
                    req'))
          → (a b : Bool)
          → Ended limit (
              if not a
              then answered resp history none
              else if b
              then elim (build_redirect_request urls req resp) [
                | none ↦ remote_protocol_error
                | some req' ↦
                    if reads n
                    then send_handling_redirects urls limit send reads fuel follow
                        (n + 1)
                        (history ++ resp ∷ [])
                        req'
                    else raised
              ]
              else answered resp history (build_redirect_request urls req resp))
      redirected resp w later false b = w
      redirected resp w later true true = followed resp later (build_redirect_request urls req resp)
      redirected resp w later true false = w

      sent :
          (o : Option Response)
          → length history ≤ limit
          → ((resp : Response) (req' : Request U B)
              → Ended limit (
                  send_handling_redirects urls limit send reads fuel follow
                    (n + 1)
                    (history ++ resp ∷ [])
                    req'))
          → Ended limit (elim o [
            | none ↦ raised
            | some resp ↦
                if not (has_redirect_location resp)
                then answered resp history none
                else if follow
                then elim (build_redirect_request urls req resp) [
                  | none ↦ remote_protocol_error
                  | some req' ↦
                      if reads n
                      then send_handling_redirects urls limit send reads fuel follow
                          (n + 1)
                          (history ++ resp ∷ [])
                          req'
                      else raised
                ]
                else answered resp history (build_redirect_request urls req resp)
          ])
      sent none w later = tt
      sent (some resp) w later = redirected resp w (later resp) (has_redirect_location resp) follow

  -- Whatever the servers answer, with fuel for `max_redirects + 2` rounds the loop returns or
  -- raises, and what it returns has at most `max_redirects` responses in its history.
  pub redirects_end :
      (follow : Bool) (req : Request U B)
      → Ended limit (send_handling_redirects urls limit send reads (limit + 2) follow 0 [] req)
  redirects_end follow req = Ended-from (limit + 2) follow 0 [] req (omega arith) (omega arith)
