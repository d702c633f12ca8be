-- ===== src/Diagnostics/Laws.antt =====
-- What the inspector makes of an answer of the inspection route.
use rust_auth_example.Base.{
  Bool, true, false, ◌&&◌, leb, ltb, String, Option, none, some, or_else, List, [], ◌∷◌, ◌≡◌, ◌↔◌,
  ◌≢◌, ◌⊎◌, refl, arith, str_eq, eq_iff, Bool-cases, inl, inr, if◌then◌else◌, ap,
}
use rust_auth_example.Json.{Json, lookup}
use rust_auth_example.Http.{Failure, Response, Outcome, resolved, rejected, Outcome-cases}
use rust_auth_example.Diagnostics.{
  Reply, token_of, inspect_field, inspect_decoded, inspect_token, verified_of, report, refuse,
}
use rust_auth_example.Diagnostics.Inspector.{
  Inspector, Event, inspect, fetch_settled, body_settled, is_blank, step, run, Badge, no_badge,
  signature_valid, signature_rejected, badge, badge_of, on_inspect, on_fetch_settled,
  on_body_settled, result_of, inspect_request, optional_field, is_true,
}
use rust_auth_example.Diagnostics.Status.{inspect_decoded_status}

-- A reply as `fetch` hands it over
abbrev as_response : Reply → Response
as_response reply = record {
  is_ok = leb 200 reply.status && ltb reply.status 300;
  status = reply.status;
  status_text = "";
  retry_after = none;
  body = some reply.body;
}

-- A click on the button, the response to it and its body, with nothing in between
abbrev pub answered : Reply → List Event
answered reply =
    inspect ∷ fetch_settled (resolved (as_response reply)) ∷ body_settled (resolved reply.body) ∷ []

-- The button can be used: nothing is in flight.
abbrev IsReady : Inspector → Type 0
IsReady s = (s.busy ≡ false) × (s.fetches ≡ 0) × (s.bodies ≡ 0) × (is_blank s.token ≡ false)

run-answered :
    (reply : Reply) (s : Inspector)
    → IsReady s
    → (run (answered reply) s).result
      ≡ (if leb 200 reply.status && ltb reply.status 300 then result_of reply.body else none)
unfolding run step on_inspect on_fetch_settled on_body_settled
run-answered reply s h = elim (Bool-cases (leb 200 reply.status && ltb reply.status 300)) [
  | inl fine ↦ ground arith
  | inr refused ↦ ground arith
]

ready_token : (s : Inspector) → IsReady s → str_eq s.token "" ≡ false
unfolding is_blank
ready_token s h = elim (Bool-cases (str_eq s.token "")) [
  | inl blank ↦ cc (rw ((eq_iff s.token "").0 blank) at h.3)
  | inr filled ↦ filled
]

abbrev pub is_valid : Badge → Bool
is_valid (signature_valid alg) = true
is_valid (signature_rejected alg) = false
is_valid no_badge = false

module _ (decode : String → Outcome Json) (verify : String → Option String → Outcome Bool) where
  decoded_badge :
      (secret : Option String) (token : String) (o : Outcome Json)
      → (is_valid (badge_of (result_of (inspect_decoded decode verify secret token o).body)) ≡ true)
        ↔ (((decoded : Json) × (o ≡ resolved decoded)) × (verify token secret ≡ resolved true))
  unfolding inspect_decoded report badge_of result_of verified_of
  decoded_badge secret token (rejected err) = (λ e. ground arith, λ w. ground (arith, w.0.1))
  decoded_badge secret token (resolved decoded) = elim (Outcome-cases (verify token secret)) [
    | inl (true, k) ↦ rw k (λ e. ((decoded, refl), refl), λ w. refl)
    | inl (false, k) ↦ rw k (λ e. ground arith, λ w. ground (arith, w.1))
    | inr (err, k) ↦ rw k (λ e. ground arith, λ w. ground (arith, w.1))
  ]

  -- Decoding the token, or verifying it, rejects.
  abbrev pub IsRejected : Option String → String → Type 0
  IsRejected secret token =
      ((err : Failure) × (decode token ≡ rejected err))
      ⊎ ((err : Failure) × (verify token secret ≡ rejected err))

  rejected_badge :
      (secret : Option String) (token : String) (o : Outcome Json)
      → (((err : Failure) × (o ≡ rejected err))
          ⊎ ((err : Failure) × (verify token secret ≡ rejected err)))
      → (alg : Json) × (badge_of (result_of (inspect_decoded decode verify secret token o).body)
          ≡ signature_rejected alg)
  unfolding inspect_decoded report badge_of result_of verified_of lookup optional_field is_true
  rejected_badge secret token (rejected err) h = (_, refl)
  rejected_badge secret token (resolved decoded) (inl (err, e)) = cc
  rejected_badge secret token (resolved decoded) (inr (err, e)) = rw e (_, refl)

  in_production :
      (node_env secret : Option String) (s : Inspector)
      → str_eq (or_else node_env "") "production" ≡ true
      → inspect_token decode verify node_env secret (inspect_request s.token).body
        ≡ refuse 404 "not available"
  unfolding inspect_token
  in_production node_env secret s p = rw p refl

  in_development :
      (node_env secret : Option String) (s : Inspector)
      → IsReady s
      → str_eq (or_else node_env "") "production" ≡ false
      → inspect_token decode verify node_env secret (inspect_request s.token).body
        ≡ inspect_decoded decode verify secret s.token (decode s.token)
  unfolding inspect_token inspect_request inspect_field token_of lookup
  in_development node_env secret s h p = rw (p, ready_token s h) refl

  badge-answered :
      (reply : Reply) (s : Inspector)
      → IsReady s
      → badge (run (answered reply) s)
        ≡ badge_of
            (if leb 200 reply.status && ltb reply.status 300 then result_of reply.body else none)
  unfolding badge
  badge-answered reply s h = ap badge_of (run-answered reply s h)

  is_valid_answered :
      (reply : Reply) (s : Inspector)
      → IsReady s
      → is_valid (badge (run (answered reply) s))
        ≡ is_valid (
            badge_of
              (if leb 200 reply.status && ltb reply.status 300 then result_of reply.body else none))
  unfolding badge
  is_valid_answered reply s h = ap (λ r. is_valid (badge_of r)) (run-answered reply s h)

  badge-answered_valid_iff :
      (node_env secret : Option String) (s : Inspector)
      → IsReady s
      → (is_valid (
            badge (
              run
                (answered
                  (inspect_token decode verify node_env secret (inspect_request s.token).body))
                s))
          ≡ true)
        ↔ ((or_else node_env "" ≢ "production")
            × ((decoded : Json) × (decode s.token ≡ resolved decoded))
            × (verify s.token secret ≡ resolved true))
  unfolding refuse badge_of
  badge-answered_valid_iff node_env secret s h =
      let reply = inspect_token decode verify node_env secret (inspect_request s.token).body in
      elim (Bool-cases (str_eq (or_else node_env "") "production")) [
        | inl production ↦
            rw (is_valid_answered reply s h, in_production node_env secret s production)
              (
                λ e. ground arith,
                λ w. absurd (w.0 ((eq_iff (or_else node_env "") "production").0 production)),
              )
        | inr other ↦
            rw
              (
                is_valid_answered reply s h,
                in_development node_env secret s h other,
                inspect_decoded_status decode verify secret s.token (decode s.token),
              )
              (
                λ e. (
                  λ p. ground (arith, eq_iff (or_else node_env "") "production"),
                  ((decoded_badge secret s.token (decode s.token)).0 e).0,
                  ((decoded_badge secret s.token (decode s.token)).0 e).1,
                ),
                λ w. (decoded_badge secret s.token (decode s.token)).1 (w.1, w.2),
              )
      ]

  badge-production :
      (node_env secret : Option String) (s : Inspector)
      → IsReady s
      → or_else node_env "" ≡ "production"
      → badge (
          run
            (answered (inspect_token decode verify node_env secret (inspect_request s.token).body))
            s)
        ≡ no_badge
  unfolding refuse badge_of
  badge-production node_env secret s h production =
      let same = (eq_iff (or_else node_env "") "production").1 production in
      rw
        (
          badge-answered
              (inspect_token decode verify node_env secret (inspect_request s.token).body) s h,
          in_production node_env secret s same,
        )
        refl

  badge-rejected :
      (node_env secret : Option String) (s : Inspector)
      → IsReady s
      → or_else node_env "" ≢ "production"
      → IsRejected secret s.token
      → (alg : Json) × (badge (
            run
              (answered
                (inspect_token decode verify node_env secret (inspect_request s.token).body))
              s)
          ≡ signature_rejected alg)
  badge-rejected node_env secret s h development r =
      let other : str_eq (or_else node_env "") "production" ≡ false =
        ground (arith, eq_iff (or_else node_env "") "production", development) in
      rw
        (
          badge-answered
              (inspect_token decode verify node_env secret (inspect_request s.token).body) s h,
          in_development node_env secret s h other,
          inspect_decoded_status decode verify secret s.token (decode s.token),
        )
        (rejected_badge secret s.token (decode s.token) r)

  -- From the card to the route and back, over a token that is not blank: the card shows "Signature
  -- valid" exactly if the build is not for production, the token decodes, and `verifyJwtToken`
  -- resolves it as valid under the configured secret. In a build that is not for production, a
  -- rejection of either call shows as a rejected signature; in one for production there is no badge.
  pub badge-is_valid_iff :
      (node_env secret : Option String) (s : Inspector)
      → IsReady s
      → ((is_valid (
              badge (
                run
                  (answered
                    (inspect_token decode verify node_env secret (inspect_request s.token).body))
                  s))
            ≡ true)
          ↔ ((or_else node_env "" ≢ "production")
              × ((decoded : Json) × (decode s.token ≡ resolved decoded))
              × (verify s.token secret ≡ resolved true)))
        × (or_else node_env "" ≢ "production"
            → IsRejected secret s.token
            → (alg : Json) × (badge (
                  run
                    (answered
                      (inspect_token decode verify node_env secret (inspect_request s.token).body))
                    s)
                ≡ signature_rejected alg))
        × (or_else node_env "" ≡ "production"
            → badge (
                run
                  (answered
                    (inspect_token decode verify node_env secret (inspect_request s.token).body))
                  s)
              ≡ no_badge)
  badge-is_valid_iff node_env secret s h = (
    badge-answered_valid_iff node_env secret s h,
    badge-rejected node_env secret s h,
    badge-production node_env secret s h,
  )
