-- ===== src/Platform/Laws.antt =====
-- The platform client against `apiFetch`, and what it never sends.
use rust_auth_example.Base.{
  ℕ, true, String, Option, none, some, ◌≡◌, refl, starts_with, arith, inl, inr,
}
use rust_auth_example.Json.{Json, null, obj, lookup, as_string}
use rust_auth_example.Http.{
  Request, Response, AuthClientError, Outcome, resolved, >>=-eq-resolved, Outcome-cases,
}
use rust_auth_example.Api
use rust_auth_example.Api.{ErrorResponse, read_envelope}
use rust_auth_example.Platform.{
  Call, login, mfa_challenge, get_me, logout, setup, verify_enable, disable, regenerate, revoke_all,
  request_of, platform_api_fetch, platform_api_json, perform, read_error, read_parsed, as_json,
  as_done, Reply,
}

-- The field `key` is not sent.
abbrev Omits : String → Option Json → Type 0
Omits key none = Unit
Omits key (some (obj fs)) = lookup key fs ≡ none
Omits key (some _) = Unit

-- Every call of the platform client goes to a path below `/auth/platform/`, and no call sends a
-- `tenantId`.
request_of-Omits_tenant :
    (c : Call)
    → (starts_with (request_of c).path "/auth/platform/" ≡ true)
      × Omits "tenantId" (request_of c).body
unfolding request_of lookup
request_of-Omits_tenant (login email password) = (refl, refl)
request_of-Omits_tenant (mfa_challenge token code) = (refl, refl)
request_of-Omits_tenant get_me = (refl, tt)
request_of-Omits_tenant logout = (refl, tt)
request_of-Omits_tenant setup = (refl, tt)
request_of-Omits_tenant (verify_enable code) = (refl, refl)
request_of-Omits_tenant (disable code) = (refl, refl)
request_of-Omits_tenant (regenerate code) = (refl, refl)
request_of-Omits_tenant revoke_all = (refl, tt)

read_error_agrees : (e : Option Json) → read_error e ≡ read_envelope e
unfolding read_error read_envelope
read_error_agrees (some (obj es)) =
    ground (arith, as_string (lookup "code" es), as_string (lookup "message" es))
read_error_agrees none = refl
read_error_agrees (some null) = refl
read_error_agrees (some _) = refl

read_parsed_agrees : (b : Option Json) → read_parsed b ≡ Api.read_parsed b
unfolding read_parsed Api.read_parsed
read_parsed_agrees none = refl
read_parsed_agrees (some (obj fs)) = read_error_agrees (lookup "error" fs)
read_parsed_agrees (some null) = refl
read_parsed_agrees (some _) = refl

module _ (new_error : String → ℕ → Option ErrorResponse → AuthClientError)
    (fetch : Request → Outcome Response) where
  -- Over the same `fetch`, `platformApiFetch` behaves as `apiFetch` does, on every response.
  pub platform_api_fetch-eq-api_fetch :
      (req : Request) → platform_api_fetch new_error fetch req ≡ Api.api_fetch new_error fetch req
  unfolding platform_api_fetch Api.api_fetch
  platform_api_fetch-eq-api_fetch req = elim (Outcome-cases (fetch req)) [
    | inl (res, e) ↦ ground (arith, read_parsed_agrees res.body)
    | inr (err, e) ↦ ground arith
  ]

  fetch-ok :
      (req : Request) (res : Response)
      → platform_api_fetch new_error fetch req ≡ resolved res
      → (fetch req ≡ resolved res) × (res.is_ok ≡ true)
  unfolding platform_api_fetch
  fetch-ok req res h = ground arith

  json-ok :
      (req : Request) {v : Json}
      → platform_api_json new_error fetch req ≡ resolved v
      → (res : Response) × (fetch req ≡ resolved res) × (res.is_ok ≡ true)
  unfolding platform_api_json
  json-ok req h =
      let (res, e, _) = >>=-eq-resolved (platform_api_fetch new_error fetch req) _ h in
      let (sent, good) = fetch-ok req res e in (res, sent, good)

  as_json-ok :
      (req : Request) {r : Reply}
      → as_json new_error fetch req ≡ resolved r
      → (res : Response) × (fetch req ≡ resolved res) × (res.is_ok ≡ true)
  unfolding as_json
  as_json-ok req h =
      let (v, e, _) = >>=-eq-resolved (platform_api_json new_error fetch req) _ h in json-ok req e

  as_done-ok :
      (req : Request) {r : Reply}
      → as_done new_error fetch req ≡ resolved r
      → (res : Response) × (fetch req ≡ resolved res) × (res.is_ok ≡ true)
  unfolding as_done
  as_done-ok req h =
      let (res, e, _) = >>=-eq-resolved (platform_api_fetch new_error fetch req) _ h in
      let (sent, good) = fetch-ok req res e in (res, sent, good)

  -- A call of the platform client resolves only if its one request was answered by an ok response.
  perform-eq-resolved :
      (c : Call) (r : Reply)
      → perform new_error fetch c ≡ resolved r
      → (res : Response) × (fetch (request_of c) ≡ resolved res) × (res.is_ok ≡ true)
  unfolding perform
  perform-eq-resolved (login email password) r h = as_json-ok (request_of (login email password)) h
  perform-eq-resolved (mfa_challenge token code) r h =
      as_json-ok (request_of (mfa_challenge token code)) h
  perform-eq-resolved get_me r h = as_json-ok (request_of get_me) h
  perform-eq-resolved logout r h = as_done-ok (request_of logout) h
  perform-eq-resolved setup r h = as_json-ok (request_of setup) h
  perform-eq-resolved (verify_enable code) r h = as_done-ok (request_of (verify_enable code)) h
  perform-eq-resolved (disable code) r h = as_done-ok (request_of (disable code)) h
  perform-eq-resolved (regenerate code) r h =
      let req = request_of (regenerate code) in
      let (v, e, _) = >>=-eq-resolved (platform_api_json new_error fetch req) _ h in json-ok req e
  perform-eq-resolved revoke_all r h = as_done-ok (request_of revoke_all) h
