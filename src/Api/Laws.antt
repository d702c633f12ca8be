-- ===== src/Api/Laws.antt =====
-- What `apiFetch` and `apiJson` promise to their callers.
use rust_auth_example.Base.{ℕ, true, false, String, Option, none, some, ◌≡◌, refl, ◌↔◌, arith}
use rust_auth_example.Json.{Json, null, obj, str, Fields, lookup}
use rust_auth_example.Http.{
  Request, Response, AuthClientError, auth_error, other_error, Outcome, resolved, rejected,
  >>=-eq-resolved,
}
use rust_auth_example.Api.{
  ErrorResponse, read_envelope, read_parsed, read_json, api_fetch, api_json,
}

-- The body is an object whose field `error` is `null`.
abbrev pub HasNullError : Response → Type 0
HasNullError res = (fs : Fields) × (res.body ≡ some (obj fs)) × (lookup "error" fs ≡ some null)

-- The body is the documented envelope with this code and this message.
abbrev HasEnvelope : Response → String → String → Type 0
HasEnvelope res code message =
    (fs : Fields) × (es : Fields) × (res.body ≡ some (obj fs))
    × (lookup "error" fs ≡ some (obj es))
    × (lookup "code" es ≡ some (str code))
    × (lookup "message" es ≡ some (str message))

read_envelope_other : (o : Option Json) → read_envelope o ≡ rejected other_error → o ≡ some null
unfolding read_envelope
read_envelope_other (some null) h = refl
read_envelope_other _ h = cc

read_parsed_other :
    (o : Option Json)
    → read_parsed o ≡ rejected other_error
    → (fs : Fields) × (o ≡ some (obj fs)) × (lookup "error" fs ≡ some null)
unfolding read_parsed
read_parsed_other (some (obj fs)) h = (fs, refl, read_envelope_other (lookup "error" fs) h)
read_parsed_other _ h = cc

module _ (new_error : String → ℕ → Option ErrorResponse → AuthClientError)
    (auth_fetch : Request → Outcome Response) (req : Request) where
  -- `apiFetch` resolves exactly with the responses of `authFetch` that are ok.
  pub api_fetch-eq-resolved_iff :
      (res : Response)
      → (api_fetch new_error auth_fetch req ≡ resolved res)
        ↔ ((auth_fetch req ≡ resolved res) × (res.is_ok ≡ true))
  unfolding api_fetch
  api_fetch-eq-resolved_iff res = (λ h. (ground arith, ground arith), λ h. ground arith)

  -- A failed response that carries the envelope rejects with the error built from its message, its
  -- status and the envelope.
  api_fetch_envelope :
      (res : Response) (code message : String)
      → auth_fetch req ≡ resolved res
      → res.is_ok ≡ false
      → HasEnvelope res code message
      → api_fetch new_error auth_fetch req
        ≡ rejected (
            auth_error
              (new_error message res.status (some (record { code = code; message = message }))))
  unfolding api_fetch
  api_fetch_envelope res code message h n (fs, es, b, e, c, m) = ground arith

  -- A failed response rejects with something other than an `AuthClientError` exactly when its body
  -- is an object whose field `error` is `null`.
  pub api_fetch_other_iff :
      (res : Response)
      → auth_fetch req ≡ resolved res
      → res.is_ok ≡ false
      → (api_fetch new_error auth_fetch req ≡ rejected other_error) ↔ HasNullError res
  unfolding api_fetch
  api_fetch_other_iff res h n = (λ t. read_parsed_other res.body (ground arith), λ t. ground arith)

  read_json-eq-resolved : (o : Option Json) {v : Json} → read_json o ≡ resolved v → o ≡ some v
  unfolding read_json
  read_json-eq-resolved none h = cc
  read_json-eq-resolved (some value) h = cc

  -- `apiJson` resolves with a value exactly when `authFetch` resolved with an ok response whose body
  -- is the JSON of that value.
  pub api_json-eq-resolved_iff :
      (v : Json)
      → (api_json new_error auth_fetch req ≡ resolved v) ↔ (
          (res : Response) × (auth_fetch req ≡ resolved res)
          × (res.is_ok ≡ true)
          × (res.body ≡ some v))
  unfolding api_json read_json
  api_json-eq-resolved_iff v = (
    λ h.
        (let (res, fetched, parsed) = >>=-eq-resolved (api_fetch new_error auth_fetch req) _ h in
          let (sent, good) = (api_fetch-eq-resolved_iff res).0 fetched in
          (res, sent, good, read_json-eq-resolved res.body parsed)),
    λ (res, sent, good, body). ground arith,
  )
