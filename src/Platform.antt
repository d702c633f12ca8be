-- ===== src/Platform.antt =====
-- apps/web/lib/platform-client.ts: the client of the tenant-less platform routes.
pub mod Laws
mod Tests
use rust_auth_example.Base.{ℕ, Bool, true, false, String, Option, none, some, str_eq, if◌then◌else◌}
use rust_auth_example.Json.{Json, null, str, obj, end, field, Fields, lookup, as_string, single}
use rust_auth_example.Http.{
  Method, get, post, delete, Request, Response, AuthClientError, auth_error, other_error, Outcome,
  resolved, rejected, ◌>>=◌,
}
use rust_auth_example.Api.{ErrorResponse}

-- `const err` and what follows it in `readErrorBody`
read_error : Option Json → Outcome (Option ErrorResponse)
read_error (some null) = rejected other_error
read_error (some (obj es)) =
    let code = as_string (lookup "code" es) in
    let message = as_string (lookup "message" es) in
    resolved (elim code [
      | none ↦ none
      | some c ↦ elim message [ none ↦ none | some m ↦ some (record { code = c; message = m }) ]
    ])
read_error _ = resolved none

read_parsed : Option Json → Outcome (Option ErrorResponse)
read_parsed none = resolved none
read_parsed (some null) = resolved none
read_parsed (some (obj fs)) = read_error (lookup "error" fs)
read_parsed (some _) = resolved none

-- `readErrorBody` of this file
pub read_error_body : Response → Outcome (Option ErrorResponse)
unfolding read_parsed read_error
read_error_body res = read_parsed res.body

-- `const message` of `platformApiFetch`
message_of : Response → Option ErrorResponse → String
message_of res (some body) = body.message
message_of res none = if str_eq res.status_text "" then "Request failed" else res.status_text

-- The calls of `platformClient`, `platformMfa` and `platformSessions`.
pub data Call : Type 0 where
  login : (email password : String) → Call
  mfa_challenge : (mfa_temp_token code : String) → Call
  get_me : Call
  logout : Call
  setup : Call
  verify_enable : (code : String) → Call
  disable : (code : String) → Call
  regenerate : (code : String) → Call
  revoke_all : Call

-- What each call sends, over the paths of `PLATFORM`.
pub request_of : Call → Request
request_of (login email password) = record {
  path = "/auth/platform/login";
  method = post;
  body = some (obj (field "email" (str email) (field "password" (str password) end)));
}
request_of (mfa_challenge token code) = record {
  path = "/auth/platform/mfa/challenge";
  method = post;
  body = some (obj (field "mfaTempToken" (str token) (field "code" (str code) end)));
}
request_of get_me = record { path = "/auth/platform/me"; method = get; body = none }
request_of logout = record { path = "/auth/platform/logout"; method = post; body = none }
request_of setup = record { path = "/auth/platform/mfa/setup"; method = post; body = none }
request_of (verify_enable code) = record {
  path = "/auth/platform/mfa/verify-enable";
  method = post;
  body = some (single "code" (str code));
}
request_of (disable code) = record {
  path = "/auth/platform/mfa/disable";
  method = post;
  body = some (single "code" (str code));
}
request_of (regenerate code) = record {
  path = "/auth/platform/mfa/recovery-codes";
  method = post;
  body = some (single "code" (str code));
}
request_of revoke_all = record { path = "/auth/platform/sessions"; method = delete; body = none }

-- What a call resolves to: nothing, the JSON body, or its property (`none` is `undefined`).
pub data Reply : Type 0 where
  done : Reply
  json : Json → Reply
  property : Option Json → Reply

-- `body.recoveryCodes`: reading it of `null` throws.
recovery_codes : Json → Outcome Reply
recovery_codes null = rejected other_error
recovery_codes (obj fs) = resolved (property (lookup "recoveryCodes" fs))
recovery_codes _ = resolved (property none)

-- `new_error` is the constructor of `AuthClientError`, and `platform_fetch` what `createAuthFetch`
-- made of the platform's refresh endpoint.
module _ (new_error : String → ℕ → Option ErrorResponse → AuthClientError)
    (platform_fetch : Request → Outcome Response) where
  pub platform_api_fetch : Request → Outcome Response
  unfolding read_error_body message_of
  platform_api_fetch req = do
    res ← platform_fetch req
    if res.is_ok
        then resolved res
        else (read_error_body res >>= λ body.
            rejected (auth_error (new_error (message_of res body) res.status body)))

  pub platform_api_json : Request → Outcome Json
  unfolding platform_api_fetch
  platform_api_json req = do
    res ← platform_api_fetch req
    elim (res.body) [ some value ↦ resolved value | none ↦ rejected other_error ]

  as_json : Request → Outcome Reply
  unfolding platform_api_json
  as_json req = do value ← platform_api_json req; resolved (json value)

  as_done : Request → Outcome Reply
  unfolding platform_api_fetch
  as_done req = do _ ← platform_api_fetch req; resolved done

  -- The methods of the three clients.
  pub perform : Call → Outcome Reply
  unfolding request_of as_json as_done recovery_codes
  perform (login email password) = as_json (request_of (login email password))
  perform (mfa_challenge token code) = as_json (request_of (mfa_challenge token code))
  perform get_me = as_json (request_of get_me)
  perform logout = as_done (request_of logout)
  perform setup = as_json (request_of setup)
  perform (verify_enable code) = as_done (request_of (verify_enable code))
  perform (disable code) = as_done (request_of (disable code))
  perform (regenerate code) = do
    body ← platform_api_json (request_of (regenerate code))
    recovery_codes body
  perform revoke_all = as_done (request_of revoke_all)
