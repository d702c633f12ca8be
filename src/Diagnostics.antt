-- ===== src/Diagnostics.antt =====
-- apps/web/app/api/diagnostics/inspect-token/route.ts, and apps/web/components/account in Inspector
-- and Matrix: the two parts of DiagnosticsMatrix.tsx that ask this route and the API.
pub mod Inspector
pub mod Matrix
pub mod Badges
pub mod Status
pub mod Laws
pub mod Once
mod Tests
use rust_auth_example.Base.{
  ℕ, Bool, true, false, String, Option, none, some, or_else, str_eq, if◌then◌else◌,
}
use rust_auth_example.Json.{Json, null, bool, str, obj, end, field, lookup, single}
use rust_auth_example.Http.{Outcome, resolved, rejected}

-- `Response.json(body, { status })`
pub record Reply : Type 0 where
  pub status : ℕ
  pub body : Json

-- `body.token`: reading it of `null` throws, and no other value but an object has it.
pub data TokenField : Type 0 where
  thrown : TokenField
  token_value : Option Json → TokenField

pub token_of : Option Json → TokenField
token_of none = thrown
token_of (some null) = thrown
token_of (some (obj fs)) = token_value (lookup "token" fs)
token_of (some other) = token_value none

-- `.then((result) => result.isValid).catch(() => false)`
pub verified_of : Outcome Bool → Bool
verified_of (resolved is_valid) = is_valid
verified_of (rejected err) = false

-- `Response.json({ decoded, verified })`
pub report : Json → Bool → Reply
report decoded verified = record {
  status = 200;
  body = obj (field "decoded" decoded (field "verified" (bool verified) end));
}

pub refuse : ℕ → String → Reply
refuse status reason = record { status = status; body = single "error" (str reason) }

-- `decode` is `decodeJwtToken`, by what it resolves to, and `verify` the field `isValid` of what
-- `verifyJwtToken` resolves to.
module _ (decode : String → Outcome Json) (verify : String → Option String → Outcome Bool) where
  -- The part below the check of the token
  pub inspect_decoded : Option String → String → Outcome Json → Reply
  unfolding report verified_of
  inspect_decoded secret token (rejected err) = report null false
  inspect_decoded secret token (resolved decoded) =
      report decoded (verified_of (verify token secret))

  -- The part below the `try` that reads the body
  pub inspect_field : Option String → TokenField → Reply
  unfolding refuse inspect_decoded
  inspect_field secret thrown = refuse 400 "invalid json body"
  inspect_field secret (token_value (some (str token))) =
      if str_eq token ""
      then refuse 400 "a token string is required"
      else inspect_decoded secret token (decode token)
  inspect_field secret (token_value other) = refuse 400 "a token string is required"

  -- `POST`: `node_env` is `process.env.NODE_ENV` and `secret` the variable of the proxy's secret.
  pub inspect_token : (node_env secret : Option String) → (body : Option Json) → Reply
  unfolding inspect_field token_of refuse
  inspect_token node_env secret body =
      if str_eq (or_else node_env "") "production"
      then refuse 404 "not available"
      else inspect_field secret (token_of body)
