-- ===== src/Api.antt =====
-- apps/web/lib/api.ts: the throw-on-failure helpers over `authFetch`.
pub mod Laws
pub mod Calls
mod Tests
use rust_auth_example.Base.{ℕ, Bool, true, false, String, Option, none, some, str_eq, if◌then◌else◌}
use rust_auth_example.Json.{Json, null, obj, Fields, lookup, as_string}
use rust_auth_example.Http.{
  Request, Response, AuthClientError, auth_error, other_error, Outcome, resolved, rejected, ◌>>=◌,
}

-- `AuthErrorResponse`
pub record ErrorResponse : Type 0 where
  pub code : String
  pub message : String

abbrev both : Option String → Option String → Option ErrorResponse
both (some c) (some m) = some (record { code = c; message = m })
both _ _ = none

-- The part of `readErrorBody` below `const err`, by the value of `err`: reading `null.code` throws
-- a `TypeError`, and any other value that is no object has no `code`.
unfoldable pub read_envelope : Option Json → Outcome (Option ErrorResponse)
read_envelope (some null) = rejected other_error
read_envelope (some (obj es)) =
    resolved (both (as_string (lookup "code" es)) (as_string (lookup "message" es)))
read_envelope _ = resolved none

-- The part below the `try`, by what was parsed.
unfoldable pub read_parsed : Option Json → Outcome (Option ErrorResponse)
unfolding read_envelope
read_parsed (some (obj fs)) = read_envelope (lookup "error" fs)
read_parsed _ = resolved none

-- `readErrorBody`
unfoldable pub read_error_body : Response → Outcome (Option ErrorResponse)
unfolding read_parsed
read_error_body res = read_parsed res.body

-- `res.statusText || 'Request failed'`
pub status_message : Response → String
status_message res = if str_eq res.status_text "" then "Request failed" else res.status_text

-- `body?.message ?? (res.statusText || 'Request failed')`
unfoldable pub message_of : Response → Option ErrorResponse → String
unfolding status_message
message_of res none = status_message res
message_of res (some body) = body.message

-- `res.json()`: a body that is no JSON rejects with a `SyntaxError`.
pub read_json : Option Json → Outcome Json
read_json none = rejected other_error
read_json (some value) = resolved value

-- `new_error` is the constructor of `AuthClientError`, and `auth_fetch` the package's `authFetch`.
module _ (new_error : String → ℕ → Option ErrorResponse → AuthClientError)
    (auth_fetch : Request → Outcome Response) where
  -- `toAuthClientError`
  pub to_auth_client_error : Response → Outcome AuthClientError
  unfolding read_error_body message_of
  to_auth_client_error res = do
    body ← read_error_body res
    resolved (new_error (message_of res body) res.status body)

  -- `apiFetch`
  unfoldable pub api_fetch : Request → Outcome Response
  unfolding to_auth_client_error
  api_fetch req = do
    res ← auth_fetch req
    if res.is_ok
        then resolved res
        else (to_auth_client_error res >>= λ err. rejected (auth_error err))

  -- `apiJson`
  pub api_json : Request → Outcome Json
  unfolding api_fetch read_json
  api_json req = do res ← api_fetch req; read_json res.body
