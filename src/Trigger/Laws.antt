-- ===== src/Trigger/Laws.antt =====
-- What reaches the Trigger Center.
use rust_auth_example.Base.{
  ℕ, zero, suc, true, ◌==◌, String, ◌≡◌, refl, inl, inr, Bool-cases, has, or_else, subst,
}
use rust_auth_example.Json.{Json, Number, str, single, null, bool, obj, end}
use rust_auth_example.Http.{Response, Failure, auth_error, other_error, Outcome, resolved, rejected}
use rust_auth_example.Redact.{redact_secrets, redacted, is_secret_key, redact}
use rust_auth_example.Redact.Laws.{Occurs, redact_secrets-Occurs}
use rust_auth_example.Trigger.{
  TriggerResult, from_error, of_outcome, account, registration, run_register, run_login,
  rotate_token, dispatch_password_reset, provoke_invalid_credentials, limited, refused, hammering,
  turn, hammer, hammer_login, lockout_refused, force_lockout, dispatch_verify_email, status_object,
}

-- The request and the response are copies that `redactSecrets` made, or are left as they are by it.
pub record IsShown (r : TriggerResult) : Type 0 where
  pub sent : Json
  pub received : Json
  pub request_redacted : r.request ≡ redact_secrets sent
  pub response_redacted : r.response ≡ redact_secrets received

-- No field with a secret key is in the request or the response, but for the marker.
abbrev pub HidesSecrets : TriggerResult → Type 0
HidesSecrets r =
    (key : String) (v : Json)
    → is_secret_key key ≡ true
    → (Occurs key v r.request → v ≡ str redacted) × (Occurs key v r.response → v ≡ str redacted)

shown-HidesSecrets : (r : TriggerResult) → IsShown r → HidesSecrets r
shown-HidesSecrets r h key v s = (
  λ o. redact_secrets-Occurs key v h.sent (rw h.request_redacted at o) s,
  λ o. redact_secrets-Occurs key v h.received (rw h.response_redacted at o) s,
)

-- The request that was built is left as it is by `redactSecrets`.
abbrev IsPlain : Json → Type 0
IsPlain request = request ≡ redact_secrets request

from_error-IsShown :
    (request : Json) (err : Failure) → IsPlain request → IsShown (from_error request err)
unfolding from_error redact_secrets is_secret_key has redact
from_error-IsShown request (auth_error err) h = record {
  sent = request;
  received = err.json;
  request_redacted = h;
  response_redacted = refl;
}
from_error-IsShown request other_error h = record {
  sent = request;
  received = single "error" (str "unexpected client error");
  request_redacted = h;
  response_redacted = refl;
}

of_outcome-IsShown :
    (request : Json) (outcome : Outcome Json)
    → IsPlain request
    → IsShown (of_outcome request redact_secrets outcome)
unfolding of_outcome
of_outcome-IsShown request (resolved value) h = record {
  sent = request;
  received = value;
  request_redacted = h;
  response_redacted = refl;
}
of_outcome-IsShown request (rejected err) h = from_error-IsShown request err h

account-IsPlain : (email tenant : String) → IsPlain (account email tenant)
unfolding account redact_secrets is_secret_key has redact
account-IsPlain email tenant = refl

registration-IsPlain : (email name tenant : String) → IsPlain (registration email name tenant)
unfolding registration redact_secrets is_secret_key has redact
registration-IsPlain email name tenant = refl

rotate_token-IsShown : (outcome : Outcome Json) → IsShown (rotate_token outcome)
unfolding rotate_token redact_secrets is_secret_key has redact
rotate_token-IsShown outcome = of_outcome-IsShown (single "action" (str "refresh")) outcome refl

dispatch-IsShown :
    (email tenant : String) (o : Outcome Json) → IsShown (dispatch_password_reset email tenant o)
unfolding dispatch_password_reset of_outcome redact_secrets is_secret_key has redact
dispatch-IsShown email tenant (resolved value) = record {
  sent = account email tenant;
  received = single "dispatched" (bool true);
  request_redacted = account-IsPlain email tenant;
  response_redacted = refl;
}
dispatch-IsShown email tenant (rejected err) =
    from_error-IsShown (account email tenant) err (account-IsPlain email tenant)

-- Whatever the client settles with, in the request and in the response that a wrapper over
-- `authClient` returns, a field with a secret key, at whatever depth, holds the redaction marker.
pub client_actions-HidesSecrets :
    (email name tenant : String) (outcome : Outcome Json)
    → HidesSecrets (run_register email name tenant outcome)
      × HidesSecrets (run_login email tenant outcome)
      × HidesSecrets (rotate_token outcome)
      × HidesSecrets (dispatch_password_reset email tenant outcome)
      × HidesSecrets (provoke_invalid_credentials email tenant outcome)
unfolding run_register run_login provoke_invalid_credentials
client_actions-HidesSecrets email name tenant outcome = (
  shown-HidesSecrets _ (
      of_outcome-IsShown (registration email name tenant) outcome
        (registration-IsPlain email name tenant)),
  shown-HidesSecrets _
      (of_outcome-IsShown (account email tenant) outcome (account-IsPlain email tenant)),
  shown-HidesSecrets _ (rotate_token-IsShown outcome),
  shown-HidesSecrets _ (dispatch-IsShown email tenant outcome),
  shown-HidesSecrets _
      (of_outcome-IsShown (account email tenant) outcome (account-IsPlain email tenant)),
)

module _ (number : ℕ → Number) (to_number : String → Number) where
  limited-IsShown :
      (request : Json) (res : Response)
      → IsPlain request
      → IsShown (limited number to_number request res)
  unfolding limited
  limited-IsShown request res h = record {
    sent = request;
    received = _;
    request_redacted = h;
    response_redacted = refl;
  }

  refused-IsShown :
      (request : Json) (res : Response)
      → IsPlain request
      → IsShown (refused number to_number request res)
  unfolding refused
  refused-IsShown request res h = record {
    sent = request;
    received = _;
    request_redacted = h;
    response_redacted = refl;
  }

  -- A result of `hammerLogin`, if it returns one.
  abbrev Shows : Outcome TriggerResult → Type 0
  Shows (resolved r) = IsShown r
  Shows (rejected err) = Unit

  turn-Shows :
      (request : Json) (o : Outcome Response) (rest : Outcome TriggerResult)
      → IsPlain request
      → Shows rest
      → Shows (turn number to_number request o rest)
  unfolding turn
  turn-Shows request (rejected err) rest h k = tt
  turn-Shows request (resolved res) rest h k = elim (Bool-cases (res.status == 429)) [
    | inl e ↦ rw e (limited-IsShown request res h)
    | inr e ↦ elim (Bool-cases res.is_ok) [
      | inl good ↦ rw (e, good) k
      | inr bad ↦ rw (e, bad) (refused-IsShown request res h)
    ]
  ]

  hammer-Shows :
      (request : Json) (login : ℕ → Outcome Response) (left i : ℕ)
      → IsPlain request
      → Shows (hammer number to_number request login left i)
  unfolding hammer redact_secrets is_secret_key has redact
  hammer-Shows request login zero i h = record {
    sent = request;
    received = single "note" (str "no 429 within attempts");
    request_redacted = h;
    response_redacted = refl;
  }
  hammer-Shows request login (suc left) i h =
      turn-Shows request (login i) _ h (hammer-Shows request login left (suc i) h)

  hammering-IsPlain :
      (email tenant : String) (attempts : ℕ)
      → IsPlain (hammering number to_number email tenant attempts)
  unfolding hammering redact_secrets is_secret_key has redact
  hammering-IsPlain email tenant attempts = refl

  lockout_refused-IsShown :
      (request : Json) (res : Response) (body : Json)
      → IsPlain request
      → IsShown (lockout_refused number to_number request res body)
  unfolding lockout_refused
  lockout_refused-IsShown request res null h = from_error-IsShown request other_error h
  lockout_refused-IsShown request res body h = record {
    sent = request;
    received = body;
    request_redacted = h;
    response_redacted = refl;
  }

  force_lockout-IsShown :
      (identifier : String) (outcome : Outcome Response)
      → IsShown (force_lockout number to_number identifier outcome)
  unfolding force_lockout redact_secrets is_secret_key has redact
  force_lockout-IsShown identifier (rejected err) =
      from_error-IsShown (single "identifier" (str identifier)) err refl
  force_lockout-IsShown identifier (resolved res) = elim (Bool-cases res.is_ok) [
    | inl good ↦ rw good (record {
      sent = single "identifier" (str identifier);
      received = or_else res.body (obj end);
      request_redacted = refl;
      response_redacted = refl;
    })
    | inr bad ↦ rw bad (
        lockout_refused-IsShown (single "identifier" (str identifier)) res
          (or_else res.body (obj end)) refl)
  ]

  dispatch_verify_email-IsShown :
      (email tenant : String) (outcome : Outcome Response)
      → IsShown (dispatch_verify_email number to_number email tenant outcome)
  unfolding dispatch_verify_email status_object redact_secrets is_secret_key has redact
  dispatch_verify_email-IsShown email tenant (rejected err) =
      from_error-IsShown (account email tenant) err (account-IsPlain email tenant)
  dispatch_verify_email-IsShown email tenant (resolved res) = elim (Bool-cases res.is_ok) [
    | inl good ↦ rw good (record {
      sent = account email tenant;
      received = status_object number to_number res.status;
      request_redacted = account-IsPlain email tenant;
      response_redacted = refl;
    })
    | inr bad ↦ rw bad (refused-IsShown (account email tenant) res (account-IsPlain email tenant))
  ]

  hammer_login-HidesSecrets :
      (email tenant : String) (attempts : ℕ) (login : ℕ → Outcome Response) {r : TriggerResult}
      → hammer_login number to_number email tenant attempts login ≡ resolved r
      → HidesSecrets r
  unfolding hammer_login
  hammer_login-HidesSecrets email tenant attempts login {r} h = shown-HidesSecrets r (
      subst Shows h (
        hammer-Shows (hammering number to_number email tenant attempts) login attempts 0
          (hammering-IsPlain email tenant attempts)))

  -- Whatever `authFetch` settles with, in the request and in the response that a wrapper over it
  -- returns, a field with a secret key, at whatever depth, holds the redaction marker.
  pub fetch_actions-HidesSecrets :
      (email tenant identifier : String) (outcome : Outcome Response) (attempts : ℕ)
      (login : ℕ → Outcome Response)
      → HidesSecrets (force_lockout number to_number identifier outcome)
        × HidesSecrets (dispatch_verify_email number to_number email tenant outcome)
        × ((r : TriggerResult)
            → hammer_login number to_number email tenant attempts login ≡ resolved r
            → HidesSecrets r)
  fetch_actions-HidesSecrets email tenant identifier outcome attempts login = (
    shown-HidesSecrets _ (force_lockout-IsShown identifier outcome),
    shown-HidesSecrets _ (dispatch_verify_email-IsShown email tenant outcome),
    λ r h. hammer_login-HidesSecrets email tenant attempts login h,
  )
