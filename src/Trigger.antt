-- ===== src/Trigger.antt =====
-- apps/web/lib/trigger-actions.ts: the actions of the Trigger Center.
pub mod Laws
pub mod Hammer
pub mod Card
mod Tests
use rust_auth_example.Base.{
  ℕ, zero, suc, Bool, true, false, not, ◌==◌, String, Option, none, some, or_else, if◌then◌else◌,
}
use rust_auth_example.Json.{
  Json, Number, Fields, null, bool, num, str, obj, end, field, finite, not_finite, lookup, single,
}
use rust_auth_example.Http.{
  Response, Failure, auth_error, other_error, AuthClientError, Outcome, resolved, rejected,
}
use rust_auth_example.Redact.{redact_secrets}

-- `TriggerResult`; an absent property is `none`.
pub record TriggerResult : Type 0 where
  pub request : Json
  pub response : Json
  pub code : Option Json
  pub status : Option ℕ
  pub retry_after_seconds : Option Number

-- `value?.[key]`, which is `undefined` (`none`) for a value that is no object
pub optional_field : String → Option Json → Option Json
optional_field key (some (obj fs)) = lookup key fs
optional_field key _ = none

-- `value ?? other`
pub or_json : Option Json → Json → Json
or_json none other = other
or_json (some null) other = other
or_json (some value) other = value

-- `body?.error?.code`
pub code_in : Option Json → Option Json
unfolding optional_field
code_in body = optional_field "code" (optional_field "error" body)

-- `Number.isFinite(value)`, with the number
pub finite_number : Option Json → Option Number
finite_number (some (num (finite n))) = some (finite n)
finite_number _ = none

-- `fromError`
pub from_error : Json → Failure → TriggerResult
from_error request (auth_error err) = record {
  request = request;
  response = redact_secrets err.json;
  code = elim (err.code) [ none ↦ none | some code ↦ some (str code) ];
  status = some err.status;
  retry_after_seconds = none;
}
from_error request other_error = record {
  request = request;
  response = single "error" (str "unexpected client error");
  code = none;
  status = none;
  retry_after_seconds = none;
}

-- What the wrappers over `authClient` return: `shown` is made of what the client resolved with.
pub of_outcome : Json → (Json → Json) → Outcome Json → TriggerResult
unfolding from_error
of_outcome request shown (resolved value) = record {
  request = request;
  response = shown value;
  code = none;
  status = some 200;
  retry_after_seconds = none;
}
of_outcome request shown (rejected err) = from_error request err

-- `{ email, tenantId }`, and `request` of `runRegister`
pub account : (email tenant : String) → Json
account email tenant = obj (field "email" (str email) (field "tenantId" (str tenant) end))

pub registration : (email name tenant : String) → Json
registration email name tenant =
    obj (field "email" (str email) (field "name" (str name) (field "tenantId" (str tenant) end)))

-- The wrappers over `authClient`, by what its call settled with.
pub run_register : (email name tenant : String) → Outcome Json → TriggerResult
unfolding of_outcome registration
run_register email name tenant outcome =
    of_outcome (registration email name tenant) redact_secrets outcome

pub run_login : (email tenant : String) → Outcome Json → TriggerResult
unfolding of_outcome account
run_login email tenant outcome = of_outcome (account email tenant) redact_secrets outcome

pub rotate_token : Outcome Json → TriggerResult
unfolding of_outcome
rotate_token outcome = of_outcome (single "action" (str "refresh")) redact_secrets outcome

pub dispatch_password_reset : (email tenant : String) → Outcome Json → TriggerResult
unfolding of_outcome account
dispatch_password_reset email tenant outcome =
    of_outcome (account email tenant) (λ value. single "dispatched" (bool true)) outcome

pub provoke_invalid_credentials : (email tenant : String) → Outcome Json → TriggerResult
unfolding run_login
provoke_invalid_credentials email tenant outcome = run_login email tenant outcome

-- `number` is the double of a natural, and `to_number` the conversion `Number(header)`.
module _ (number : ℕ → Number) (to_number : String → Number) where
  -- `{ status: res.status }`
  pub status_object : ℕ → Json
  status_object status = single "status" (num (number status))

  -- The window of a 429: the header, if it is there, else the body's `error.details`.
  pub seconds_of : Response → Option Number
  unfolding finite_number optional_field
  seconds_of res = elim (res.retry_after) [
    | some header ↦ finite_number (some (num (to_number header)))
    | none ↦ finite_number (
        optional_field "retryAfterSeconds"
          (optional_field "details" (optional_field "error" res.body)))
  ]

  -- The result of `hammerLogin` on a 429
  pub limited : Json → Response → TriggerResult
  unfolding or_json code_in status_object seconds_of
  limited request res = record {
    request = request;
    response = redact_secrets (or_json res.body (status_object 429));
    code = some (or_json (code_in res.body) (str "auth.too_many_requests"));
    status = some 429;
    retry_after_seconds = seconds_of res;
  }

  -- The result of a response that is not ok, in `hammerLogin` and in `dispatchVerifyEmail`
  pub refused : Json → Response → TriggerResult
  unfolding or_json code_in status_object
  refused request res = record {
    request = request;
    response = redact_secrets (or_json res.body (status_object res.status));
    code = some (or_else (code_in res.body) (str "http.error"));
    status = some res.status;
    retry_after_seconds = none;
  }

  -- `request` of `hammerLogin`
  pub hammering : (email tenant : String) → ℕ → Json
  hammering email tenant attempts = obj (
      field "email" (str email)
        (field "tenantId" (str tenant) (field "attempts" (num (number attempts)) end)))

  -- One turn of the loop of `hammerLogin`, where `rest` is what the later turns return. A rejection
  -- of `authFetch` is not caught.
  pub turn : Json → Outcome Response → Outcome TriggerResult → Outcome TriggerResult
  unfolding limited refused
  turn request (resolved res) rest =
      if res.status == 429
      then resolved (limited request res)
      else (if not res.is_ok then resolved (refused request res) else rest)
  turn request (rejected err) rest = rejected err

  -- The loop of `hammerLogin`, from the attempt `i` on; `login i` is what the request of that
  -- attempt settled with.
  pub hammer : Json → (ℕ → Outcome Response) → (left i : ℕ) → Outcome TriggerResult
  unfolding turn
  hammer request login zero i = resolved (record {
    request = request;
    response = single "note" (str "no 429 within attempts");
    code = none;
    status = some 200;
    retry_after_seconds = none;
  })
  hammer request login (suc left) i =
      let rest = hammer request login left (suc i) in turn request (login i) rest

  -- `hammerLogin`
  pub hammer_login : (email tenant : String) → ℕ → (ℕ → Outcome Response) → Outcome TriggerResult
  unfolding hammer hammering
  hammer_login email tenant attempts login =
      hammer (hammering email tenant attempts) login attempts 0

  -- The body of a response to `forceLockout` that is not ok: `null.error` throws, into the `catch`.
  pub lockout_refused : Json → Response → Json → TriggerResult
  unfolding from_error code_in
  lockout_refused request res null = from_error request other_error
  lockout_refused request res body = record {
    request = request;
    response = redact_secrets body;
    code = some (or_else (code_in (some body)) (str "http.error"));
    status = some res.status;
    retry_after_seconds = none;
  }

  -- `forceLockout`; `identifier` is the text of the tenant, a colon and the email.
  pub force_lockout : (identifier : String) → Outcome Response → TriggerResult
  unfolding from_error lockout_refused
  force_lockout identifier (resolved res) =
      let request = single "identifier" (str identifier) in
      let body = or_else res.body (obj end) in
      if not res.is_ok then lockout_refused request res body else (record {
        request = request;
        response = redact_secrets body;
        code = none;
        status = some res.status;
        retry_after_seconds = none;
      })
  force_lockout identifier (rejected err) = from_error (single "identifier" (str identifier)) err

  -- `dispatchVerifyEmail`
  pub dispatch_verify_email : (email tenant : String) → Outcome Response → TriggerResult
  unfolding refused account from_error status_object
  dispatch_verify_email email tenant (resolved res) =
      if not res.is_ok then refused (account email tenant) res else (record {
        request = account email tenant;
        response = status_object res.status;
        code = none;
        status = some res.status;
        retry_after_seconds = none;
      })
  dispatch_verify_email email tenant (rejected err) = from_error (account email tenant) err
