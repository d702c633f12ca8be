-- ===== src/Pages/ForgotPassword.antt =====
-- apps/web/app/(public)/auth/forgot-password/page.tsx
pub mod Screen
pub mod Laws
mod Tests
use rust_auth_example.Base.{
  ℕ, zero, suc, Bool, true, false, String, Option, none, some, List, [], ◌∷◌, if◌then◌else◌,
}
use rust_auth_example.Json.{Json, str, obj, Fields, lookup, as_string}
use rust_auth_example.Http.{
  Response, Failure, auth_error, other_error, Outcome, resolved, rejected, code_of,
}
use rust_auth_example.Pages.{Navigation, push}
use rust_auth_example.Pages.Stores.{Slot, set_reset_verified_token}

-- `WizardStep`
pub data WizardStep : Type 0 where
  email_step : WizardStep
  otp_step : WizardStep

-- The state of the page, the slot of the reset-flow store, what the router was told (the latest
-- first) and the number of OTP verifications in flight.
pub record Forgot : Type 0 where
  pub wizard_step : WizardStep
  pub email : String
  pub error_code : Option String
  pub is_submitting : Bool
  pub is_verifying : Bool
  pub slot : Slot
  pub navigations : List Navigation
  pub in_flight : ℕ

pub data Event : Type 0 where
  type_email : String → Event
  submit_email : Event
  email_settled : Outcome (Unit {0}) → Event
  complete_otp : (otp : String) → Event
  verify_settled : Outcome Response → Event
  start_over : Event

pub initial : Slot → Forgot
initial slot = record {
  wizard_step = email_step;
  email = "";
  error_code = none;
  is_submitting = false;
  is_verifying = false;
  slot = slot;
  navigations = [];
  in_flight = 0;
}

-- `onEmailSubmit`, after its `await`
pub on_email_settled : Outcome (Unit {0}) → Forgot → Forgot
on_email_settled (resolved _) s = record s { is_submitting = false; wizard_step = otp_step }
on_email_settled (rejected (auth_error err)) s = record s {
  is_submitting = false;
  wizard_step = otp_step;
}
on_email_settled (rejected other_error) s = record s {
  is_submitting = false;
  error_code = some "auth.internal";
}

-- The property `verifiedToken` of the body, if it is an object that holds a string there
pub verified_token : Json → Option String
verified_token (obj fs) = as_string (lookup "verifiedToken" fs)
verified_token _ = none

-- The check of the body, and what follows it in the `try` of `onOtpComplete`
pub on_token : Option String → Forgot → Forgot
on_token none s = record s { error_code = some "auth.internal" }
on_token (some token) s = record s {
  slot = set_reset_verified_token token s.slot;
  navigations = push "/auth/reset-password" ∷ s.navigations;
}

-- The `try` of `onOtpComplete`, after the response came: `res.json()` may reject.
pub on_body : Option Json → Forgot → Forgot
unfolding on_token
on_body none s = record s { error_code = some (code_of other_error) }
on_body (some body) s = on_token (verified_token body) s

on_verify_outcome : Outcome Response → Forgot → Forgot
unfolding on_body
on_verify_outcome (resolved res) s = on_body res.body s
on_verify_outcome (rejected err) s = record s { error_code = some (code_of err) }

-- `onOtpComplete`, after its `await`, with the `finally`; nothing settles that is not in flight.
pub on_verify_settled : Outcome Response → ℕ → Forgot → Forgot
unfolding on_verify_outcome
on_verify_settled outcome zero s = s
on_verify_settled outcome (suc others) s =
    let t = on_verify_outcome outcome s in record t { is_verifying = false; in_flight = others }

-- The handlers
pub step : Event → Forgot → Forgot
unfolding on_email_settled on_verify_settled
step (type_email text) s = record s { email = text }
step submit_email s = record s { error_code = none; is_submitting = true }
step (email_settled outcome) s = on_email_settled outcome s
step (complete_otp otp) s =
    if s.is_verifying
    then s
    else record s { is_verifying = true; error_code = none; in_flight = suc s.in_flight }
step (verify_settled outcome) s = on_verify_settled outcome s.in_flight s
step start_over s = record s { wizard_step = email_step }

pub run : List Event → Forgot → Forgot
run [] s = s
run (e ∷ es) s = run es (step e s)
