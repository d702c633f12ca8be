-- ===== src/Pages/Login.antt =====
-- apps/web/app/(public)/auth/login/page.tsx
pub mod Flow
pub mod Laws
mod Tests
use rust_auth_example.Base.{
  ℕ, zero, suc, Bool, true, false, ◌&&◌, String, Option, none, some, List, [], ◌∷◌, str_eq,
  if◌then◌else◌,
}
use rust_auth_example.Http.{Outcome, resolved, rejected, code_of}
use rust_auth_example.Pages.{Navigation, push}
use rust_auth_example.Pages.Stores.{Slot, set_pending_mfa_challenge}
use rust_auth_example.Pages.Tenant.{known_tenant_of}

-- What `login` resolves to, as the page reads it: the property `mfaTempToken`, if it is there, and
-- `mfaRequired`.
pub record LoginResult : Type 0 where
  pub mfa_temp_token : Option String
  pub mfa_required : Bool

-- A call `login(email, password, { tenantId })`
pub record Attempt : Type 0 where
  pub email : String
  pub password : String
  pub tenant_id : String

-- The state of the page, the query parameter `tenant`, the slot of the MFA-challenge store, the
-- calls of `login` and what the router was told (the latest first), and the calls in flight.
pub record Login : Type 0 where
  pub raw_tenant_id : String
  pub error_code : Option String
  pub email : String
  pub password : String
  pub is_submitting : Bool
  pub slot : Slot
  pub attempts : List Attempt
  pub navigations : List Navigation
  pub in_flight : ℕ

pub data Event : Type 0 where
  choose_tenant : String → Event
  type_email : String → Event
  type_password : String → Event
  submit : Event
  settled : Outcome LoginResult → Event

pub initial : String → Slot → Login
initial tenant slot = record {
  raw_tenant_id = tenant;
  error_code = none;
  email = "";
  password = "";
  is_submitting = false;
  slot = slot;
  attempts = [];
  navigations = [];
  in_flight = 0;
}

-- `onSubmit`, up to its `await`
pub on_submit : Login → Login
on_submit s = record s {
  error_code = none;
  is_submitting = true;
  attempts =
      record { email = s.email; password = s.password; tenant_id = known_tenant_of s.raw_tenant_id }
      ∷ s.attempts;
  in_flight = suc s.in_flight;
}

-- `'mfaTempToken' in result && result.mfaRequired`, with the token
pub challenge_of : LoginResult → Option String
challenge_of result = if result.mfa_required then result.mfa_temp_token else none

pub on_result : Option String → Login → Login
on_result none s = record s { navigations = push "/dashboard" ∷ s.navigations }
on_result (some token) s = record s {
  slot = set_pending_mfa_challenge token s.slot;
  navigations = push "/auth/mfa-challenge" ∷ s.navigations;
}

on_outcome : Outcome LoginResult → Login → Login
unfolding on_result challenge_of
on_outcome (resolved result) s = on_result (challenge_of result) s
on_outcome (rejected err) s = record s { error_code = some (code_of err) }

-- `onSubmit`, after its `await`, with the `finally`
pub on_settled : Outcome LoginResult → ℕ → Login → Login
unfolding on_outcome
on_settled outcome zero s = s
on_settled outcome (suc others) s =
    let t = on_outcome outcome s in record t { is_submitting = false; in_flight = others }

pub step : Event → Login → Login
unfolding on_submit on_settled
step (choose_tenant slug) s = record s { raw_tenant_id = slug }
step (type_email text) s = record s { email = text }
step (type_password text) s = record s { password = text }
step submit s = on_submit s
step (settled outcome) s = on_settled outcome s.in_flight s

pub run : List Event → Login → Login
run [] s = s
run (e ∷ es) s = run es (step e s)

-- What is rendered from the query parameters `reason`, `verified` and `reset` and the state: the
-- three banners, the code of the error banner, the selected workspace, the disabled state of the
-- submit button, and the tenant of the Google link if that is configured.
pub record View : Type 0 where
  pub session_expired : Bool
  pub just_verified : Bool
  pub just_reset : Bool
  pub error : Option String
  pub workspace : String
  pub submit_disabled : Bool
  pub google_tenant : Option String

pub view : (google_enabled : Bool) → (reason verified reset : String) → Login → View
view google_enabled reason verified reset s = record {
  session_expired = str_eq reason "session_expired";
  just_verified = str_eq verified "1";
  just_reset = str_eq reset "1";
  error = s.error_code;
  workspace = known_tenant_of s.raw_tenant_id;
  submit_disabled = s.is_submitting;
  google_tenant = if google_enabled then some (known_tenant_of s.raw_tenant_id) else none;
}
