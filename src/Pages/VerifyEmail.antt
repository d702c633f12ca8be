-- ===== src/Pages/VerifyEmail.antt =====
-- apps/web/app/(public)/auth/verify-email/page.tsx
pub mod Laws
mod Tests
use rust_auth_example.Base.{
  ℕ, zero, suc, Bool, true, false, String, Option, none, some, List, [], ◌∷◌, if◌then◌else◌,
}
use rust_auth_example.Http.{Response, other_error, Outcome, resolved, rejected, code_of}
use rust_auth_example.Pages.{Navigation, push}

abbrev pub neutral_message : String
neutral_message = "If your email is unverified, a new code is on its way."

-- The state of the page: the refs `isVerifyingRef` and `resendDisabledRef`, what the router was told
-- (the latest first), the requests in flight and the cooldown timers that run.
pub record Verify : Type 0 where
  pub error_code : Option String
  pub resend_message : Option String
  pub is_verifying : Bool
  pub resend_disabled : Bool
  pub navigations : List Navigation
  pub verifies_in_flight : ℕ
  pub resends_in_flight : ℕ
  pub cooldowns : ℕ

pub data Event : Type 0 where
  verify : (otp : String) → Event
  verify_settled : Outcome Response → Event
  resend : Event
  resend_settled : Outcome Response → Event
  cooldown_over : Event

pub initial : Verify
initial = record {
  error_code = none;
  resend_message = none;
  is_verifying = false;
  resend_disabled = false;
  navigations = [];
  verifies_in_flight = 0;
  resends_in_flight = 0;
  cooldowns = 0;
}

-- `verify`, up to its `await`; `email` is `user?.email`.
pub on_verify : Option String → Verify → Verify
on_verify none s = if s.is_verifying then s else record s { error_code = some "auth.internal" }
on_verify (some email) s = if s.is_verifying then s else record s {
  is_verifying = true;
  error_code = none;
  verifies_in_flight = suc s.verifies_in_flight;
}

on_verify_outcome : Outcome Response → Verify → Verify
on_verify_outcome (resolved res) s = record s { navigations = push "/dashboard" ∷ s.navigations }
on_verify_outcome (rejected err) s = record s { error_code = some (code_of err) }

-- `verify`, after its `await`
pub on_verify_settled : Outcome Response → ℕ → Verify → Verify
unfolding on_verify_outcome
on_verify_settled outcome zero s = s
on_verify_settled outcome (suc others) s =
    let t = on_verify_outcome outcome s in
    record t { is_verifying = false; verifies_in_flight = others }

-- `resend`, up to its `await`
pub on_resend : Option String → Verify → Verify
on_resend none s =
    if s.resend_disabled then s else record s { resend_message = some neutral_message }
on_resend (some email) s =
    if s.resend_disabled
    then s
    else record s { resend_disabled = true; resends_in_flight = suc s.resends_in_flight }

-- `resend`, after its `await`: the `catch` swallows, the `finally` starts the cooldown.
pub on_resend_settled : Outcome Response → ℕ → Verify → Verify
on_resend_settled outcome zero s = s
on_resend_settled outcome (suc others) s = record s {
  resend_message = some neutral_message;
  cooldowns = suc s.cooldowns;
  resends_in_flight = others;
}

on_cooldown_over : ℕ → Verify → Verify
on_cooldown_over zero s = s
on_cooldown_over (suc others) s = record s { resend_disabled = false; cooldowns = others }

-- The handlers, while the page is mounted
pub step : Option String → Event → Verify → Verify
unfolding on_verify on_verify_settled on_resend on_resend_settled on_cooldown_over
step email (verify otp) s = on_verify email s
step email (verify_settled outcome) s = on_verify_settled outcome s.verifies_in_flight s
step email resend s = on_resend email s
step email (resend_settled outcome) s = on_resend_settled outcome s.resends_in_flight s
step email cooldown_over s = on_cooldown_over s.cooldowns s

pub run : Option String → List Event → Verify → Verify
run email [] s = s
run email (e ∷ es) s = run email es (step email e s)

-- What the page shows: the session's status comes first.
pub data Status : Type 0 where
  unauthenticated loading authenticated : Status

pub data Screen : Type 0 where
  sign_in_first : Screen
  loading_text : Screen
  form : (email : String) → (error : Option String) → (message : Option String) → Screen

pub screen : Status → Option String → Verify → Screen
screen unauthenticated email s = sign_in_first
screen loading email s = loading_text
screen authenticated none s = form "your email" s.error_code s.resend_message
screen authenticated (some email) s = form email s.error_code s.resend_message
