-- ===== src/Pages/PlatformLogin.antt =====
-- apps/web/app/platform/login/page.tsx
pub mod Laws
mod Tests
use rust_auth_example.Base.{
  ℕ, zero, suc, Bool, true, false, ◌||◌, not, is_some, String, Option, none, some, List, [], ◌∷◌,
  str_eq, if◌then◌else◌,
}
use rust_auth_example.Http.{Outcome, resolved, rejected, code_of}
use rust_auth_example.Pages.{Navigation, push}

-- What `platformClient.login` resolves to, as the page reads it: the token of a result that has
-- `mfaRequired` set.
abbrev pub LoginResult : Type 0
LoginResult = Option String

-- The state of `PlatformLoginForm`, with the calls of `mfaChallenge(token, code)` and what the router
-- was told (the latest first), and the logins and challenges in flight.
pub record Form : Type 0 where
  pub error_code : Option String
  pub is_submitting : Bool
  pub mfa_temp_token : Option String
  pub pending_mfa_code : Option String
  pub is_mfa_submitting : Bool
  pub sent : List (String × String)
  pub navigations : List Navigation
  pub logins : ℕ
  pub challenges : ℕ

pub data Event : Type 0 where
  login : (email password : String) → Event
  login_settled : Outcome LoginResult → Event
  complete_code : (code : String) → Event
  submit_mfa : Event
  mfa_settled : Outcome (Unit {0}) → Event
  back : Event

pub initial : Form
initial = record {
  error_code = none;
  is_submitting = false;
  mfa_temp_token = none;
  pending_mfa_code = none;
  is_mfa_submitting = false;
  sent = [];
  navigations = [];
  logins = 0;
  challenges = 0;
}

on_login_outcome : Outcome LoginResult → Form → Form
on_login_outcome (resolved (some token)) s = record s { mfa_temp_token = some token }
on_login_outcome (resolved none) s = record s {
  navigations = push "/platform/security" ∷ s.navigations;
}
on_login_outcome (rejected err) s = record s { error_code = some (code_of err) }

-- `onLogin`, after its `await`
pub on_login_settled : Outcome LoginResult → ℕ → Form → Form
unfolding on_login_outcome
on_login_settled outcome zero s = s
on_login_settled outcome (suc others) s =
    let t = on_login_outcome outcome s in record t { is_submitting = false; logins = others }

-- `onMfaSubmit`, up to its `await`
pub on_mfa_submit : Option String → Option String → Form → Form
on_mfa_submit none code s = s
on_mfa_submit (some token) none s = s
on_mfa_submit (some token) (some code) s = record s {
  error_code = none;
  is_mfa_submitting = true;
  sent = (token, code) ∷ s.sent;
  challenges = suc s.challenges;
}

on_mfa_outcome : Outcome (Unit {0}) → Form → Form
on_mfa_outcome (resolved _) s = record s { navigations = push "/platform/security" ∷ s.navigations }
on_mfa_outcome (rejected err) s = record s { error_code = some (code_of err) }

-- `onMfaSubmit`, after its `await`
pub on_mfa_settled : Outcome (Unit {0}) → ℕ → Form → Form
unfolding on_mfa_outcome
on_mfa_settled outcome zero s = s
on_mfa_settled outcome (suc others) s =
    let t = on_mfa_outcome outcome s in record t { is_mfa_submitting = false; challenges = others }

pub step : Event → Form → Form
unfolding on_login_settled on_mfa_submit on_mfa_settled
step (login email password) s = record s {
  error_code = none;
  is_submitting = true;
  logins = suc s.logins;
}
step (login_settled outcome) s = on_login_settled outcome s.logins s
step (complete_code code) s = record s { pending_mfa_code = some code }
step submit_mfa s = on_mfa_submit s.mfa_temp_token s.pending_mfa_code s
step (mfa_settled outcome) s = on_mfa_settled outcome s.challenges s
step back s = record s { mfa_temp_token = none; pending_mfa_code = none; error_code = none }

pub run : List Event → Form → Form
run [] s = s
run (e ∷ es) s = run es (step e s)

-- `ReasonBanner`: the code of the message that it shows
unfoldable pub reason_banner : Option String → Option String
reason_banner none = none
reason_banner (some reason) =
    if str_eq reason "wrong-domain"
    then some "auth.platform_auth_required"
    else (if str_eq reason "session-expired" then some "auth.session_expired" else none)

-- What is rendered: the MFA step with its error and the disabled state of the submit button, or the
-- password step with the reason banner, the error and that state.
pub data Screen : Type 0 where
  mfa_step : (error : Option String) → (submit_disabled : Bool) → Screen
  password_step : (banner error : Option String) → (submit_disabled : Bool) → Screen

pub screen : Option String → Form → Screen
unfolding reason_banner
screen reason s =
    if is_some s.mfa_temp_token
    then mfa_step s.error_code (s.is_mfa_submitting || not (is_some s.pending_mfa_code))
    else password_step (reason_banner reason) s.error_code s.is_submitting
