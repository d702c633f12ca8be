-- ===== src/Pages/MfaChallenge.antt =====
-- apps/web/app/(public)/auth/mfa-challenge/page.tsx
pub mod Laws
mod Tests
use rust_auth_example.Base.{
  ℕ, zero, suc, Bool, true, false, ◌||◌, not, is_some, String, Option, none, some, List, [], ◌∷◌,
  if◌then◌else◌,
}
use rust_auth_example.Http.{Outcome, resolved, rejected, code_of}
use rust_auth_example.Pages.{Navigation, replace}
use rust_auth_example.Pages.Stores.{Slot, consume_pending_mfa_challenge}

-- The state of the page, with the calls `mfaChallenge(token, totp)` made so far and what the router
-- was told (the latest first), and the calls of `mfaChallenge` and of `refresh` in flight.
pub record Challenge : Type 0 where
  pub temp_token : Option String
  pub error_code : Option String
  pub is_expired : Bool
  pub is_submitting : Bool
  pub sent : List (String × String)
  pub navigations : List Navigation
  pub challenges : ℕ
  pub refreshes : ℕ

pub data Event : Type 0 where
  submit : (totp : String) → Event
  challenge_settled : Outcome (Unit {0}) → Event
  refresh_settled : Outcome (Unit {0}) → Event
  expired : Event

-- The page as it is mounted, and the slot after its `useState` initialiser consumed it.
pub mount : Slot → Challenge × Slot
mount slot =
    let (token, left) = consume_pending_mfa_challenge slot in
    (
      record {
        temp_token = token;
        error_code = none;
        is_expired = false;
        is_submitting = false;
        sent = [];
        navigations = [];
        challenges = 0;
        refreshes = 0;
      },
      left,
    )

-- `submit`, up to its first `await`
pub on_submit : Option String → String → Challenge → Challenge
on_submit none totp s = s
on_submit (some token) totp s = if s.is_expired || s.is_submitting then s else record s {
  is_submitting = true;
  error_code = none;
  sent = (token, totp) ∷ s.sent;
  challenges = suc s.challenges;
}

-- `submit`, from its first `await` to the second; a rejection goes to the `catch` and the `finally`.
pub on_challenge_settled : Outcome (Unit {0}) → ℕ → Challenge → Challenge
on_challenge_settled outcome zero s = s
on_challenge_settled (resolved _) (suc others) s = record s {
  challenges = others;
  refreshes = suc s.refreshes;
}
on_challenge_settled (rejected err) (suc others) s = record s {
  challenges = others;
  error_code = some (code_of err);
  is_submitting = false;
}

-- `submit`, after `await refresh()`
pub on_refresh_settled : Outcome (Unit {0}) → ℕ → Challenge → Challenge
on_refresh_settled outcome zero s = s
on_refresh_settled (resolved _) (suc others) s = record s {
  refreshes = others;
  navigations = replace "/dashboard" ∷ s.navigations;
  is_submitting = false;
}
on_refresh_settled (rejected err) (suc others) s = record s {
  refreshes = others;
  error_code = some (code_of err);
  is_submitting = false;
}

-- The handlers; the pill's `onExpired` sets `isExpired`.
pub step : Event → Challenge → Challenge
unfolding on_submit on_challenge_settled on_refresh_settled
step (submit totp) s = on_submit s.temp_token totp s
step (challenge_settled outcome) s = on_challenge_settled outcome s.challenges s
step (refresh_settled outcome) s = on_refresh_settled outcome s.refreshes s
step expired s = record s { is_expired = true }

pub run : List Event → Challenge → Challenge
run [] s = s
run (e ∷ es) s = run es (step e s)

-- What is rendered: the expired session, or the code form with its error and the expiry hint.
pub data Screen : Type 0 where
  session_expired : Screen
  code_form : (error : Option String) → (expired_hint : Bool) → Screen

pub screen : Challenge → Screen
screen s =
    if not (is_some s.temp_token) then session_expired else code_form s.error_code s.is_expired
