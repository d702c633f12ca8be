-- ===== src/Trigger/Card/Wiring.antt =====
-- Which action each card of app/(dashboard)/dashboard/trigger/page.tsx fires and with what, and what a
-- card of components/trigger/TriggerCard.tsx shows. The arguments after the card are the inputs of
-- the page when it was fired; the password is sent only, to calls whose answers are given here.
pub mod Laws
mod Tests
use Prim.Native.Char.{code}
use Prim.Native.String.{◌++◌ as text_append}
use rust_auth_example.Base.{ℕ, Bool, true, false, ◌==◌, String, Option, none, some, if◌then◌else◌}
use rust_auth_example.Json.{Json, Number}
use rust_auth_example.Http.{Response, Outcome, resolved}
use rust_auth_example.Trigger.{
  TriggerResult, run_register, run_login, rotate_token, dispatch_password_reset,
  provoke_invalid_credentials, hammer_login, force_lockout, dispatch_verify_email,
}
use rust_auth_example.Trigger.Card.{
  Card, register_card, login_card, force_mfa_card, rotate_card, hammer_card, lockout_card,
  verify_email_card, password_reset_card, provoke_card, CardState,
}

-- What the calls of an action settle with: that of `authClient`, that of `authFetch`, and those of
-- the logins that are fired back-to-back
pub record Answers : Type 0 where
  pub client : Outcome Json
  pub fetched : Outcome Response
  pub logins : ℕ → Outcome Response

-- `email.split('@')[0]`, which is always there
pub local_part : String → String
local_part String.[] = ""
local_part (String.◌∷◌ c rest) =
    let before = local_part rest in if code c == b'@' then "" else String.◌∷◌ c before

-- `identifier` of `forceLockout`
pub identifier_of : (email tenant : String) → String
identifier_of email tenant = text_append tenant (text_append ":" email)

-- The default of `attempts` of `hammerLogin`
abbrev pub default_attempts : ℕ
default_attempts = 7

module _ (number : ℕ → Number) (to_number : String → Number) where
  -- The first argument of `withPivot` of each card
  pub action : Card → (email tenant : String) → Answers → Outcome TriggerResult
  unfolding local_part identifier_of
  action register_card email tenant a =
      resolved (run_register email (local_part email) tenant a.client)
  action login_card email tenant a = resolved (run_login email tenant a.client)
  action force_mfa_card email tenant a = resolved (run_login email tenant a.client)
  action rotate_card email tenant a = resolved (rotate_token a.client)
  action hammer_card email tenant a =
      hammer_login number to_number email tenant default_attempts a.logins
  action lockout_card email tenant a =
      resolved (force_lockout number to_number (identifier_of email tenant) a.fetched)
  action verify_email_card email tenant a =
      resolved (dispatch_verify_email number to_number email tenant a.fetched)
  action password_reset_card email tenant a =
      resolved (dispatch_password_reset email tenant a.client)
  action provoke_card email tenant a = resolved (provoke_invalid_credentials email tenant a.client)

-- `actionLabel` of each card
pub label_of : Card → String
label_of register_card = "Register"
label_of login_card = "Login"
label_of force_mfa_card = "Challenge"
label_of rotate_card = "Rotate"
label_of hammer_card = "Hammer"
label_of lockout_card = "Lock out"
label_of verify_email_card = "Dispatch"
label_of password_reset_card = "Dispatch"
label_of provoke_card = "Provoke"

-- What a card shows: its button, and the result with the badges that are there
pub record Shown : Type 0 where
  pub button : String
  pub is_disabled : Bool
  pub result : Option TriggerResult

pub card_shown : Card → CardState → Shown
unfolding label_of
card_shown c s = record {
  button = if s.pending then "Firing…" else label_of c;
  is_disabled = s.pending;
  result = s.result;
}
