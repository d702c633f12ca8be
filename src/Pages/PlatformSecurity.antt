-- ===== src/Pages/PlatformSecurity.antt =====
-- apps/web/app/platform/(protected)/security/page.tsx: the second factor of a platform admin. As on
-- the dashboard's page, a handler that awaits is cut at its `await`.
pub mod Laws
mod Tests
use rust_auth_example.Base.{
  ℕ, zero, suc, Bool, true, false, not, String, Option, none, some, List, [], ◌∷◌, if◌then◌else◌,
}
use rust_auth_example.Json.{Json}
use rust_auth_example.Http.{Outcome, resolved, rejected, code_of}
use rust_auth_example.Pages.Security.{
  Mode, off, enrolling, on, Card, skeleton, off_card, enroll_card, on_card, empty,
}

-- The state of the page, and its calls in flight. `getMe` is in flight as long as there is no mode.
pub record PlatformSecurity : Type 0 where
  pub mode : Option Mode
  pub setup : Option Json
  pub error_code : Option String
  pub busy : Bool
  pub disable_open : Bool
  pub regenerating : Bool
  pub new_codes : Option (List String)
  pub setups : ℕ
  pub enables : ℕ
  pub disables : ℕ
  pub regenerations : ℕ

pub initial : PlatformSecurity
initial = record {
  mode = none;
  setup = none;
  error_code = none;
  busy = false;
  disable_open = false;
  regenerating = false;
  new_codes = none;
  setups = 0;
  enables = 0;
  disables = 0;
  regenerations = 0;
}

-- `me_settled` carries the field `mfaEnabled` of what `getMe` resolved to.
pub data Event : Type 0 where
  me_settled : Outcome Bool → Event
  begin_enroll : Event
  setup_settled : Outcome Json → Event
  verify_enable : (code : String) → Event
  enable_settled : Outcome (Unit {0}) → Event
  cancel : Event
  disable : (code : String) → Event
  disable_settled : Outcome (Unit {0}) → Event
  regenerate : (code : String) → Event
  regenerate_settled : Outcome (List String) → Event
  toggle_regenerating : Event
  open_disable : Bool → Event

-- The effect that derives the first mode
pub on_me : Outcome Bool → PlatformSecurity → PlatformSecurity
on_me (resolved mfa_enabled) s = record s { mode = some (if mfa_enabled then on else off) }
on_me (rejected err) s = record s { error_code = some (code_of err); mode = some off }

-- `beginEnroll`, after its `await`
pub on_setup_settled : Outcome Json → ℕ → PlatformSecurity → PlatformSecurity
on_setup_settled outcome zero s = s
on_setup_settled (resolved result) (suc others) s = record s {
  setup = some result;
  mode = some enrolling;
  busy = false;
  setups = others;
}
on_setup_settled (rejected err) (suc others) s = record s {
  error_code = some (code_of err);
  busy = false;
  setups = others;
}

-- `verifyEnable`, after its `await`
pub on_enable_settled : Outcome (Unit {0}) → ℕ → PlatformSecurity → PlatformSecurity
on_enable_settled outcome zero s = s
on_enable_settled (resolved _) (suc others) s = record s {
  setup = none;
  mode = some on;
  enables = others;
}
on_enable_settled (rejected err) (suc others) s = record s {
  error_code = some (code_of err);
  enables = others;
}

-- `disable`, after its `await`
pub on_disable_settled : Outcome (Unit {0}) → ℕ → PlatformSecurity → PlatformSecurity
on_disable_settled outcome zero s = s
on_disable_settled (resolved _) (suc others) s = record s {
  disable_open = false;
  new_codes = none;
  mode = some off;
  disables = others;
}
on_disable_settled (rejected err) (suc others) s = record s {
  error_code = some (code_of err);
  disables = others;
}

-- `regenerate`, after its `await`
pub on_regenerate_settled : Outcome (List String) → ℕ → PlatformSecurity → PlatformSecurity
on_regenerate_settled outcome zero s = s
on_regenerate_settled (resolved codes) (suc others) s = record s {
  new_codes = some codes;
  regenerating = false;
  regenerations = others;
}
on_regenerate_settled (rejected err) (suc others) s = record s {
  error_code = some (code_of err);
  regenerations = others;
}

-- What happens once there is a mode
pub handle : Event → PlatformSecurity → PlatformSecurity
unfolding on_setup_settled on_enable_settled on_disable_settled on_regenerate_settled
handle (me_settled outcome) s = s
handle begin_enroll s = record s { busy = true; error_code = none; setups = suc s.setups }
handle (setup_settled outcome) s = on_setup_settled outcome s.setups s
handle (verify_enable code) s = record s { error_code = none; enables = suc s.enables }
handle (enable_settled outcome) s = on_enable_settled outcome s.enables s
handle cancel s = record s { setup = none; error_code = none; mode = some off }
handle (disable code) s = record s { error_code = none; disables = suc s.disables }
handle (disable_settled outcome) s = on_disable_settled outcome s.disables s
handle (regenerate code) s = record s { error_code = none; regenerations = suc s.regenerations }
handle (regenerate_settled outcome) s = on_regenerate_settled outcome s.regenerations s
handle toggle_regenerating s = record s { new_codes = none; regenerating = not s.regenerating }
handle (open_disable next) s = record s { disable_open = next }

-- While there is no mode, the page has no control that could be used: `if (mode === null) return`.
pub handle_loading : Event → PlatformSecurity → PlatformSecurity
unfolding on_me
handle_loading (me_settled outcome) s = on_me outcome s
handle_loading e s = s

pub step_in : Option Mode → Event → PlatformSecurity → PlatformSecurity
unfolding handle handle_loading
step_in none e s = handle_loading e s
step_in (some mode) e s = handle e s

pub step : Event → PlatformSecurity → PlatformSecurity
unfolding step_in
step e s = step_in s.mode e s

pub run : List Event → PlatformSecurity → PlatformSecurity
run [] s = s
run (e ∷ es) s = run es (step e s)

-- The card that is rendered, of the dashboard's page
pub card_of : Mode → PlatformSecurity → Card
card_of off s = off_card s.busy
card_of enrolling s = elim (s.setup) [ some result ↦ enroll_card result | none ↦ empty ]
card_of on s = on_card s.disable_open s.regenerating s.new_codes

pub card : PlatformSecurity → Card
unfolding card_of
card s = elim (s.mode) [ none ↦ skeleton | some mode ↦ card_of mode s ]
