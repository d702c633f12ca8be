-- ===== src/Pages/Security.antt =====
-- apps/web/app/(dashboard)/dashboard/security/page.tsx. Each handler that awaits is cut at its
-- awaits; what settles is a call that is in flight.
pub mod Laws
mod Tests
use rust_auth_example.Base.{
  ℕ, zero, suc, Bool, true, false, not, String, Option, none, some, List, [], ◌∷◌, if◌then◌else◌,
}
use rust_auth_example.Json.{Json}
use rust_auth_example.Http.{Outcome, resolved, rejected, code_of}

-- `Mode`
pub data Mode : Type 0 where
  off enrolling on : Mode

-- The state of the page, and its calls in flight. A setup, `MfaSetupResult`, is kept as the JSON
-- that came.
pub record Security : Type 0 where
  pub mode : Option Mode
  pub setup : Option Json
  pub error_code : Option String
  pub busy : Bool
  pub disable_open : Bool
  pub regenerating : Bool
  pub new_codes : Option (List String)
  pub setups : ℕ
  pub enables : ℕ
  pub disables : ℕ
  pub regenerations : ℕ
  pub refreshes : ℕ

unfoldable pub initial : Security
initial = record {
  mode = none;
  setup = none;
  error_code = none;
  busy = false;
  disable_open = false;
  regenerating = false;
  new_codes = none;
  setups = 0;
  enables = 0;
  disables = 0;
  regenerations = 0;
  refreshes = 0;
}

pub data Event : Type 0 where
  user_known : (mfa_enabled : Bool) → Event
  begin_enroll : Event
  setup_settled : Outcome Json → Event
  verify_enable : (code : String) → Event
  enable_settled : Outcome (Unit {0}) → Event
  cancel : Event
  disable : (code : String) → Event
  disable_settled : Outcome (Unit {0}) → Event
  regenerate : (code : String) → Event
  regenerate_settled : Outcome (List String) → Event
  refresh_settled : Outcome (Unit {0}) → Event
  toggle_regenerating : Event
  open_disable : Bool → Event

-- The effect on the session's user
pub on_user : Option Mode → Bool → Security → Security
on_user none mfa_enabled s = record s { mode = some (if mfa_enabled then on else off) }
on_user (some mode) mfa_enabled s = s

-- `beginEnroll`, after its `await`
pub on_setup_settled : Outcome Json → ℕ → Security → Security
on_setup_settled outcome zero s = s
on_setup_settled (resolved result) (suc others) s = record s {
  setup = some result;
  mode = some enrolling;
  busy = false;
  setups = others;
}
on_setup_settled (rejected err) (suc others) s = record s {
  error_code = some (code_of err);
  busy = false;
  setups = others;
}

-- `verifyEnable`, up to its second `await`
pub on_enable_settled : Outcome (Unit {0}) → ℕ → Security → Security
on_enable_settled outcome zero s = s
on_enable_settled (resolved _) (suc others) s = record s {
  setup = none;
  mode = some on;
  enables = others;
  refreshes = suc s.refreshes;
}
on_enable_settled (rejected err) (suc others) s = record s {
  error_code = some (code_of err);
  enables = others;
}

-- `disable`, up to its second `await`
pub on_disable_settled : Outcome (Unit {0}) → ℕ → Security → Security
on_disable_settled outcome zero s = s
on_disable_settled (resolved _) (suc others) s = record s {
  disable_open = false;
  new_codes = none;
  mode = some off;
  disables = others;
  refreshes = suc s.refreshes;
}
on_disable_settled (rejected err) (suc others) s = record s {
  error_code = some (code_of err);
  disables = others;
}

-- `regenerate`, after its `await`
pub on_regenerate_settled : Outcome (List String) → ℕ → Security → Security
on_regenerate_settled outcome zero s = s
on_regenerate_settled (resolved codes) (suc others) s = record s {
  new_codes = some codes;
  regenerating = false;
  regenerations = others;
}
on_regenerate_settled (rejected err) (suc others) s = record s {
  error_code = some (code_of err);
  regenerations = others;
}

-- `await refresh()` in `verifyEnable` and `disable`
pub on_refresh_settled : Outcome (Unit {0}) → ℕ → Security → Security
on_refresh_settled outcome zero s = s
on_refresh_settled (resolved _) (suc others) s = record s { refreshes = others }
on_refresh_settled (rejected err) (suc others) s = record s {
  error_code = some (code_of err);
  refreshes = others;
}

unfoldable pub step : Event → Security → Security
unfolding on_user on_setup_settled on_enable_settled on_disable_settled on_regenerate_settled
    on_refresh_settled
step (user_known mfa_enabled) s = on_user s.mode mfa_enabled s
step begin_enroll s = record s { busy = true; error_code = none; setups = suc s.setups }
step (setup_settled outcome) s = on_setup_settled outcome s.setups s
step (verify_enable code) s = record s { error_code = none; enables = suc s.enables }
step (enable_settled outcome) s = on_enable_settled outcome s.enables s
step cancel s = record s { mode = some off }
step (disable code) s = record s { error_code = none; disables = suc s.disables }
step (disable_settled outcome) s = on_disable_settled outcome s.disables s
step (regenerate code) s = record s { error_code = none; regenerations = suc s.regenerations }
step (regenerate_settled outcome) s = on_regenerate_settled outcome s.regenerations s
step (refresh_settled outcome) s = on_refresh_settled outcome s.refreshes s
step toggle_regenerating s = record s { new_codes = none; regenerating = not s.regenerating }
step (open_disable next) s = record s { disable_open = next }

unfoldable pub run : List Event → Security → Security
run [] s = s
run (e ∷ es) s = run es (step e s)

-- The card that is rendered for the mode; `empty` is none.
pub data Card : Type 0 where
  skeleton : Card
  off_card : (is_busy : Bool) → Card
  enroll_card : (setup : Json) → Card
  on_card : (disable_open regenerating : Bool) → (codes : Option (List String)) → Card
  empty : Card

unfoldable pub card_of : Mode → Security → Card
card_of off s = off_card s.busy
card_of enrolling s = elim (s.setup) [ some result ↦ enroll_card result | none ↦ empty ]
card_of on s = on_card s.disable_open s.regenerating s.new_codes

-- `status === 'loading' || mode === null`
unfoldable pub card : (loading : Bool) → Security → Card
unfolding card_of
card loading s =
    if loading then skeleton else elim (s.mode) [ none ↦ skeleton | some mode ↦ card_of mode s ]
