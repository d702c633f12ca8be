-- ===== src/Pages/PlatformSessions.antt =====
-- apps/web/app/platform/(protected)/sessions/page.tsx, cut at its awaits.
pub mod Screen
pub mod Laws
mod Tests
use rust_auth_example.Base.{
  ℕ, zero, suc, Bool, true, false, String, Option, none, some, List, [], ◌∷◌, if◌then◌else◌,
}
use rust_auth_example.Json.{Json}
use rust_auth_example.Http.{Outcome, resolved, rejected, code_of}
use rust_auth_example.Pages.{Navigation, push}

-- `LoadState`; the admin, `AuthPlatformUserClient`, is kept as the JSON that came.
pub data LoadState : Type 0 where
  loading error : LoadState
  ready : (me : Json) → LoadState

-- The state of the page, what it told the router, and its calls in flight
pub record PlatformSessions : Type 0 where
  pub state : LoadState
  pub error_code : Option String
  pub revoking : Bool
  pub navigations : List Navigation
  pub loads : ℕ
  pub revocations : ℕ

pub initial : PlatformSessions
initial = record {
  state = loading;
  error_code = none;
  revoking = false;
  navigations = [];
  loads = 1;
  revocations = 0;
}

pub data Event : Type 0 where
  me_settled : Outcome Json → Event
  revoke_all : Event
  revoke_settled : Outcome (Unit {0}) → Event

-- The effect on mount
pub on_me : Outcome Json → ℕ → PlatformSessions → PlatformSessions
on_me outcome zero s = s
on_me (resolved me) (suc others) s = record s { state = ready me; loads = others }
on_me (rejected err) (suc others) s = record s { state = error; loads = others }

-- `handleRevokeAll`, up to its `await`
pub on_revoke_all : PlatformSessions → PlatformSessions
on_revoke_all s =
    if s.revoking
    then s
    else record s { revoking = true; error_code = none; revocations = suc s.revocations }

-- `handleRevokeAll`, after its `await`
pub on_revoke_settled : Outcome (Unit {0}) → ℕ → PlatformSessions → PlatformSessions
on_revoke_settled outcome zero s = s
on_revoke_settled (resolved _) (suc others) s = record s {
  navigations = push "/platform/login" ∷ s.navigations;
  revoking = false;
  revocations = others;
}
on_revoke_settled (rejected err) (suc others) s = record s {
  error_code = some (code_of err);
  revoking = false;
  revocations = others;
}

pub step : Event → PlatformSessions → PlatformSessions
unfolding on_me on_revoke_all on_revoke_settled
step (me_settled outcome) s = on_me outcome s.loads s
step revoke_all s = on_revoke_all s
step (revoke_settled outcome) s = on_revoke_settled outcome s.revocations s

pub run : List Event → PlatformSessions → PlatformSessions
run [] s = s
run (e ∷ es) s = run es (step e s)
