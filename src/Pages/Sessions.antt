-- ===== src/Pages/Sessions.antt =====
-- apps/web/app/(dashboard)/dashboard/sessions/page.tsx; Table is components/sessions/SessionsTable.tsx and
-- what the page shows of its state.
pub mod Laws
pub mod Table
mod Tests
use rust_auth_example.Base.{
  ℕ, zero, suc, Bool, true, false, not, ◌&&◌, ◌||◌, String, Option, none, some, List, [], ◌∷◌, ◌++◌,
  str_eq, if◌then◌else◌,
}
use rust_auth_example.Http.{Outcome, resolved, rejected}

-- `SessionInfo` of apps/web/lib/sessions-api.ts
pub record SessionInfo : Type 0 where
  pub id : String
  pub device : String
  pub ip : String
  pub last_activity : String
  pub is_current : Bool

-- `LoadState`
pub data LoadState : Type 0 where
  loading : LoadState
  error : LoadState
  ready : List SessionInfo → LoadState

-- A revocation in flight: the id, and the list that its handler captured.
pub record Revocation : Type 0 where
  pub id : String
  pub previous : List SessionInfo

-- The state of the page, its revocations in flight (the latest first), its loads in flight (those
-- that a sign-out waits for apart) and its calls of `revokeAllOtherSessions` in flight.
pub record Sessions : Type 0 where
  pub state : LoadState
  pub revoking_id : Option String
  pub signing_out_others : Bool
  pub revocations : List Revocation
  pub loads : ℕ
  pub final_loads : ℕ
  pub sign_outs : ℕ

-- `previous.filter((s) => s.id !== id)`
pub without : String → List SessionInfo → List SessionInfo
without id [] = []
without id (s ∷ ss) = let rest = without id ss in if str_eq s.id id then rest else s ∷ rest

-- `load`, up to its `await`
pub load : Sessions → Sessions
load s = record s { state = loading; loads = suc s.loads }

-- `load`, after its `await`
pub on_load_settled : Outcome (List SessionInfo) → ℕ → Sessions → Sessions
on_load_settled outcome zero s = s
on_load_settled (resolved sessions) (suc others) s = record s {
  state = ready sessions;
  loads = others;
}
on_load_settled (rejected err) (suc others) s = record s { state = error; loads = others }

-- `handleRevoke`, up to its `await`, by `state` of the render that it belongs to
pub handle_revoke : String → LoadState → Sessions → Sessions
unfolding without
handle_revoke id (ready previous) s = record s {
  revoking_id = some id;
  state = ready (without id previous);
  revocations = record { id = id; previous = previous } ∷ s.revocations;
}
handle_revoke id _ s = s

-- `handleRevoke`, after its `await`
pub on_revoke_settled : Revocation → Outcome (Unit {0}) → Sessions → Sessions
on_revoke_settled revocation (resolved _) s = record s { revoking_id = none }
on_revoke_settled revocation (rejected err) s = record s {
  state = ready revocation.previous;
  revoking_id = none;
}

-- The revocation at this place settles, and is in flight no more.
pub settle_at : ℕ → List Revocation → Option (Revocation × List Revocation)
settle_at i [] = none
settle_at zero (r ∷ rs) = some (r, rs)
settle_at (suc i) (r ∷ rs) = elim (settle_at i rs) [
  | none ↦ none
  | some found ↦ some (found.0, r ∷ found.1)
]

pub on_settled : Option (Revocation × List Revocation) → Outcome (Unit {0}) → Sessions → Sessions
unfolding on_revoke_settled
on_settled none outcome s = s
on_settled (some (revocation, others)) outcome s =
    on_revoke_settled revocation outcome (record s { revocations = others })

-- `handleSignOutOthers`, after its first `await`
pub on_sign_out_settled : Outcome (Unit {0}) → ℕ → Sessions → Sessions
on_sign_out_settled outcome zero s = s
on_sign_out_settled (resolved _) (suc others) s = record s {
  state = loading;
  final_loads = suc s.final_loads;
  sign_outs = others;
}
on_sign_out_settled (rejected err) (suc others) s = record s {
  signing_out_others = false;
  sign_outs = others;
}

-- `await load()` in `handleSignOutOthers`, with the `finally`
pub on_final_load_settled : Outcome (List SessionInfo) → ℕ → Sessions → Sessions
on_final_load_settled outcome zero s = s
on_final_load_settled (resolved sessions) (suc others) s = record s {
  state = ready sessions;
  signing_out_others = false;
  final_loads = others;
}
on_final_load_settled (rejected err) (suc others) s = record s {
  state = error;
  signing_out_others = false;
  final_loads = others;
}

-- `reload` is the retry and `onNewSession`; `revoke_settled i` settles the revocation at place `i`.
pub data Event : Type 0 where
  reload : Event
  load_settled : Outcome (List SessionInfo) → Event
  revoke : (id : String) → Event
  revoke_settled : ℕ → Outcome (Unit {0}) → Event
  sign_out_others : Event
  sign_out_settled : Outcome (Unit {0}) → Event
  final_load_settled : Outcome (List SessionInfo) → Event

pub step : Event → Sessions → Sessions
unfolding load on_load_settled handle_revoke settle_at on_settled on_sign_out_settled
    on_final_load_settled
step reload s = load s
step (load_settled outcome) s = on_load_settled outcome s.loads s
step (revoke id) s = handle_revoke id s.state s
step (revoke_settled i outcome) s = on_settled (settle_at i s.revocations) outcome s
step sign_out_others s = record s { signing_out_others = true; sign_outs = suc s.sign_outs }
step (sign_out_settled outcome) s = on_sign_out_settled outcome s.sign_outs s
step (final_load_settled outcome) s = on_final_load_settled outcome s.final_loads s

pub run : List Event → Sessions → Sessions
run [] s = s
run (e ∷ es) s = run es (step e s)
