-- ===== src/Pages/Sessions/Table.antt =====
-- apps/web/components/sessions/SessionsTable.tsx, and what the sessions page shows of its state.
pub mod Laws
mod Tests
use rust_auth_example.Base.{
  ℕ, leb, Bool, true, false, not, ◌&&◌, ◌||◌, String, Option, none, some, List, [], ◌∷◌, map,
  length, str_eq, if◌then◌else◌,
}
use rust_auth_example.Pages.Sessions.{SessionInfo, LoadState, loading, error, ready, Sessions}

-- `Number(b.isCurrent) - Number(a.isCurrent) > 0`: the comparison puts `a` behind `b`.
pub goes_behind : SessionInfo → SessionInfo → Bool
goes_behind a b = b.is_current && not a.is_current

-- `Array.prototype.sort`, which is stable: an element goes behind those only that the comparison
-- puts before it.
pub insert : SessionInfo → List SessionInfo → List SessionInfo
unfolding goes_behind
insert s [] = s ∷ []
insert s (t ∷ ts) = let rest = insert s ts in if goes_behind s t then t ∷ rest else s ∷ t ∷ ts

-- `ordered`
pub ordered : List SessionInfo → List SessionInfo
unfolding insert
ordered [] = []
ordered (s ∷ ss) = insert s (ordered ss)

-- The last cell of a row: a text for this device, or the button with whether it is disabled
pub data Action : Type 0 where
  this_device : Action
  revoke_button : (id : String) → (disabled : Bool) → Action

pub record Row : Type 0 where
  pub device : String
  pub ip : String
  pub last_activity : String
  pub action : Action

pub is_revoking : Option String → String → Bool
is_revoking none id = false
is_revoking (some revoking) id = str_eq revoking id

-- What the page shows below its heading: `only_this` says "Only this device", over a table if
-- there is a session at all.
pub data Screen : Type 0 where
  skeleton load_failed : Screen
  only_this : (rows : List Row) → Screen
  rows : List Row → Screen

-- `format` is `formatActivity`, which works on a `Date`.
module _ (format : String → String) where
  pub row_of : Option String → SessionInfo → Row
  unfolding is_revoking
  row_of revoking s = record {
    device = s.device;
    ip = s.ip;
    last_activity = format s.last_activity;
    action = if s.is_current then this_device else revoke_button s.id (is_revoking revoking s.id);
  }

  -- `SessionsTable`
  pub table : Option String → List SessionInfo → List Row
  unfolding ordered row_of
  table revoking sessions = map (row_of revoking) (ordered sessions)

  -- What the page shows of its state
  pub screen_of : Option String → LoadState → Screen
  unfolding table
  screen_of revoking loading = skeleton
  screen_of revoking error = load_failed
  screen_of revoking (ready sessions) =
      if leb (length sessions) 1
      then only_this (table revoking sessions)
      else rows (table revoking sessions)

-- Whether "Log out everywhere else" can be clicked
pub can_sign_out : Sessions → Bool
can_sign_out s = elim (s.state) [
  | loading ↦ false
  | error ↦ false
  | ready sessions ↦ not s.signing_out_others
]
