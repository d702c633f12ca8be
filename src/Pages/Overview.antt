-- ===== src/Pages/Overview.antt =====
-- apps/web/app/(dashboard)/page.tsx, cut where `load` awaits the aggregate.
pub mod Tiles
pub mod Laws
mod Tests
use rust_auth_example.Base.{ℕ, zero, suc, List, [], ◌∷◌}
use rust_auth_example.Json.{Json}
use rust_auth_example.Http.{Outcome, resolved, rejected}

-- `status` of the session
pub data Status : Type 0 where
  loading_session unauthenticated authenticated : Status

-- `LoadState`; the aggregate is kept as the JSON that came.
pub data LoadState : Type 0 where
  loading error : LoadState
  ready : (aggregate : Json) → LoadState

-- The state of the page, with its loads in flight
pub record Overview : Type 0 where
  pub status : Status
  pub state : LoadState
  pub loads : ℕ

pub initial : Overview
initial = record { status = loading_session; state = loading; loads = 0 }

pub data Event : Type 0 where
  status_changed : Status → Event
  retry : Event
  load_settled : Outcome Json → Event

-- `load`, up to its `await`
pub load : Overview → Overview
load s = record s { state = loading; loads = suc s.loads }

-- The effect on `status`, which runs when it changes
pub on_status : Status → Status → Overview → Overview
unfolding load
on_status authenticated authenticated s = s
on_status old authenticated s = load (record s { status = authenticated })
on_status old next s = record s { status = next }

-- `load`, after its `await`
pub on_load_settled : Outcome Json → ℕ → Overview → Overview
on_load_settled outcome zero s = s
on_load_settled (resolved aggregate) (suc others) s = record s {
  state = ready aggregate;
  loads = others;
}
on_load_settled (rejected err) (suc others) s = record s { state = error; loads = others }

pub step : Event → Overview → Overview
unfolding on_status load on_load_settled
step (status_changed next) s = on_status s.status next s
step retry s = load s
step (load_settled outcome) s = on_load_settled outcome s.loads s

pub run : List Event → Overview → Overview
run [] s = s
run (e ∷ es) s = run es (step e s)

-- What is rendered
pub data Screen : Type 0 where
  sign_in skeleton failed : Screen
  health : (aggregate : Json) → Screen

pub screen_of : Status → LoadState → Screen
screen_of unauthenticated state = sign_in
screen_of loading_session state = skeleton
screen_of authenticated loading = skeleton
screen_of authenticated error = failed
screen_of authenticated (ready aggregate) = health aggregate

pub screen : Overview → Screen
unfolding screen_of
screen s = screen_of s.status s.state
