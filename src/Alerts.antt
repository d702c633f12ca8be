-- ===== src/Alerts.antt =====
-- apps/web/hooks/use-new-session-alerts.ts: a socket for each run of the effect, cut where `connect`
-- awaits its ticket.
pub mod Laws
mod Tests
use rust_auth_example.Base.{
  ℕ, zero, suc, Bool, true, false, String, Option, none, some, List, [], ◌∷◌, ◌++◌, map, str_eq,
  if◌then◌else◌,
}
use rust_auth_example.Json.{Json, null, str, obj, Fields, lookup}
use rust_auth_example.Http.{Outcome, resolved, rejected}

-- How far `connect` of one run of the effect has come. `ended` is also a `connect` that has returned
-- without a socket.
pub data Phase : Type 0 where
  minting opened ended : Phase

-- The variables of one run of the effect
pub record Connection : Type 0 where
  pub phase : Phase
  pub cancelled : Bool

-- The runs of the effect, the newest first, whether the component is mounted, and the values that
-- `onAlert` was called with
pub record Alerts : Type 0 where
  pub connections : List Connection
  pub is_mounted : Bool
  pub alerts : List Json

abbrev pub connecting : Connection
connecting = record { phase = minting; cancelled = false }

pub mount : Alerts
mount = record { connections = connecting ∷ []; is_mounted = true; alerts = [] }

-- `rerun` is a render with another `onAlert`.
pub data Event : Type 0 where
  rerun unmount : Event
  ticket_settled : (index : ℕ) → Outcome String → Event
  message : (index : ℕ) → (data_of_event : Option Json) → Event

-- `socket?.close()`
pub close : Phase → Phase
close opened = ended
close other = other

-- The cleanup of the effect
pub clean_up : Connection → Connection
unfolding close
clean_up c = record { phase = close c.phase; cancelled = true }

-- `connect`, after its `await`
pub on_ticket : Outcome String → Connection → Connection
on_ticket (resolved ticket) c = record c {
  phase = elim (c.phase) [ minting ↦ if c.cancelled then ended else opened | other ↦ other ];
}
on_ticket (rejected err) c = record c { phase = elim (c.phase) [ minting ↦ ended | other ↦ other ] }

pub settle_at : ℕ → Outcome String → List Connection → List Connection
unfolding on_ticket
settle_at index outcome [] = []
settle_at zero outcome (c ∷ cs) = on_ticket outcome c ∷ cs
settle_at (suc index) outcome (c ∷ cs) = c ∷ settle_at index outcome cs

pub is_open : Phase → Bool
is_open opened = true
is_open other = false

-- Whether the socket of a run is there to receive
pub is_open_at : ℕ → List Connection → Bool
unfolding is_open
is_open_at index [] = false
is_open_at zero (c ∷ cs) = is_open c.phase
is_open_at (suc index) (c ∷ cs) = is_open_at index cs

-- `frame.ip ?? 'unknown'`
pub ip_of : Option Json → Json
ip_of none = str "unknown"
ip_of (some null) = str "unknown"
ip_of (some ip) = ip

pub frame_of : Option Json → Option Json → List Json
unfolding ip_of
frame_of (some (str event)) ip = if str_eq event "on_new_session" then ip_of ip ∷ [] else []
frame_of other ip = []

-- `handleMessage`: what `onAlert` is called with. Malformed data and `null` throw, and are ignored.
pub alerts_of : Option Json → List Json
unfolding frame_of lookup
alerts_of (some (obj fs)) = frame_of (lookup "event" fs) (lookup "ip" fs)
alerts_of other = []

pub step : Event → Alerts → Alerts
unfolding clean_up settle_at is_open_at alerts_of
step rerun s =
    if s.is_mounted then record s { connections = connecting ∷ map clean_up s.connections } else s
step unmount s = record s { connections = map clean_up s.connections; is_mounted = false }
step (ticket_settled index outcome) s = record s {
  connections = settle_at index outcome s.connections;
}
step (message index frame) s =
    if is_open_at index s.connections then record s { alerts = s.alerts ++ alerts_of frame } else s

pub run : List Event → Alerts → Alerts
run [] s = s
run (e ∷ es) s = run es (step e s)
