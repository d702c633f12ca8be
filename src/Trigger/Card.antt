-- ===== src/Trigger/Card.antt =====
-- apps/web/components/trigger/TriggerCard.tsx and the page of the Trigger Center,
-- app/(dashboard)/dashboard/trigger/page.tsx, cut where a card awaits its action.
pub mod Wiring
pub mod Single
pub mod Laws
mod Tests
use rust_auth_example.Base.{
  ℕ, zero, suc, ◌-◌, Bool, true, false, ◌==◌, ltb, String, Option, none, some, List, [], ◌∷◌,
  if◌then◌else◌,
}
use rust_auth_example.Http.{Outcome, resolved, rejected}
use rust_auth_example.Trigger.{TriggerResult}
use rust_auth_example.Audit.Page.{Facets, pivot_to}

-- The cards of the page
pub data Card : Type 0 where
  register_card login_card force_mfa_card rotate_card hammer_card lockout_card verify_email_card
        password_reset_card provoke_card :
      Card

pub index_of : Card → ℕ
index_of register_card = 0
index_of login_card = 1
index_of force_mfa_card = 2
index_of rotate_card = 3
index_of hammer_card = 4
index_of lockout_card = 5
index_of verify_email_card = 6
index_of password_reset_card = 7
index_of provoke_card = 8

pub is_same : Card → Card → Bool
unfolding index_of
is_same c d = index_of c == index_of d

-- The second argument of `withPivot` of each card
pub event_of : Card → Option String
event_of register_card = some "after_register"
event_of login_card = some "after_login"
event_of other = none

-- The state of a card
pub record CardState : Type 0 where
  pub result : Option TriggerResult
  pub pending : Bool

-- An action in flight, with the email that its closure captured
pub record Firing : Type 0 where
  pub card : Card
  pub email : String

pub record TriggerCenter : Type 0 where
  pub email : String
  pub facets : Facets
  pub cards : Card → CardState
  pub firings : List Firing

pub initial : Facets → TriggerCenter
initial facets = record {
  email = "demo@acme.test";
  facets = facets;
  cards = λ c. record { result = none; pending = false };
  firings = [];
}

pub data Event : Type 0 where
  type_email : String → Event
  fire : Card → Event
  settled : (index : ℕ) → Outcome TriggerResult → Event

pub update : Card → CardState → (Card → CardState) → Card → CardState
unfolding is_same
update c next cards d = if is_same c d then next else cards d

pub get_firing : List Firing → ℕ → Option Firing
get_firing [] index = none
get_firing (f ∷ fs) zero = some f
get_firing (f ∷ fs) (suc index) = get_firing fs index

pub without : ℕ → List Firing → List Firing
without index [] = []
without zero (f ∷ fs) = fs
without (suc index) (f ∷ fs) = f ∷ without index fs

-- `withPivot` after its `await`, and then `fire` after its own
pub on_settled : Outcome TriggerResult → Option Firing → TriggerCenter → TriggerCenter
unfolding update event_of
on_settled outcome none s = s
on_settled (resolved result) (some f) s = record s {
  facets = pivot_to (record { actor = some f.email; event = event_of f.card }) s.facets;
  cards = update f.card (record { result = some result; pending = false }) s.cards;
}
on_settled (rejected err) (some f) s = record s {
  cards = update f.card (record (s.cards f.card) { pending = false }) s.cards;
}

-- `fire`, up to its `await`; the button is disabled while the card is pending.
pub on_fire : Card → TriggerCenter → TriggerCenter
unfolding update
on_fire c s = if (s.cards c).pending then s else record s {
  cards = update c (record (s.cards c) { pending = true }) s.cards;
  firings = record { card = c; email = s.email } ∷ s.firings;
}

pub step : Event → TriggerCenter → TriggerCenter
unfolding on_fire on_settled get_firing without
step (type_email email) s = record s { email = email }
step (fire c) s = on_fire c s
step (settled index outcome) s =
    on_settled outcome (get_firing s.firings index) (record s { firings = without index s.firings })

pub run : List Event → TriggerCenter → TriggerCenter
run [] s = s
run (e ∷ es) s = run es (step e s)

-- The interval of `RetryCountdown` over a whole number of seconds
pub tick : ℕ → ℕ
tick remaining = if ltb 0 remaining then remaining - 1 else 0

pub countdown : (seconds ticks : ℕ) → ℕ
unfolding tick
countdown seconds zero = seconds
countdown seconds (suc ticks) = tick (countdown seconds ticks)
