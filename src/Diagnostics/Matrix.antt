-- ===== src/Diagnostics/Matrix.antt =====
-- The one-shot cards of apps/web/components/account/DiagnosticsMatrix.tsx.
use rust_auth_example.Base.{ℕ, zero, suc, Option, none, some, List, [], ◌∷◌}
use rust_auth_example.Json.{Json, num, str, arr, obj, Elems, nil, cons, Number, lookup, single}
use rust_auth_example.Http.{get, post, Request, Outcome, resolved, rejected}

-- `ActionState`
pub data ActionState : Type 0 where
  idle busy error : ActionState
  ok : Json → ActionState

-- A card, with the number of its calls in flight
pub record Action : Type 0 where
  pub state : ActionState
  pub calls : ℕ

pub data Event : Type 0 where
  fire : Event
  settled : Outcome Json → Event

-- `fire`, after its `await`
unfoldable pub state_of : Outcome Json → ActionState
state_of (resolved value) = ok value
state_of (rejected err) = error

-- The button is disabled while the card is busy.
unfoldable pub on_fire : ActionState → Action → Action
on_fire busy a = a
on_fire other a = record { state = busy; calls = suc a.calls }

unfoldable pub on_settled : Outcome Json → ℕ → Action → Action
unfolding state_of
on_settled outcome zero a = a
on_settled outcome (suc others) a = record { state = state_of outcome; calls = others }

unfoldable pub step : Event → Action → Action
unfolding on_fire on_settled
step fire a = on_fire a.state a
step (settled outcome) a = on_settled outcome a.calls a

unfoldable pub run : List Event → Action → Action
run [] a = a
run (e ∷ es) a = run es (step e a)

unfoldable pub initial : Action
initial = record { state = idle; calls = 0 }

-- The requests of the three cards, with `SAMPLE_LEGACY_PHC` and `LOCKOUT_DEMO_IDENTIFIER`
unfoldable pub hash_strength_request : Request
hash_strength_request = record {
  path = "/diagnostics/hash-strength";
  method = post;
  body = some (single "phc" (str "scrypt:00112233:44556677"));
}

unfoldable pub force_lockout_request : Request
force_lockout_request = record {
  path = "/diagnostics/force-lockout";
  method = post;
  body = some (single "identifier" (str "lockout-demo@example.test"));
}

unfoldable pub hooks_request : Request
hooks_request = record { path = "/diagnostics/hooks"; method = get; body = none }

-- `Array.length`
pub elems_length : Elems → ℕ
elems_length nil = 0
elems_length (cons v vs) = suc (elems_length vs)

-- What `hookCount` returns: a length, or a number of the payload
pub data Count : Type 0 where
  of_length : ℕ → Count
  of_number : Number → Count

-- `hookCount`
pub count_field : Option Json → Count
count_field (some (num n)) = of_number n
count_field other = of_length 0

unfoldable pub hook_count : Json → Count
unfolding elems_length count_field lookup
hook_count (arr vs) = of_length (elems_length vs)
hook_count (obj fs) = count_field (lookup "count" fs)
hook_count other = of_length 0
