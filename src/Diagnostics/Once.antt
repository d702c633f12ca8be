-- ===== src/Diagnostics/Once.antt =====
-- The cards of the matrix make one call at a time.
use rust_auth_example.Base.{List, [], ◌∷◌, ◌≡◌, ◌≢◌, ◌⊎◌, arith}
use rust_auth_example.Http.{resolved, rejected}
use rust_auth_example.Diagnostics.Matrix.{
  busy, Action, Event, fire, settled, state_of, on_fire, on_settled, step, run, initial,
}

-- One call is in flight while the card is busy, and none otherwise.
abbrev IsSingle : Action → Type 0
IsSingle a = ((a.state ≡ busy) × (a.calls ≡ 1)) ⊎ ((a.state ≢ busy) × (a.calls ≡ 0))

step-IsSingle : (e : Event) (a : Action) → IsSingle a → IsSingle (step e a)
unfolding step on_fire on_settled state_of
step-IsSingle fire a h = ground arith
step-IsSingle (settled (resolved value)) a h = ground arith
step-IsSingle (settled (rejected err)) a h = ground arith

run-IsSingle : (es : List Event) (a : Action) → IsSingle a → IsSingle (run es a)
unfolding run
run-IsSingle [] a h = h
run-IsSingle (e ∷ es) a h = run-IsSingle es (step e a) (step-IsSingle e a h)

-- Over any clicks and answers, one call is in flight while the card is busy, and none otherwise.
pub run-initial-IsSingle :
    (es : List Event)
    → (((run es initial).state ≡ busy) × ((run es initial).calls ≡ 1))
      ⊎ (((run es initial).state ≢ busy) × ((run es initial).calls ≡ 0))
unfolding initial
run-initial-IsSingle es = run-IsSingle es initial (ground arith)
