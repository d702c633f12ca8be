-- ===== src/Mfa/Copy/Tests.antt =====
-- Runs of the copy button.
use rust_auth_example.Base.{ℕ, List, [], ◌∷◌, ◌≡◌, refl}
use rust_auth_example.Http.{resolved, rejected, other_error}
use rust_auth_example.Mfa.Copy.{
  Event, copy, write_settled, timer_fired, initial, step, run, label, copied_label, copy_label,
}
use rust_auth_example.Mfa.Copy.Laws.{run-initial_reverts}

abbrev twice : List Event
twice = copy ∷ copy ∷ write_settled (resolved tt) ∷ write_settled (rejected other_error) ∷ []

twice_runs : (label (run twice initial) ≡ copied_label) × ((run twice initial).timers ≡ 1 ∷ [])
unfolding run initial step label
twice_runs = (refl, refl)

run-initial_reverts_example :
    (id : ℕ) × ((run twice initial).timers ≡ id ∷ [])
    × (label (step (timer_fired id) (run twice initial)) ≡ copy_label)
    × ((step (timer_fired id) (run twice initial)).timers ≡ [])
unfolding run initial step label
run-initial_reverts_example = run-initial_reverts twice refl (λ e. cc)
