-- ===== src/Pages/PlatformSecurity/Tests.antt =====
-- Runs of the security page of the platform.
use rust_auth_example.Base.{false, none, some, List, [], ◌∷◌, ◌≡◌, refl, ◌⊎◌}
use rust_auth_example.Json.{null}
use rust_auth_example.Http.{other_error, resolved, rejected}
use rust_auth_example.Pages.Security.{enrolling, enroll_card, on_card, off_card}
use rust_auth_example.Pages.Security as Dashboard
use rust_auth_example.Pages.PlatformSecurity.{
  Event, me_settled, begin_enroll, setup_settled, cancel, verify_enable, enable_settled, initial,
  step, run, card,
}
use rust_auth_example.Pages.PlatformSecurity.Laws.{
  replay, run_refines, run_forgets, DisabledWhileEnrolling,
}

abbrev enrolment : List Event
enrolment = me_settled (resolved false) ∷ begin_enroll ∷ setup_settled (resolved null) ∷ []

abbrev cancelled : List Event
cancelled =
    me_settled (rejected other_error) ∷ begin_enroll ∷ setup_settled (resolved null) ∷ cancel ∷ []

abbrev enabled : List Event
enabled = me_settled (resolved false) ∷ verify_enable "123456" ∷ enable_settled (resolved tt) ∷ []

card_runs :
    (card (run enrolment initial) ≡ enroll_card null)
    × (card (run cancelled initial) ≡ off_card false)
    × (card (run enabled initial) ≡ on_card false false none)
    × ((run cancelled initial).setup ≡ none)
unfolding run initial card step
card_runs = (refl, refl, refl, refl)

run_refines_example :
    (card (run enrolment initial)
      ≡ Dashboard.card false (Dashboard.run (replay enrolment initial) Dashboard.initial))
    × ((run enrolment initial).setups
        ≡ (Dashboard.run (replay enrolment initial) Dashboard.initial).setups)
    × ((run enrolment initial).enables
        ≡ (Dashboard.run (replay enrolment initial) Dashboard.initial).enables)
    × ((run enrolment initial).disables
        ≡ (Dashboard.run (replay enrolment initial) Dashboard.initial).disables)
    × ((run enrolment initial).regenerations
        ≡ (Dashboard.run (replay enrolment initial) Dashboard.initial).regenerations)
run_refines_example = run_refines enrolment

run_forgets_example :
    ((run enrolment initial).mode ≡ some enrolling) ⊎ DisabledWhileEnrolling enrolment initial
unfolding run initial step
run_forgets_example = run_forgets enrolment refl
