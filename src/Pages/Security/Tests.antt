-- ===== src/Pages/Security/Tests.antt =====
-- Runs of the security page.
use rust_auth_example.Base.{false, none, List, [], ◌∷◌, ◌≡◌, refl}
use rust_auth_example.Json.{null}
use rust_auth_example.Http.{resolved}
use rust_auth_example.Pages.Security.{
  Event, initial, step, run, card, on_card, enroll_card, user_known, begin_enroll, setup_settled,
  verify_enable, enable_settled,
}

abbrev enrolment : List Event
enrolment = user_known false ∷ begin_enroll ∷ setup_settled (resolved null) ∷ []

abbrev enabling : List Event
enabling = user_known false ∷ verify_enable "123456" ∷ enable_settled (resolved tt) ∷ []

card_runs :
    (card false (run enrolment initial) ≡ enroll_card null)
    × (card false (run enabling initial) ≡ on_card false false none)
unfolding run initial card step
card_runs = (refl, refl)
