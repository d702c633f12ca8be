-- ===== src/Trigger/Card/Wiring/Tests.antt =====
-- Cards that are fired with the inputs of the page.
use rust_auth_example.Base.{◌≡◌, true, none, some, String, List, [], ◌∷◌, refl}
use rust_auth_example.Json.{Number, finite, str, single}
use rust_auth_example.Http.{Response, resolved}
use rust_auth_example.Audit.Page.{Facets}
use rust_auth_example.Trigger.{TriggerResult, run_login}
use rust_auth_example.Trigger.Laws.{HidesSecrets}
use rust_auth_example.Trigger.Card.{
  Event, fire, settled, login_card, register_card, initial, run, step, on_fire, on_settled,
  get_firing, without, update, is_same, index_of,
}
use rust_auth_example.Trigger.Card.Wiring.{Answers, action, local_part, card_shown}
use rust_auth_example.Trigger.Card.Wiring.Laws.{run-HidesSecrets}

abbrev accepted : Response
accepted = record {
  is_ok = true;
  status = 200;
  status_text = "OK";
  retry_after = none;
  body = some (single "token" (str "abc"));
}

abbrev answers : Answers
answers = record {
  client = resolved (single "token" (str "abc"));
  fetched = resolved accepted;
  logins = λ i. resolved accepted;
}

abbrev sixty : String → Number
sixty header = finite 60

abbrev no_facets : Facets
no_facets = record { actor = none; event = none }

abbrev signed_in : TriggerResult
signed_in = run_login "ann" "acme" (resolved (single "token" (str "abc")))

abbrev signing_in : List Event
signing_in = fire login_card ∷ settled 0 (action finite sixty login_card "ann" "acme" answers) ∷ []

wiring_runs :
    (local_part "ann@acme.test" ≡ "ann")
    × (local_part "ann" ≡ "ann")
    × (local_part "@acme.test" ≡ "")
    × ((card_shown register_card ((initial no_facets).cards register_card)).button ≡ "Register")
    × ((card_shown login_card ((run signing_in (initial no_facets)).cards login_card)).result
        ≡ some signed_in)
unfolding local_part card_shown initial run step on_fire on_settled get_firing without update
    is_same index_of action
wiring_runs = (refl, refl, refl, refl, refl)

run-HidesSecrets_example : HidesSecrets signed_in
unfolding card_shown initial run step on_fire on_settled get_firing without update is_same index_of
    action
run-HidesSecrets_example =
    run-HidesSecrets finite sixty signing_in no_facets login_card signed_in
      (tt, ((login_card, "ann", "acme", answers, refl), tt)) refl
