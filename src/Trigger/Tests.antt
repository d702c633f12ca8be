-- ===== src/Trigger/Tests.antt =====
-- Runs of the actions of the Trigger Center.
use rust_auth_example.Base.{
  ℕ, ◌<◌, true, false, String, none, some, ◌≡◌, refl, arith, ltb, if◌then◌else◌,
}
use rust_auth_example.Json.{Number, finite, str, single}
use rust_auth_example.Http.{Response, Outcome, resolved}
use rust_auth_example.Trigger.{TriggerResult, hammer_login}
use rust_auth_example.Trigger.Hammer.{
  GoesOn, answered_at, hammer_login_stops, hammer_login_exhausts,
}

abbrev accepted : Response
accepted = record {
  is_ok = true;
  status = 200;
  status_text = "OK";
  retry_after = none;
  body = some (single "token" (str "abc"));
}

abbrev limit : Response
limit = record {
  is_ok = false;
  status = 429;
  status_text = "";
  retry_after = some "60";
  body = none;
}

-- Two logins are answered, the third is one too many.
abbrev answers : ℕ → Outcome Response
answers i = if ltb i 2 then resolved accepted else resolved limit

abbrev sixty : String → Number
sixty header = finite 60

-- In these runs a number stands for itself.
hammer_run :
    (r : TriggerResult) × (hammer_login finite sixty "a@b.c" "acme" 7 answers ≡ resolved r)
    × (r.status ≡ some 429)
    × (r.retry_after_seconds ≡ some (finite 60))
unfolding hammer_login
hammer_run = (_, refl, refl, refl)

answers-GoesOn : (j : ℕ) → j < 2 → GoesOn finite sixty (answers j)
answers-GoesOn j h = (accepted, ground arith, refl, omega arith)

hammer_login_stops_example :
    (r : TriggerResult) × (hammer_login finite sixty "a@b.c" "acme" 7 answers ≡ resolved r)
    × (r.status ≡ some 429)
hammer_login_stops_example =
    hammer_login_stops finite sixty "a@b.c" "acme" answers 2 4 limit answers-GoesOn refl refl

hammer_login_exhausts_example :
    ((r : TriggerResult) × (hammer_login finite sixty "a@b.c" "acme" 2 answers ≡ resolved r)
      × (r.status ≡ some 200)
      × (r.code ≡ none)
      × (r.retry_after_seconds ≡ none))
    × ((k : ℕ) (res : Response)
        → k < 2
        → res.is_ok ≡ false
        → (r : TriggerResult) × (hammer_login finite sixty "a@b.c" "acme" 2
              (answered_at finite sixty k res answers)
            ≡ resolved r)
          × (r.status ≡ some res.status))
hammer_login_exhausts_example =
    hammer_login_exhausts finite sixty "a@b.c" "acme" answers 2 answers-GoesOn
