-- ===== src/Pages/MfaChallenge/Tests.antt =====
-- Runs of the MFA-challenge page.
use rust_auth_example.Base.{false, none, some, [], ◌∷◌, ◌≡◌, refl}
use rust_auth_example.Json.{null}
use rust_auth_example.Http.{Response, AuthClientError, auth_error, resolved, rejected, code_of}
use rust_auth_example.Pages.{replace}
use rust_auth_example.Pages.MfaChallenge.{
  submit, challenge_settled, refresh_settled, mount, step, run, screen, code_form, session_expired,
}
use rust_auth_example.Pages.MfaChallenge.Laws.{IsGuarded, run-mount-IsGuarded}
use rust_auth_example.Pages.Stores.{consume_pending_mfa_challenge}

abbrev refused : Response
refused = record {
  is_ok = false;
  status = 401;
  status_text = "Unauthorized";
  retry_after = none;
  body = some null;
}

abbrev refusal : AuthClientError
refusal = record { message = "No."; status = 401; code = some "auth.refused"; json = null }

challenge_runs :
    ((run
        (submit "1" ∷ challenge_settled (resolved tt) ∷ refresh_settled (resolved tt) ∷ [])
        (mount (some "token")).0).navigations
      ≡ replace "/dashboard" ∷ [])
    × (screen (
          run
            (submit "1" ∷ challenge_settled (rejected (auth_error refusal)) ∷ [])
            (mount (some "token")).0)
        ≡ code_form (some "auth.refused") false)
    × (screen (mount none).0 ≡ session_expired)
unfolding run step mount consume_pending_mfa_challenge screen code_of
challenge_runs = (refl, refl, refl)

run-mount-IsGuarded_example :
    IsGuarded (some "token") (run (submit "1" ∷ submit "2" ∷ []) (mount (some "token")).0)
    × ((mount (some "token")).1 ≡ none)
run-mount-IsGuarded_example = run-mount-IsGuarded (some "token") (submit "1" ∷ submit "2" ∷ [])
