-- ===== src/Pages/ForgotPassword/Tests.antt =====
-- Runs of the forgot-password page.
use rust_auth_example.Base.{false, none, some, [], ◌∷◌, ◌≡◌, refl, map, inl}
use rust_auth_example.Json.{Json, null, str, single, lookup}
use rust_auth_example.Http.{Response, AuthClientError, auth_error, resolved, rejected}
use rust_auth_example.Pages.{push}
use rust_auth_example.Pages.ForgotPassword.{
  Forgot, submit_email, email_settled, complete_otp, verify_settled, initial, verified_token, step,
  run,
}
use rust_auth_example.Pages.ForgotPassword.Screen.{otp_form, screen_of, screen}
use rust_auth_example.Pages.Forms.Laws.{submit_form}
use rust_auth_example.Pages.Forms.Flow.{ResetsWith, verified_resets}
use rust_auth_example.Pages.ForgotPassword.Laws.{blind, run-blind}

abbrev refused : Response
refused = record {
  is_ok = false;
  status = 401;
  status_text = "Unauthorized";
  retry_after = none;
  body = some null;
}

abbrev refusal : AuthClientError
refusal = record { message = "No."; status = 401; code = some "auth.refused"; json = null }

abbrev verifying : Forgot
verifying = step (complete_otp "123456") (initial none)

abbrev verified : Json
verified = single "verifiedToken" (str "token")

run-blind_example :
    run
      (map blind (submit_email ∷ email_settled (rejected (auth_error refusal)) ∷ []))
      (initial none)
    ≡ run (submit_email ∷ email_settled (rejected (auth_error refusal)) ∷ []) (initial none)
run-blind_example =
    run-blind (submit_email ∷ email_settled (rejected (auth_error refusal)) ∷ []) (initial none)

verified_resets_example :
    ((step
        (verify_settled (resolved (record refused { body = some verified })))
        verifying).navigations
      ≡ push "/auth/reset-password" ∷ [])
    × ResetsWith "token" "globex"
        (submit_form "a@b.c" "one" ∷ submit_form "a@b.c" "two" ∷ [])
        (step (verify_settled (resolved (record refused { body = some verified }))) verifying).slot
unfolding step initial verified_token lookup
verified_resets_example =
    verified_resets (record refused { body = some verified }) verified "token" "globex" verifying
      (submit_form "a@b.c" "one" ∷ submit_form "a@b.c" "two" ∷ []) (inl (refl, refl)) refl refl refl

-- After a refusal the page says that the code was sent, as it does after a success.
screen_runs :
    screen (run (submit_email ∷ email_settled (rejected (auth_error refusal)) ∷ []) (initial none))
    ≡ otp_form none ""
unfolding screen screen_of run step initial
screen_runs = refl
