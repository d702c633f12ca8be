-- ===== src/Pages/PlatformLogin/Tests.antt =====
-- Runs of the platform login page.
use rust_auth_example.Base.{some, [], ◌∷◌, ◌≡◌, refl}
use rust_auth_example.Http.{resolved}
use rust_auth_example.Pages.PlatformLogin.{
  Form, login, login_settled, complete_code, initial, step, run,
}

abbrev ready : Form
ready = record initial { mfa_temp_token = some "token"; pending_mfa_code = some "123456" }

run-ready :
    run
      (login "a@b.c" "pass" ∷ login_settled (resolved (some "token")) ∷ complete_code "123456" ∷ [])
      initial
    ≡ ready
unfolding run step initial
run-ready = refl
