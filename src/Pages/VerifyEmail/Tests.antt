-- ===== src/Pages/VerifyEmail/Tests.antt =====
-- Runs of the verify-email page.
use rust_auth_example.Base.{some, [], ◌∷◌}
use rust_auth_example.Pages.VerifyEmail.{verify, resend, initial, run}
use rust_auth_example.Pages.VerifyEmail.Laws.{AreGuarded, run-initial-AreGuarded}

run-initial-AreGuarded_example :
    AreGuarded (run (some "a@b.c") (resend ∷ resend ∷ verify "123456" ∷ []) initial)
run-initial-AreGuarded_example =
    run-initial-AreGuarded (some "a@b.c") (resend ∷ resend ∷ verify "123456" ∷ [])
