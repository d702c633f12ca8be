-- ===== src/Pages/Login/Tests.antt =====
-- Runs of the login page.
use rust_auth_example.Base.{true, none, some, [], ◌∷◌, ◌≡◌, refl, All}
use rust_auth_example.Http.{resolved}
use rust_auth_example.Pages.{push}
use rust_auth_example.Pages.Login.{LoginResult, Login, submit, settled, initial, challenge_of, step}
use rust_auth_example.Pages.Login.Flow.{settled_challenges}
use rust_auth_example.Pages.MfaChallenge as Mfa

abbrev signing_in : Login
signing_in = step submit (initial "acme" none)

abbrev asking : LoginResult
asking = record { mfa_temp_token = some "token"; mfa_required = true }

abbrev asked : Login
asked = step (settled (resolved asking)) signing_in

settled_challenges_example :
    (asked.navigations ≡ push "/auth/mfa-challenge" ∷ [])
    × All
        (λ q. some (q.0) ≡ some "token")
        (Mfa.run (Mfa.submit "1" ∷ Mfa.submit "2" ∷ []) (Mfa.mount asked.slot).0).sent
    × (Mfa.screen (Mfa.mount (Mfa.mount asked.slot).1).0 ≡ Mfa.session_expired)
unfolding initial step challenge_of
settled_challenges_example =
    settled_challenges asking "token" 0 signing_in (Mfa.submit "1" ∷ Mfa.submit "2" ∷ []) refl refl
