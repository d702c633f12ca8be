-- ===== src/Pages/PlatformSessions/Tests.antt =====
-- Runs of the sessions page of the platform.
use rust_auth_example.Base.{true, List, [], ◌∷◌, ◌≡◌, refl}
use rust_auth_example.Json.{null}
use rust_auth_example.Http.{resolved}
use rust_auth_example.Pages.{push}
use rust_auth_example.Pages.PlatformSessions.{
  Event, me_settled, revoke_all, revoke_settled, ready, initial, step, run,
}
use rust_auth_example.Pages.PlatformSessions.Screen.{admin, panel_of, screen}

abbrev revoking : List Event
revoking = me_settled (resolved null) ∷ revoke_all ∷ revoke_all ∷ []

page_runs :
    ((run revoking initial).state ≡ ready null)
    × ((step (revoke_settled (resolved tt)) (run revoking initial)).navigations
        ≡ push "/platform/login" ∷ [])
unfolding run step initial
page_runs = (refl, refl)

screen_runs : (screen (run revoking initial)).1 ≡ admin null "Revoking…" "Revoking…" true
unfolding screen panel_of run step initial
screen_runs = refl
