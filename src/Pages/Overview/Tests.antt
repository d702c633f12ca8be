-- ===== src/Pages/Overview/Tests.antt =====
-- Runs of the overview.
use rust_auth_example.Base.{◌<◌, false, map, List, [], ◌∷◌, ◌≡◌, ◌≢◌, refl}
use rust_auth_example.Json.{null, finite}
use rust_auth_example.Http.{resolved}
use rust_auth_example.Pages.Overview.{
  Event, status_changed, load_settled, authenticated, initial, step, run, screen, skeleton, health,
}
use rust_auth_example.Pages.Overview.Tiles.{
  AuditAggregate, health_cards, pct, provider_chips, google_chip,
}
use rust_auth_example.Pages.Overview.Laws.{run-initial_waits}

abbrev signed_in : List Event
signed_in = status_changed authenticated ∷ []

overview_runs : screen (step (load_settled (resolved null)) (run signed_in initial)) ≡ health null
unfolding screen step run initial
overview_runs = refl

run-initial_waits_example :
    (0 < (run signed_in initial).loads)
    × (screen (step (load_settled (resolved null)) (run signed_in initial)) ≢ skeleton)
unfolding screen step run initial
run-initial_waits_example = run-initial_waits signed_in (resolved null) refl refl

abbrev aggregate : AuditAggregate
aggregate = record {
  login_success_rate = finite 0;
  verify_success_rate = finite 0;
  active_sessions = finite 0;
  mfa_enrolled_share = finite 0;
  email_provider = "mailpit";
  oauth_google_enabled = false;
}

-- In this run each number is nought.
tiles_runs :
    (map (λ c. c.value) (health_cards (λ n. "0") (λ n. "0") aggregate)
      ≡ "0%" ∷ "0%" ∷ "0" ∷ "0%" ∷ [])
    × (map (λ c. c.text) (provider_chips aggregate.email_provider aggregate.oauth_google_enabled)
        ≡ "mailpit" ∷ "off" ∷ [])
unfolding health_cards pct provider_chips google_chip
tiles_runs = (refl, refl)
