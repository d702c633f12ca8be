-- ===== src/Alerts/Tests.antt =====
-- Runs of the hook.
use rust_auth_example.Base.{◌≤◌, some, List, [], ◌∷◌, ◌≡◌, refl, if◌then◌else◌}
use rust_auth_example.Json.{str, obj, end, field, lookup}
use rust_auth_example.Http.{resolved}
use rust_auth_example.Alerts.{Event, rerun, ticket_settled, message, mount, step, run, is_open}
use rust_auth_example.Alerts.Laws.{open_count, run-mount_open}

-- The first ticket arrives after the effect ran again, the second in time.
abbrev late : List Event
late =
    rerun
    ∷ ticket_settled 1 (resolved "t1")
    ∷ ticket_settled 0 (resolved "t2")
    ∷ message 0 (some (obj (field "event" (str "on_new_session") (field "ip" (str "::1") end))))
    ∷ []

late_runs :
    (open_count (run late mount).connections ≡ 1) × ((run late mount).alerts ≡ str "::1" ∷ [])
unfolding run step mount is_open lookup
late_runs = (refl, refl)

run-mount_open_example :
    open_count (run late mount).connections ≤ (if (run late mount).is_mounted then 1 else 0)
run-mount_open_example = run-mount_open late
