-- ===== src/Trigger/Card/Tests.antt =====
-- Cards that are fired, and the audit page behind them.
use rust_auth_example.Base.{false, none, some, List, [], ◌∷◌, ◌≡◌, ◌↔◌, ◌⊎◌, refl}
use mathlib.Core.List.{Memᴰ}
use rust_auth_example.Json.{null}
use rust_auth_example.Http.{resolved}
use rust_auth_example.Audit.{AuditLogRow}
use rust_auth_example.Audit.Page.{Facets, mount, table_rows}
use rust_auth_example.Trigger.{TriggerResult}
use rust_auth_example.Trigger.Card.{
  Event, TriggerCenter, type_email, fire, settled, login_card, initial, step, run, countdown,
}
use rust_auth_example.Trigger.Card.Laws.{IsAudited, settled_pivots}

abbrev no_facets : Facets
no_facets = record { actor = none; event = none }

abbrev shown : TriggerResult
shown = record {
  request = null;
  response = null;
  code = none;
  status = none;
  retry_after_seconds = none;
}

-- The email changes while the login is in flight.
abbrev firing : List Event
firing = type_email "ann" ∷ fire login_card ∷ fire login_card ∷ type_email "bob" ∷ []

abbrev fired : TriggerCenter
fired = run firing (initial no_facets)

abbrev by_ann : AuditLogRow
by_ann = record {
  id = 1;
  actor = "ann";
  event = "after_login";
  tenant_id = none;
  ip = none;
  created_at = "2026-01-01T00:00:00Z";
  details = null;
}

countdown_runs : (countdown 3 2 ≡ 1) × (countdown 3 5 ≡ 0)
unfolding countdown
countdown_runs = (refl, refl)

settled_pivots_example :
    (Memᴰ by_ann (table_rows (mount (step (settled 0 (resolved shown)) fired).facets)) ↔ (
      (Memᴰ by_ann (mount (step (settled 0 (resolved shown)) fired).facets).page_rows
        ⊎ Memᴰ by_ann (mount (step (settled 0 (resolved shown)) fired).facets).tail.rows)
      × (by_ann.actor ≡ "ann")
      × IsAudited login_card by_ann))
    × ((step (settled 0 (resolved shown)) fired).cards login_card
        ≡ record { result = some shown; pending = false })
unfolding run step initial mount
settled_pivots_example =
    settled_pivots no_facets (type_email "ann" ∷ []) login_card
      (fire login_card ∷ type_email "bob" ∷ []) 0 (record { card = login_card; email = "ann" })
      shown by_ann (mount (step (settled 0 (resolved shown)) fired).facets) refl (refl, (refl, tt))
      refl refl refl
