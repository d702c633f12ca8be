-- ===== src/Audit/Tests.antt =====
-- Runs of the audit table and of its live tail.
use rust_auth_example.Base.{
  ◌-◌, ◌≤◌, true, false, String, none, some, List, [], ◌∷◌, ◌≡◌, refl, ◌↔◌, arith, get_elem?,
}
use rust_auth_example.Json.{Json, null, str, single}
use rust_auth_example.Redact.{redacted, value_contains_secret, redact_value, redact}
use rust_auth_example.Redact.Keys.{secret_key_re}
use rust_auth_example.Redact.Laws.{Occurs, HasSecret}
use rust_auth_example.Audit.{
  AuditLogRow, filtered, start_of, window_rows, row_detail, pill_style_for_event, row_matches,
  facet_admits, find_style,
}
use rust_auth_example.Audit.Window.{window_rows-Shows}
use rust_auth_example.Audit.Drawer.{row_detail-Occurs}

-- A row that leaks a token in its details, and one of another actor.
abbrev row_of : String → String → Json → AuditLogRow
row_of actor event details = record {
  id = 1;
  actor = actor;
  event = event;
  tenant_id = none;
  ip = none;
  created_at = "2026-01-01T00:00:00Z";
  details = details;
}

abbrev leaking : AuditLogRow
leaking = row_of "ann" "after_login" (single "sessionToken" (str "abc"))

abbrev harmless : AuditLogRow
harmless = row_of "bob" "after_logout" null

abbrev both_rows : List AuditLogRow
both_rows = leaking ∷ harmless ∷ []

table_runs :
    (filtered (some "bob") none both_rows ≡ harmless ∷ [])
    × (row_detail leaking ≡ (true, single "sessionToken" (str redacted)))
    × (row_detail harmless ≡ (false, null))
unfolding filtered row_matches facet_admits row_detail value_contains_secret secret_key_re
    redact_value redact
table_runs = (refl, refl, refl)

-- Names of hooks that the API records beside sign-ins take the neutral pill.
pill_runs :
    (pill_style_for_event "after_login" ≡ "emerald")
    × (pill_style_for_event "after_login_failed" ≡ "red")
    × (pill_style_for_event "after_mfa_enabled" ≡ "neutral")
    × (pill_style_for_event "after_password_reset" ≡ "neutral")
    × (pill_style_for_event "on_new_session" ≡ "neutral")
unfolding pill_style_for_event find_style
pill_runs = (refl, refl, refl, refl, refl)

row_detail-Occurs_example :
    (((row_detail leaking).0 ≡ true) ↔ HasSecret leaking.details)
    × ((key : String) (v : Json)
        → Occurs key v (row_detail leaking).1
        → secret_key_re key ≡ true
        → v ≡ str redacted)
row_detail-Occurs_example = row_detail-Occurs leaking

window_rows-Shows_example :
    (start_of 30 ≤ 1)
    × (get_elem? (window_rows 30 both_rows) (1 - start_of 30) ≡ get_elem? both_rows 1)
window_rows-Shows_example =
    window_rows-Shows 30 1 both_rows (omega arith, omega arith) (omega arith)
