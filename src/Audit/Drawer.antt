-- ===== src/Audit/Drawer.antt =====
-- What the detail drawer shows.
use rust_auth_example.Base.{true, String, ◌≡◌, ◌↔◌, inl, inr, Bool-cases}
use rust_auth_example.Json.{Json, str}
use rust_auth_example.Redact.{redacted, value_contains_secret}
use rust_auth_example.Redact.Keys.{secret_key_re}
use rust_auth_example.Redact.Laws.{
  Occurs, HasSecret, value_contains_secret_iff, redact_value-Occurs, no_secret-Occurs,
}
use rust_auth_example.Audit.{AuditLogRow, row_detail}

-- The details are redacted if they have a secret, and have none if they are not.
shown-Occurs :
    (row : AuditLogRow) (key : String) (v : Json)
    → Occurs key v (row_detail row).1
    → secret_key_re key ≡ true
    → v ≡ str redacted
unfolding row_detail
shown-Occurs row key v o s = elim (Bool-cases (value_contains_secret row.details)) [
  | inl leaked ↦ redact_value-Occurs key v row.details (rw leaked at o) s
  | inr plain ↦ absurd (no_secret-Occurs key v row.details plain s (rw plain at o))
]

-- Whatever the backend sent, in the details that the drawer shows every field whose key matches
-- `SECRET_KEY_RE`, at whatever depth, holds the redaction marker; and the warning badge stands there
-- exactly if the row has such a field.
pub row_detail-Occurs :
    (row : AuditLogRow)
    → (((row_detail row).0 ≡ true) ↔ HasSecret row.details)
      × ((key : String) (v : Json)
          → Occurs key v (row_detail row).1
          → secret_key_re key ≡ true
          → v ≡ str redacted)
unfolding row_detail
row_detail-Occurs row = (value_contains_secret_iff row.details, shown-Occurs row)
