-- ===== src/Audit/Page/Tests.antt =====
-- The audit page over a short log.
use rust_auth_example.Base.{true, false, none, some, List, [], ◌∷◌, ◌≡◌, refl}
use rust_auth_example.Json.{null}
use rust_auth_example.Http.{resolved}
use rust_auth_example.Audit.{AuditLogRow}
use rust_auth_example.Audit.Tail as Tail
use rust_auth_example.Audit.Page.{
  Facets, Event, clear_filters, toggle_live, load_settled, streamed, mount, step, run, rows,
  has_facet,
}

abbrev by_ann : AuditLogRow
by_ann = record {
  id = 1;
  actor = "ann";
  event = "after_login";
  tenant_id = none;
  ip = none;
  created_at = "2026-01-01T00:00:00Z";
  details = null;
}

abbrev by_bob : AuditLogRow
by_bob = record by_ann { actor = "bob"; event = "after_logout" }

abbrev of_ann : Facets
of_ann = record { actor = some "ann"; event = none }

abbrev visit : List Event
visit =
    load_settled (resolved (by_ann ∷ by_bob ∷ []))
    ∷ streamed (some by_ann)
    ∷ toggle_live
    ∷ streamed (some by_bob)
    ∷ []

page_runs :
    (rows (run visit (mount of_ann)) ≡ by_ann ∷ by_bob ∷ by_ann ∷ [])
    × (has_facet (run visit (mount of_ann)) ≡ true)
    × (has_facet (step clear_filters (run visit (mount of_ann))) ≡ false)
unfolding run step mount rows has_facet Tail.step Tail.initial
page_runs = (refl, refl, refl)
