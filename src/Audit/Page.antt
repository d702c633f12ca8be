-- ===== src/Audit/Page.antt =====
-- apps/web/lib/audit-pivot.ts, and apps/web/app/(dashboard)/dashboard/audit/page.tsx over the table
-- and the tail.
pub mod Laws
mod Tests
use rust_auth_example.Base.{
  ℕ, zero, suc, Bool, true, false, not, ◌||◌, is_some, String, Option, none, some, List, [], ◌∷◌,
  ◌++◌, if◌then◌else◌,
}
use rust_auth_example.Http.{Outcome, resolved, rejected}
use rust_auth_example.Audit.{AuditLogRow, filtered}
use rust_auth_example.Audit.Tail as Tail
use rust_auth_example.Audit.Tail.{TailState}

-- The query parameters `actor` and `event` of the URL; `none` is `null`.
pub record Facets : Type 0 where
  pub actor : Option String
  pub event : Option String

-- `pivotTo`: a facet that the target leaves out is removed.
unfoldable pub pivot_to : Facets → Facets → Facets
pivot_to target old = record { actor = target.actor; event = target.event }

-- The page in a build for development, with its loads in flight
pub record AuditPage : Type 0 where
  pub facets : Facets
  pub live : Bool
  pub page_rows : List AuditLogRow
  pub load_error : Bool
  pub tail : TailState
  pub loads : ℕ

-- The first render over the URL, and the effect that loads
unfoldable pub mount : Facets → AuditPage
mount facets = record {
  facets = facets;
  live = true;
  page_rows = [];
  load_error = false;
  tail = Tail.initial true;
  loads = 1;
}

-- `clear_filters`, `toggle_live` and `retry` are the three buttons; the table calls
-- `follow_changed`, and the stream sends `streamed`.
pub data Event : Type 0 where
  clear_filters toggle_live retry : Event
  load_settled : Outcome (List AuditLogRow) → Event
  follow_changed : Bool → Event
  streamed : Option AuditLogRow → Event

-- `load`, after its `await`
pub on_load_settled : Outcome (List AuditLogRow) → ℕ → AuditPage → AuditPage
on_load_settled outcome zero s = s
on_load_settled (resolved rows) (suc others) s = record s { page_rows = rows; loads = others }
on_load_settled (rejected err) (suc others) s = record s { load_error = true; loads = others }

-- The effect of the tail on `live` follows the toggle.
unfoldable pub step : Event → AuditPage → AuditPage
unfolding pivot_to on_load_settled
step clear_filters s = record s {
  facets = pivot_to (record { actor = none; event = none }) s.facets;
}
step toggle_live s = record s {
  live = not s.live;
  tail = Tail.step (Tail.set_enabled (not s.live)) s.tail;
}
step retry s = record s { load_error = false; loads = suc s.loads }
step (load_settled outcome) s = on_load_settled outcome s.loads s
step (follow_changed next) s = record s { tail = Tail.step (Tail.set_following next) s.tail }
step (streamed item) s = record s { tail = Tail.step (Tail.message item) s.tail }

unfoldable pub run : List Event → AuditPage → AuditPage
run [] s = s
run (e ∷ es) s = run es (step e s)

-- `rows`
pub rows : AuditPage → List AuditLogRow
rows s = s.page_rows ++ s.tail.rows

-- The rows of the table, which reads the same facets
pub table_rows : AuditPage → List AuditLogRow
unfolding rows
table_rows s = filtered s.facets.actor s.facets.event (rows s)

-- `hasFacet`: whether the button that clears the filters is there.
pub has_facet : AuditPage → Bool
has_facet s = is_some s.facets.actor || is_some s.facets.event
