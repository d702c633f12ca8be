-- ===== src/Audit.antt =====
-- apps/web/components/audit/AuditTable.tsx: facets, windowing, the drawer and the pills of the audit
-- table. Pixel positions are naturals.
pub mod Facets
pub mod Window
pub mod Drawer
pub mod Tail
pub mod Page
mod Tests
use rust_auth_example.Base.{
  ℕ, ◌+◌, ◌-◌, ◌*◌, ◌/◌, Bool, true, false, not, ◌&&◌, ◌||◌, String, Option, none, some, List, [],
  ◌∷◌, length, take, drop, min, leb, ltb, str_eq, starts_with, if◌then◌else◌,
}
use rust_auth_example.Json.{Json}
use rust_auth_example.Redact.{redact_value, value_contains_secret}

-- `AuditLogRow` of apps/web/lib/audit-api.ts
pub record AuditLogRow : Type 0 where
  pub id : ℕ
  pub actor : String
  pub event : String
  pub tenant_id : Option String
  pub ip : Option String
  pub created_at : String
  pub details : Json

-- `ROW_H`, `VIEWPORT`, `OVERSCAN`
abbrev pub row_h : ℕ
row_h = 44

abbrev pub viewport : ℕ
viewport = 440

abbrev pub overscan : ℕ
overscan = 4

-- `facet === null || value === facet`
pub facet_admits : Option String → String → Bool
facet_admits none value = true
facet_admits (some facet) value = str_eq value facet

pub row_matches : Option String → Option String → AuditLogRow → Bool
row_matches actor event row = facet_admits actor row.actor && facet_admits event row.event

-- `filtered`
pub filtered : Option String → Option String → List AuditLogRow → List AuditLogRow
filtered actor event [] = []
filtered actor event (row ∷ rows) =
    if row_matches actor event row
    then row ∷ filtered actor event rows
    else filtered actor event rows

-- `maxTop`: below the viewport's height the difference is negative, and its maximum with 0 is 0.
pub max_top : ℕ → ℕ
max_top count = count * row_h - viewport

-- `effectiveTop`
pub effective_top : Bool → ℕ → ℕ → ℕ
effective_top following scroll_top count = if following then max_top count else scroll_top

-- `start`, `windowCount`, `end`, for a table of `count` filtered rows
pub start_of : ℕ → ℕ
start_of top = top / row_h - overscan

pub window_count : ℕ
window_count = (viewport + row_h - 1) / row_h + overscan * 2

pub end_of : ℕ → ℕ → ℕ
end_of count top = min count (start_of top + window_count)

-- `windowRows`
pub window_rows {ℓ} : {A : Type ℓ} → ℕ → List A → List A
window_rows top rows = take (end_of (length rows) top - start_of top) (drop (start_of top) rows)

-- `handleScroll`: the new `scrollTop`, and what `onFollowChange` is called with. The comparison
-- `top >= maxTop - ROW_H` is that of integers.
pub handle_scroll : ℕ → ℕ → ℕ × Bool
handle_scroll count top = (top, leb (max_top count) (top + row_h))

-- `RowDetail`: whether the warning badge stands there, and the details that are shown.
pub row_detail : AuditLogRow → Bool × Json
row_detail row =
    let leaked = value_contains_secret row.details in
    (leaked, if leaked then redact_value row.details else row.details)

-- `PREFIX_STYLES`, each class list by the colour that it names
abbrev pub prefix_styles : List (String × String)
prefix_styles =
    ("after_login_failed", "red")
    ∷ ("after_login", "emerald")
    ∷ ("after_logout", "sky")
    ∷ ("after_register", "violet")
    ∷ ("mfa", "orange")
    ∷ ("password", "amber")
    ∷ ("session", "blue")
    ∷ ("invitation", "fuchsia")
    ∷ ("email", "cyan")
    ∷ []

-- `PREFIX_STYLES.find(…)?.className ?? DEFAULT_PILL_STYLE`
pub find_style : List (String × String) → String → String
find_style [] event = "neutral"
find_style ((prefix, style) ∷ styles) event =
    if starts_with event prefix then style else find_style styles event

-- `pillStyleForEvent`
pub pill_style_for_event : String → String
unfolding find_style
pill_style_for_event event = find_style prefix_styles event
