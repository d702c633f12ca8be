-- ===== src/Shell.antt =====
-- apps/web/components/shell/Sidebar.tsx, and the navigation and the sign-out of
-- components/platform/PlatformShell.tsx.
pub mod Badge
pub mod Frame
pub mod Laws
mod Tests
use rust_auth_example.Base.{
  Bool, true, false, not, ◌||◌, String, Option, none, some, List, [], ◌∷◌, map, has, str_eq,
  starts_with, if◌then◌else◌,
}
use rust_auth_example.Http.{Outcome, resolved, rejected}
use rust_auth_example.Pages.{Navigation, push}

-- `NavItem`, without its icon
pub record NavItem : Type 0 where
  pub href : String
  pub label : String
  pub exact : Bool
  pub admin_only : Bool

abbrev nav : String → String → NavItem
nav href label = record { href = href; label = label; exact = false; admin_only = false }

-- `DASHBOARD_NAV`
abbrev pub overview : NavItem
overview = record { href = "/"; label = "Overview"; exact = true; admin_only = false }

abbrev pub dashboard_nav : List NavItem
dashboard_nav =
    overview
    ∷ nav "/dashboard/trigger" "Trigger Center"
    ∷ nav "/dashboard/security" "Security"
    ∷ nav "/dashboard/sessions" "Sessions"
    ∷ nav "/dashboard/oauth" "OAuth"
    ∷ record (nav "/dashboard/invitations" "Invitations") { admin_only = true }
    ∷ record (nav "/dashboard/audit" "Audit log") { admin_only = true }
    ∷ nav "/dashboard/account" "Account"
    ∷ []

-- `PLATFORM_NAV` of the sidebar
abbrev pub platform_nav : List NavItem
platform_nav = nav "/platform/tenants" "Tenants" ∷ nav "/platform/users" "Users" ∷ []

-- `ADMIN_ROLES`
abbrev pub admin_roles : List String
admin_roles = "admin" ∷ []

-- `isItemActive`
pub is_item_active : NavItem → String → Bool
is_item_active item pathname =
    if item.exact then str_eq pathname item.href else starts_with pathname item.href

-- `isAdmin`, over the role of the session's user
pub is_admin : Option String → Bool
is_admin none = false
is_admin (some role) = has admin_roles role

-- `DASHBOARD_NAV.filter(…)`
pub visible : Bool → List NavItem → List NavItem
visible admin [] = []
visible admin (item ∷ items) =
    if not item.admin_only || admin then item ∷ visible admin items else visible admin items

pub dashboard_items : Option String → List NavItem
unfolding is_admin visible
dashboard_items role = visible (is_admin role) dashboard_nav

-- A link of a section, and whether it is the current page
pub record Link : Type 0 where
  pub href : String
  pub label : String
  pub active : Bool

-- `NavSection`
pub nav_link : String → NavItem → Link
unfolding is_item_active
nav_link pathname item = record {
  href = item.href;
  label = item.label;
  active = is_item_active item pathname;
}

-- `Sidebar`: the links of both sections
pub sidebar : Option String → String → List Link × List Link
unfolding dashboard_items nav_link
sidebar role pathname =
    (map (nav_link pathname) (dashboard_items role), map (nav_link pathname) platform_nav)

-- `PLATFORM_NAV` of `PlatformShell`, and its links, which are active on their very path
abbrev pub platform_shell_nav : List NavItem
platform_shell_nav =
    nav "/platform/security" "Security"
    ∷ nav "/platform/sessions" "Sessions"
    ∷ nav "/platform/users" "Users"
    ∷ []

pub platform_link : String → NavItem → Link
platform_link pathname item = record {
  href = item.href;
  label = item.label;
  active = str_eq pathname item.href;
}

-- `handleSignOut`, by what `platformClient.logout()` settles with
pub handle_sign_out : Outcome (Unit {0}) → List Navigation
handle_sign_out (resolved _) = push "/platform/login" ∷ []
handle_sign_out (rejected err) = push "/platform/login" ∷ []

-- `TenantSelector` of components/controls: nothing in the platform's pages, or the items with their
-- marks.
abbrev pub tenants : List String
tenants = "acme" ∷ "globex" ∷ []

pub tenant_selector : String → String → Option (List (String × Bool))
tenant_selector pathname tenant =
    if starts_with pathname "/platform"
    then none
    else some (map (λ id. (id, str_eq id tenant)) tenants)
