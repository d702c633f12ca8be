-- ===== src/Shell/Tests.antt =====
-- The navigation at concrete paths.
use rust_auth_example.Base.{◌≤◌, true, false, none, some, [], ◌∷◌, ◌≡◌, refl, has, map}
use rust_auth_example.Http.{rejected, other_error}
use rust_auth_example.Pages.{push}
use rust_auth_example.Shell.{
  dashboard_items, sidebar, is_admin, platform_shell_nav, platform_link, handle_sign_out,
  tenant_selector, visible, is_item_active, nav_link,
}
use rust_auth_example.Shell.Frame.{
  open_menu, click_link, click_backdrop, step, run, frame, live_toggle, delivery_text,
}
use rust_auth_example.Shell.Laws.{active_count, sidebar_active}

shell_runs :
    (active_count (sidebar (some "user") "/dashboard/sessions").0 ≡ 1)
    × (active_count (sidebar none "/").0 ≡ 1)
    × (active_count (map (platform_link "/platform/users") platform_shell_nav) ≡ 1)
    × (handle_sign_out (rejected other_error) ≡ push "/platform/login" ∷ [])
    × (tenant_selector "/platform/users" "acme" ≡ none)
    × (tenant_selector "/" "acme" ≡ some (("acme", true) ∷ ("globex", false) ∷ []))
unfolding sidebar is_admin visible is_item_active nav_link dashboard_items platform_link
    handle_sign_out tenant_selector has
shell_runs = (refl, refl, refl, refl, refl, refl)

sidebar_active_example : active_count (sidebar (some "admin") "/dashboard/audit").0 ≤ 1
sidebar_active_example = sidebar_active (some "admin") "/dashboard/audit"

-- The menu is closed by a link and by the backdrop.
frame_runs :
    ((frame none "/" (run (open_menu ∷ []) false)).has_backdrop ≡ true)
    × ((frame none "/" (run (open_menu ∷ click_link ∷ []) false)).is_overlaid ≡ false)
    × (run (click_link ∷ open_menu ∷ click_backdrop ∷ []) true ≡ false)
    × ((live_toggle (live_toggle true).next).text ≡ "Paused")
    × (delivery_text none ≡ "Cookie")
unfolding frame run step live_toggle delivery_text
frame_runs = (refl, refl, refl, refl, refl)
