-- ===== src/Shell/Frame.antt =====
-- apps/web/components/shell/AppShell.tsx, with the overlay of the sidebar on small screens, and
-- components/controls/LiveToggle.tsx, with DeliveryModeChip.tsx beside it, of its topbar.
use rust_auth_example.Base.{Bool, true, false, String, Option, none, some, List, [], ◌∷◌}
use rust_auth_example.Shell.{Link, sidebar}

-- The hamburger of the topbar, a link of the sidebar, and the backdrop, which is there while the
-- overlay is open
pub data Event : Type 0 where
  open_menu click_link click_backdrop : Event

-- `sidebarOpen`
unfoldable pub step : Event → Bool → Bool
step open_menu is_open = true
step click_link is_open = false
step click_backdrop is_open = false

unfoldable pub run : List Event → Bool → Bool
run [] is_open = is_open
run (e ∷ es) is_open = run es (step e is_open)

-- What is rendered: whether the sidebar overlays the page and the backdrop is there, and the links
pub record Frame : Type 0 where
  pub is_overlaid : Bool
  pub has_backdrop : Bool
  pub links : List Link × List Link

unfoldable pub frame : Option String → String → Bool → Frame
frame role pathname is_open = record {
  is_overlaid = is_open;
  has_backdrop = is_open;
  links = sidebar role pathname;
}

-- `LiveToggle` at the parameter `live` of the URL; `next` is what a click sets it to.
pub record LiveToggle : Type 0 where
  pub text : String
  pub is_outline : Bool
  pub is_pressed : Bool
  pub next : Bool

unfoldable pub live_toggle : Bool → LiveToggle
live_toggle true = record { text = "Live"; is_outline = false; is_pressed = true; next = false }
live_toggle false = record { text = "Paused"; is_outline = true; is_pressed = false; next = true }

-- `TokenDelivery`, and what the chip says of it; the topbar gives it no mode.
pub data TokenDelivery : Type 0 where
  cookie bearer both : TokenDelivery

unfoldable pub delivery_text : Option TokenDelivery → String
delivery_text none = "Cookie"
delivery_text (some cookie) = "Cookie"
delivery_text (some bearer) = "Bearer"
delivery_text (some both) = "Both"
