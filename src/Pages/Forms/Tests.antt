-- ===== src/Pages/Forms/Tests.antt =====
-- Runs of the forms.
use rust_auth_example.Base.{none, some, ◌≡◌, refl}
use rust_auth_example.Pages.Forms.{blank, has_form, is_reset_expired}
use rust_auth_example.Pages.Forms.Screen.{no_invitation, reset_expired, accept_screen, reset_screen}

screen_runs :
    (accept_screen (some "") "Ann" "secret" blank ≡ no_invitation)
    × (accept_screen none "Ann" "secret" blank ≡ no_invitation)
    × (reset_screen none "a@b.c" "secret" blank ≡ reset_expired)
unfolding accept_screen reset_screen has_form is_reset_expired
screen_runs = (refl, refl, refl)
