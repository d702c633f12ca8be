-- ===== src/Pages/Invitations/Tests.antt =====
-- Addresses, and runs of the invitations page.
use rust_auth_example.Base.{
  ◌≤◌, if◌then◌else◌, true, false, none, some, List, [], ◌∷◌, ◌≡◌, ◌↔◌, refl, codes,
}
use rust_auth_example.Http.{resolved}
use rust_auth_example.Pages.Invitations.{
  Event, type_email, submit, invite_settled, ready, initial, step, run, email_re, is_plain,
}
use rust_auth_example.Pages.Invitations.Email.{IsEmail, email_re_iff}
use rust_auth_example.Pages.Invitations.Screen.{
  no_invitations, items, mailpit_url, accepted_invitations, invite_form,
}
use rust_auth_example.Pages.Invitations.Screen.Laws.{banners, run-banners}

abbrev inviting : List Event
inviting =
    type_email "ann"
    ∷ submit
    ∷ type_email "ann@acme.test"
    ∷ submit
    ∷ submit
    ∷ invite_settled (resolved tt)
    ∷ []

invitation_runs :
    (email_re "a@b.c" ≡ true)
    × (email_re "a@b.c.d" ≡ true)
    × (email_re "a@@b.c" ≡ false)
    × (email_re "a@b." ≡ false)
    × (email_re "a b@c.d" ≡ false)
    × ((run inviting initial).success ≡ some "Invitation sent to ann@acme.test.")
    × ((run inviting initial).refresh_key ≡ 1)
unfolding email_re is_plain run step initial
invitation_runs = (refl, refl, refl, refl, refl, refl, refl)

email_re_iff_example : (email_re "ann@acme.test" ≡ true) ↔ IsEmail (codes "ann@acme.test")
email_re_iff_example = email_re_iff "ann@acme.test"

screen_runs :
    (accepted_invitations (ready []) ≡ no_invitations)
    × (accepted_invitations (ready (record { email = "ann"; accepted_at = none } ∷ []))
        ≡ items (("ann", mailpit_url) ∷ []))
unfolding accepted_invitations
screen_runs = (refl, refl)

run-banners_example :
    banners (invite_form (run inviting initial))
    ≤ (if (invite_form (run inviting initial)).is_disabled then 0 else 1)
run-banners_example = run-banners inviting
