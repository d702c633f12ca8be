-- ===== src/Pages/Invitations/Screen/Laws.antt =====
-- The banners of the form exclude each other.
use rust_auth_example.Base.{
  ℕ, ◌+◌, ◌≤◌, String, Option, none, some, List, [], ◌∷◌, ◌≡◌, refl, arith, length, if◌then◌else◌,
}
use rust_auth_example.Http.{resolved, rejected}
use rust_auth_example.Pages.Invitations.{
  Invitations, initial, Event, type_email, choose_role, submit, invite_settled, list_settled,
  on_submit, on_invite_settled, step, run,
}
use rust_auth_example.Pages.Invitations.Screen.{InviteForm, invite_form}

abbrev pub shown : Option String → ℕ
shown none = 0
shown (some text) = 1

-- The banners that a form shows
abbrev pub banners : InviteForm → ℕ
banners f = shown f.validation_error + (shown f.error + shown f.success)

-- One invitation is in flight while the form is busy, with no banner, and at most one banner is
-- there otherwise.
record IsExclusive (s : Invitations) : Type 0 where
  single : length s.in_flight ≡ (if s.busy then 1 else 0)
  exclusive :
      shown s.validation_error + (shown s.error_code + shown s.success) ≤ (if s.busy then 0 else 1)

step-IsExclusive : (e : Event) (s : Invitations) → IsExclusive s → IsExclusive (step e s)
unfolding step on_submit on_invite_settled
step-IsExclusive (type_email email) s h = record { single = h.single; exclusive = h.exclusive }
step-IsExclusive (choose_role role) s h = record { single = h.single; exclusive = h.exclusive }
step-IsExclusive submit s h = ground arith
step-IsExclusive (invite_settled (resolved x)) s h = ground arith
step-IsExclusive (invite_settled (rejected err)) s h = ground arith
step-IsExclusive (list_settled (resolved rows)) s h = ground arith
step-IsExclusive (list_settled (rejected err)) s h = ground arith

run-IsExclusive : (es : List Event) (s : Invitations) → IsExclusive s → IsExclusive (run es s)
unfolding run
run-IsExclusive [] s h = h
run-IsExclusive (e ∷ es) s h = run-IsExclusive es (step e s) (step-IsExclusive e s h)

-- Over any events the form shows at most one of the complaint about the address, the error of the
-- API and the success, and none of them while its button is disabled.
pub run-banners :
    (es : List Event)
    → banners (invite_form (run es initial))
      ≤ (if (invite_form (run es initial)).is_disabled then 0 else 1)
unfolding invite_form initial
run-banners es =
    (run-IsExclusive es initial (record { single = refl; exclusive = omega arith })).exclusive
