-- ===== src/Pages/Invitations/Laws.antt =====
-- What the form sends, and when the list loads.
use rust_auth_example.Base.{
  ℕ, suc, true, List, [], ◌∷◌, ◌≡◌, refl, arith, All, length, Bool-cases, inl, inr, if◌then◌else◌,
}
use rust_auth_example.Http.{resolved, rejected}
use rust_auth_example.Api.Calls.{AcceptedInvitation}
use rust_auth_example.Pages.Invitations.{
  Invitation, Invitations, ready, initial, Event, type_email, choose_role, submit, invite_settled,
  list_settled, email_re, on_submit, on_list_settled, step, run,
}

-- Only addresses of the right shape are sent; one invitation is in flight while the form is busy and
-- none otherwise.
pub record IsGuarded (s : Invitations) : Type 0 where
  shaped : All (λ (i : Invitation). email_re i.email ≡ true) s.sent
  pub single : length s.in_flight ≡ (if s.busy then 1 else 0)

submit-IsGuarded : (s : Invitations) → IsGuarded s → IsGuarded (on_submit s)
unfolding on_submit
submit-IsGuarded s h = record {
  shaped = elim (Bool-cases s.busy) [
    | inl busy ↦ simp busy (h.shaped)
    | inr free ↦ elim (Bool-cases (email_re s.email)) [
      | inl fits ↦ simp (free, fits) (refl, h.shaped)
      | inr wrong ↦ simp (free, wrong) (h.shaped)
    ]
  ];
  single = ground (arith, h.single);
}

step-IsGuarded : (e : Event) (s : Invitations) → IsGuarded s → IsGuarded (step e s)
unfolding step
step-IsGuarded (type_email email) s h = record { shaped = h.shaped; single = h.single }
step-IsGuarded (choose_role role) s h = record { shaped = h.shaped; single = h.single }
step-IsGuarded submit s h = submit-IsGuarded s h
step-IsGuarded (invite_settled (resolved x)) s h = ground arith
step-IsGuarded (invite_settled (rejected err)) s h = ground arith
step-IsGuarded (list_settled (resolved rows)) s h = ground arith
step-IsGuarded (list_settled (rejected err)) s h = ground arith

run-IsGuarded : (es : List Event) (s : Invitations) → IsGuarded s → IsGuarded (run es s)
unfolding run
run-IsGuarded [] s h = h
run-IsGuarded (e ∷ es) s h = run-IsGuarded es (step e s) (step-IsGuarded e s h)

-- Over any events, every invitation that was sent went to an address that passes the form's check,
-- and one invitation is in flight while the form is busy and none otherwise.
pub run-initial-IsGuarded : (es : List Event) → IsGuarded (run es initial)
unfolding initial
run-initial-IsGuarded es = run-IsGuarded es initial (record { shaped = tt; single = refl })

-- Two loads in flight: the list shows what settled last, whichever was asked for last.
last_settled_wins :
    (older newer : List AcceptedInvitation) (s : Invitations) (others : ℕ)
    → s.loads ≡ suc (suc others)
    → (step (list_settled (resolved older)) (step (list_settled (resolved newer)) s)).accepted
      ≡ ready older
unfolding step on_list_settled
last_settled_wins older newer s others h = rw h refl
