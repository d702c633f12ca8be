-- ===== src/Pages/MfaChallenge/Laws.antt =====
-- One challenge at a time, none after the expiry, and the token of the slot only.
use rust_auth_example.Base.{
  ◌+◌, true, false, String, Option, none, some, List, [], ◌∷◌, ◌≡◌, refl, arith, ◌⊎◌, inr, All, ◌∙◌,
}
use rust_auth_example.Http.{resolved, rejected}
use rust_auth_example.Pages.{replace}
use rust_auth_example.Pages.Stores.{Slot, consume_pending_mfa_challenge}
use rust_auth_example.Pages.MfaChallenge.{
  Challenge, Event, submit, challenge_settled, refresh_settled, expired, mount, step, run, screen,
  session_expired,
}

-- The guard is up exactly while one submission is under way, and only the page's token was sent.
pub record IsGuarded (token : Option String) (s : Challenge) : Type 0 where
  pub kept : s.temp_token ≡ token
  pub guarded :
      ((s.is_submitting ≡ true) × (s.challenges + s.refreshes ≡ 1))
      ⊎ ((s.is_submitting ≡ false) × (s.challenges + s.refreshes ≡ 0))
  pub own : All (λ r. some (r.0) ≡ token) s.sent

module _ (token : Option String) where
  step-IsGuarded : (e : Event) (s : Challenge) → IsGuarded token s → IsGuarded token (step e s)
  unfolding step
  step-IsGuarded (submit totp) s h = ground arith
  step-IsGuarded (challenge_settled outcome) s h = ground arith
  step-IsGuarded (refresh_settled outcome) s h = ground arith
  step-IsGuarded expired s h = ground arith

  run-IsGuarded : (es : List Event) (s : Challenge) → IsGuarded token s → IsGuarded token (run es s)
  unfolding run
  run-IsGuarded [] s h = h
  run-IsGuarded (e ∷ es) s h = run-IsGuarded es (step e s) (step-IsGuarded e s h)

-- From the mounted page, over any events: the page keeps the token that the slot held and sends no
-- other, at most one submission is under way, and `isSubmittingRef` is up exactly meanwhile. The
-- mount leaves the slot empty.
pub run-mount-IsGuarded :
    (slot : Slot) (es : List Event)
    → IsGuarded slot (run es (mount slot).0) × ((mount slot).1 ≡ none)
unfolding mount consume_pending_mfa_challenge
run-mount-IsGuarded slot es = (
  run-IsGuarded slot es (mount slot).0
      (record { kept = refl; guarded = inr (refl, refl); own = tt }),
  refl,
)

step_expired :
    (e : Event) (s : Challenge)
    → s.is_expired ≡ true
    → ((step e s).sent ≡ s.sent) × ((step e s).is_expired ≡ true)
unfolding step
step_expired (submit totp) s h = ground arith
step_expired (challenge_settled outcome) s h = ground arith
step_expired (refresh_settled outcome) s h = ground arith
step_expired expired s h = ground arith

-- Once the pill has expired, no event makes the page send a code again.
run_expired : (es : List Event) (s : Challenge) → s.is_expired ≡ true → (run es s).sent ≡ s.sent
unfolding run
run_expired [] s h = refl
run_expired (e ∷ es) s h =
    let (same, still) = step_expired e s h in run_expired es (step e s) still ∙ same

step_navigates :
    (e : Event) (s : Challenge)
    → ((step e s).navigations ≡ s.navigations)
      ⊎ ((e ≡ refresh_settled (resolved tt))
          × ((step e s).navigations ≡ replace "/dashboard" ∷ s.navigations))
unfolding step
step_navigates (submit totp) s = ground arith
step_navigates (challenge_settled outcome) s = ground arith
step_navigates (refresh_settled (resolved tt)) s = ground arith
step_navigates (refresh_settled (rejected err)) s = ground arith
step_navigates expired s = ground arith

-- A page that is mounted on a token leaves the slot empty, on which a page shows that the session has
-- expired.
pub mount_once : (token : String) → screen (mount (mount (some token)).1).0 ≡ session_expired
unfolding mount screen consume_pending_mfa_challenge
mount_once token = refl
