-- ===== src/Pages/PlatformSessions/Laws.antt =====
-- One revocation at a time, and the way to the login page.
use rust_auth_example.Base.{ℕ, suc, false, List, [], ◌∷◌, ◌≡◌, refl, arith, length, if◌then◌else◌}
use rust_auth_example.Http.{resolved, rejected, Failure}
use rust_auth_example.Pages.PlatformSessions.{
  PlatformSessions, initial, Event, me_settled, revoke_all, revoke_settled, on_revoke_settled, step,
  run,
}

-- How many revocations the API confirmed
abbrev confirmed : List Event → ℕ
confirmed [] = 0
confirmed (revoke_settled (resolved x) ∷ es) = suc (confirmed es)
confirmed (e ∷ es) = confirmed es

-- One revocation is in flight while the page is revoking, and none otherwise.
abbrev IsSingle : PlatformSessions → Type 0
IsSingle s = s.revocations ≡ (if s.revoking then 1 else 0)

step-IsSingle : (e : Event) (s : PlatformSessions) → IsSingle s → IsSingle (step e s)
unfolding step
step-IsSingle (me_settled (resolved me)) s h = ground arith
step-IsSingle (me_settled (rejected err)) s h = ground arith
step-IsSingle revoke_all s h = ground arith
step-IsSingle (revoke_settled (resolved x)) s h = ground arith
step-IsSingle (revoke_settled (rejected err)) s h = ground arith

run-IsSingle : (es : List Event) (s : PlatformSessions) → IsSingle s → IsSingle (run es s)
unfolding run
run-IsSingle [] s h = h
run-IsSingle (e ∷ es) s h = run-IsSingle es (step e s) (step-IsSingle e s h)

-- Over any clicks and answers, one revocation is in flight while the button says "Revoking…", and
-- none otherwise.
pub run-initial-IsSingle :
    (es : List Event) → (run es initial).revocations ≡ (if (run es initial).revoking then 1 else 0)
unfolding initial
run-initial-IsSingle es = run-IsSingle es initial refl

-- A settled revocation enables the button again: it leads to the login page if it was confirmed, and
-- shows the code of the error, on the page, if not.
revoke_settled_leads :
    (err : Failure) (s : PlatformSessions)
    → s.revocations ≡ 1
    → ((step (revoke_settled (resolved tt)) s).revoking ≡ false)
      × ((step (revoke_settled (rejected err)) s).revoking ≡ false)
      × ((step (revoke_settled (rejected err)) s).navigations ≡ s.navigations)
      × (length (step (revoke_settled (resolved tt)) s).navigations ≡ suc (length s.navigations))
unfolding step on_revoke_settled
revoke_settled_leads err s h = rw h (refl, refl, refl, refl)
