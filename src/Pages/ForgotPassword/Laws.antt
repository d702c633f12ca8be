-- ===== src/Pages/ForgotPassword/Laws.antt =====
-- One verification at a time, and nothing that tells whether an account exists.
use rust_auth_example.Base.{
  true, false, String, none, some, List, [], ◌∷◌, ◌≡◌, refl, arith, ◌⊎◌, inr, map,
}
use rust_auth_example.Json.{Json}
use rust_auth_example.Http.{Response, auth_error, other_error, resolved, rejected}
use rust_auth_example.Pages.{push}
use rust_auth_example.Pages.Stores.{Slot, set_reset_verified_token}
use rust_auth_example.Pages.ForgotPassword.{
  Forgot, Event, type_email, submit_email, email_settled, complete_otp, verify_settled, start_over,
  initial, verified_token, step, run,
}

-- The guard `isVerifyingRef` is up exactly while one verification is in flight.
abbrev pub IsGuarded : Forgot → Type 0
IsGuarded s =
    ((s.is_verifying ≡ true) × (s.in_flight ≡ 1)) ⊎ ((s.is_verifying ≡ false) × (s.in_flight ≡ 0))

step-IsGuarded : (e : Event) (s : Forgot) → IsGuarded s → IsGuarded (step e s)
unfolding step
step-IsGuarded (type_email text) s h = ground arith
step-IsGuarded submit_email s h = ground arith
step-IsGuarded (email_settled outcome) s h = ground arith
step-IsGuarded (complete_otp otp) s h = ground arith
step-IsGuarded (verify_settled outcome) s h = ground arith
step-IsGuarded start_over s h = ground arith

run-IsGuarded : (es : List Event) (s : Forgot) → IsGuarded s → IsGuarded (run es s)
unfolding run
run-IsGuarded [] s h = h
run-IsGuarded (e ∷ es) s h = run-IsGuarded es (step e s) (step-IsGuarded e s h)

-- Over any events, however they interleave, at most one OTP verification is in flight, and the
-- guard `isVerifyingRef` is up exactly while it is.
pub run-initial-IsGuarded : (es : List Event) (slot : Slot) → IsGuarded (run es (initial slot))
unfolding initial
run-initial-IsGuarded es slot = run-IsGuarded es (initial slot) (inr (refl, refl))

-- The events with every reset request that the server refused taken for an accepted one.
abbrev pub blind : Event → Event
blind (email_settled (rejected (auth_error err))) = email_settled (resolved tt)
blind e = e

step-blind : (e : Event) (s : Forgot) → step (blind e) s ≡ step e s
unfolding step
step-blind (type_email text) s = refl
step-blind submit_email s = refl
step-blind (email_settled (resolved tt)) s = refl
step-blind (email_settled (rejected (auth_error err))) s = refl
step-blind (email_settled (rejected other_error)) s = refl
step-blind (complete_otp otp) s = refl
step-blind (verify_settled outcome) s = refl
step-blind start_over s = refl

-- The page never tells whether the server accepted a reset request or refused it with an auth
-- error: over any events, it ends in the state that it has when each such refusal is a success.
pub run-blind : (es : List Event) (s : Forgot) → run (map blind es) s ≡ run es s
unfolding run
run-blind [] s = refl
run-blind (e ∷ es) s = rw (run, step-blind e s) (run-blind es (step e s))

-- While a verification is in flight, a response whose body holds no `verifiedToken` string, such as
-- the envelope of any failed request, shows `auth.internal` and leaves the slot and the route alone.
verify_settled_no_token :
    (res : Response) (body : Json) (s : Forgot)
    → IsGuarded s
    → s.is_verifying ≡ true
    → res.body ≡ some body
    → verified_token body ≡ none
    → ((step (verify_settled (resolved res)) s).error_code ≡ some "auth.internal")
      × ((step (verify_settled (resolved res)) s).slot ≡ s.slot)
      × ((step (verify_settled (resolved res)) s).navigations ≡ s.navigations)
      × ((step (verify_settled (resolved res)) s).is_verifying ≡ false)
unfolding step
verify_settled_no_token res body s g v b n = ground arith

-- While a verification is in flight, a response with a token puts exactly this token into the slot
-- and goes to the reset page.
pub verify_settled_token :
    (res : Response) (body : Json) (token : String) (s : Forgot)
    → IsGuarded s
    → s.is_verifying ≡ true
    → res.body ≡ some body
    → verified_token body ≡ some token
    → ((step (verify_settled (resolved res)) s).slot ≡ some token)
      × ((step (verify_settled (resolved res)) s).navigations
          ≡ push "/auth/reset-password" ∷ s.navigations)
      × ((step (verify_settled (resolved res)) s).is_verifying ≡ false)
unfolding step set_reset_verified_token
verify_settled_token res body token s g v b n = ground arith
