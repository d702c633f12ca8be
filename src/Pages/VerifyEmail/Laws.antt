-- ===== src/Pages/VerifyEmail/Laws.antt =====
-- Guards, the neutral resend, and what happens on a refused code.
use rust_auth_example.Base.{
  ◌+◌, true, false, String, Option, none, some, List, [], ◌∷◌, ◌≡◌, refl, arith, ◌⊎◌, inl, inr, map,
}
use rust_auth_example.Http.{Response, resolved, rejected, other_error}
use rust_auth_example.Pages.{push}
use rust_auth_example.Pages.VerifyEmail.{
  Verify, Event, verify, verify_settled, resend, resend_settled, cooldown_over, initial, step, run,
  screen, form, neutral_message, Status, authenticated, unauthenticated, loading,
}

-- Each guard is up exactly while what it guards is under way: one verification, and one resend or
-- the one cooldown after it.
pub record AreGuarded (s : Verify) : Type 0 where
  pub verifying :
      ((s.is_verifying ≡ true) × (s.verifies_in_flight ≡ 1))
      ⊎ ((s.is_verifying ≡ false) × (s.verifies_in_flight ≡ 0))
  resending :
      ((s.resend_disabled ≡ true) × (s.resends_in_flight + s.cooldowns ≡ 1))
      ⊎ ((s.resend_disabled ≡ false) × (s.resends_in_flight + s.cooldowns ≡ 0))

step-AreGuarded :
    (email : Option String) (e : Event) (s : Verify) → AreGuarded s → AreGuarded (step email e s)
unfolding step
step-AreGuarded none (verify otp) s h = ground arith
step-AreGuarded (some email) (verify otp) s h = ground arith
step-AreGuarded email (verify_settled outcome) s h = ground arith
step-AreGuarded none resend s h = ground arith
step-AreGuarded (some email) resend s h = ground arith
step-AreGuarded email (resend_settled outcome) s h = ground arith
step-AreGuarded email cooldown_over s h = ground arith

run-AreGuarded :
    (email : Option String) (es : List Event) (s : Verify)
    → AreGuarded s
    → AreGuarded (run email es s)
unfolding run
run-AreGuarded email [] s h = h
run-AreGuarded email (e ∷ es) s h =
    run-AreGuarded email es (step email e s) (step-AreGuarded email e s h)

-- Over any events, at most one verification is in flight, and at most one resend is in flight or
-- cooling down; the two guards are up exactly meanwhile.
pub run-initial-AreGuarded :
    (email : Option String) (es : List Event) → AreGuarded (run email es initial)
unfolding initial
run-initial-AreGuarded email es =
    run-AreGuarded email es initial
      (record { verifying = inr (refl, refl); resending = inr (refl, refl) })

-- The events with every outcome of a resend request taken for a network error.
abbrev pub blind : Event → Event
blind (resend_settled outcome) = resend_settled (rejected other_error)
blind e = e

step-blind :
    (email : Option String) (e : Event) (s : Verify) → step email (blind e) s ≡ step email e s
unfolding step
step-blind email (verify otp) s = refl
step-blind email (verify_settled outcome) s = refl
step-blind email resend s = refl
step-blind email (resend_settled outcome) s = ground arith
step-blind email cooldown_over s = refl

-- The page never tells what came of a request for a new code: over any events, it ends in the state
-- that it has when all these requests fail.
run-blind_resends :
    (email : Option String) (es : List Event) (s : Verify)
    → run email (map blind es) s ≡ run email es s
unfolding run
run-blind_resends email [] s = refl
run-blind_resends email (e ∷ es) s =
    rw (run, step-blind email e s) (run-blind_resends email es (step email e s))

-- While a verification is in flight, every response to it goes to the dashboard and shows no error
-- of its own, also one that is not ok: a refused code is taken for a success.
verify_settled_ignores_status :
    (email : Option String) (res : Response) (s : Verify)
    → AreGuarded s
    → s.is_verifying ≡ true
    → ((step email (verify_settled (resolved res)) s).navigations
        ≡ push "/dashboard" ∷ s.navigations)
      × ((step email (verify_settled (resolved res)) s).error_code ≡ s.error_code)
unfolding step
verify_settled_ignores_status email res s g v = ground arith

abbrev IsNeutral : Verify → Type 0
IsNeutral s = (s.resend_message ≡ none) ⊎ (s.resend_message ≡ some neutral_message)

step-IsNeutral :
    (email : Option String) (e : Event) (s : Verify) → IsNeutral s → IsNeutral (step email e s)
unfolding step
step-IsNeutral none (verify otp) s h = ground arith
step-IsNeutral (some email) (verify otp) s h = ground arith
step-IsNeutral email (verify_settled outcome) s h = ground arith
step-IsNeutral none resend s h = ground arith
step-IsNeutral (some email) resend s h = ground arith
step-IsNeutral email (resend_settled outcome) s h = ground arith
step-IsNeutral email cooldown_over s h = ground arith

run-IsNeutral :
    (email : Option String) (es : List Event) (s : Verify)
    → IsNeutral s
    → IsNeutral (run email es s)
unfolding run
run-IsNeutral email [] s h = h
run-IsNeutral email (e ∷ es) s h =
    run-IsNeutral email es (step email e s) (step-IsNeutral email e s h)

screen-form :
    (status : Status) (email : Option String) (s : Verify) {shown : String}
    {error message : Option String}
    → screen status email s ≡ form shown error message
    → (status ≡ authenticated) × (message ≡ s.resend_message)
unfolding screen
screen-form unauthenticated email s h = cc
screen-form loading email s h = cc
screen-form authenticated none s h = (refl, cc)
screen-form authenticated (some email) s h = (refl, cc)

-- The form is shown to an authenticated visitor only, and over any events its message is the neutral
-- one if it has any.
screen_neutral :
    (status : Status) (email : Option String) (es : List Event) {shown : String}
    {error message : Option String}
    → screen status email (run email es initial) ≡ form shown error message
    → (status ≡ authenticated) × ((message ≡ none) ⊎ (message ≡ some neutral_message))
unfolding initial
screen_neutral status email es h =
    let (now, same) = screen-form status email (run email es initial) h in
    (now, rw same (run-IsNeutral email es initial (inl refl)))
