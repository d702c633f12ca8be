-- ===== src/Pages/Security/Laws.antt =====
-- The security page never renders nothing.
use rust_auth_example.Base.{
  Bool, true, false, some, List, [], ◌∷◌, ◌≡◌, ◌≢◌, refl, sym, arith, ◌⊎◌, inl, inr, Option-cases,
  is_some,
}
use mathlib.Core.List.{Memᴰ}
use rust_auth_example.Http.{resolved, rejected}
use rust_auth_example.Pages.Security.{
  Mode, off, enrolling, on, Security, initial, Event, user_known, begin_enroll, setup_settled,
  verify_enable, enable_settled, cancel, disable, disable_settled, regenerate, regenerate_settled,
  refresh_settled, toggle_regenerating, open_disable, step, run, card, card_of, empty,
}

-- A setup is there whenever the page is enrolling.
abbrev IsCoherent : Security → Type 0
IsCoherent s = s.mode ≡ some enrolling → is_some s.setup ≡ true

step-IsCoherent : (e : Event) (s : Security) → IsCoherent s → IsCoherent (step e s)
unfolding step
step-IsCoherent (user_known mfa_enabled) s h = λ k. ground arith
step-IsCoherent begin_enroll s h = h
step-IsCoherent (setup_settled (resolved r)) s h = λ k. ground arith
step-IsCoherent (setup_settled (rejected err)) s h = λ k. ground arith
step-IsCoherent (verify_enable code) s h = h
step-IsCoherent (enable_settled outcome) s h = λ k. ground arith
step-IsCoherent cancel s h = λ k. ground arith
step-IsCoherent (disable code) s h = h
step-IsCoherent (disable_settled outcome) s h = λ k. ground arith
step-IsCoherent (regenerate code) s h = h
step-IsCoherent (regenerate_settled outcome) s h = λ k. ground arith
step-IsCoherent (refresh_settled outcome) s h = λ k. ground arith
step-IsCoherent toggle_regenerating s h = h
step-IsCoherent (open_disable next) s h = h

run-IsCoherent : (es : List Event) (s : Security) → IsCoherent s → IsCoherent (run es s)
unfolding run
run-IsCoherent [] s h = h
run-IsCoherent (e ∷ es) s h = run-IsCoherent es (step e s) (step-IsCoherent e s h)

card_of-coherent :
    (mode : Mode) (s : Security)
    → (mode ≡ enrolling → is_some s.setup ≡ true)
    → card_of mode s ≢ empty
unfolding card_of
card_of-coherent off s h = λ e. cc
card_of-coherent on s h = λ e. cc
card_of-coherent enrolling s h = λ e. ground arith

card-coherent : (loading : Bool) (s : Security) → IsCoherent s → card loading s ≢ empty
unfolding card
card-coherent true s h = λ e. cc
card-coherent false s h = elim (Option-cases s.mode) [
  | inl unknown ↦ λ e. cc (rw unknown at e)
  | inr (mode, known) ↦ λ e. card_of-coherent mode s (λ k. h (rw (known, k) refl)) (rw known at e)
]

-- Over any events, however the calls in flight interleave with them, the page shows the skeleton or
-- the card of its mode: the enrolment card always has a setup to show.
run-card_shown : (loading : Bool) (es : List Event) → card loading (run es initial) ≢ empty
unfolding initial
run-card_shown loading es =
    card-coherent loading (run es initial) (run-IsCoherent es initial (λ h. cc))

step_mode :
    (e : Event) (s : Security)
    → (step e s).mode ≡ some on
    → (s.mode ≡ some on) ⊎ (e ≡ user_known true) ⊎ (e ≡ enable_settled (resolved tt))
unfolding step
step_mode (user_known true) s h = ground arith
step_mode (user_known false) s h = ground arith
step_mode begin_enroll s h = inl h
step_mode (setup_settled outcome) s h = ground arith
step_mode (verify_enable code) s h = inl h
step_mode (enable_settled (resolved tt)) s h = ground arith
step_mode (enable_settled (rejected err)) s h = ground arith
step_mode cancel s h = ground arith
step_mode (disable code) s h = inl h
step_mode (disable_settled outcome) s h = ground arith
step_mode (regenerate code) s h = inl h
step_mode (regenerate_settled outcome) s h = ground arith
step_mode (refresh_settled outcome) s h = ground arith
step_mode toggle_regenerating s h = inl h
step_mode (open_disable next) s h = inl h

-- If the page shows two-factor as enabled after some events, then one of these events was the session
-- saying so or a verification that the server accepted.
run_mode :
    (es : List Event) (s : Security)
    → (run es s).mode ≡ some on
    → (s.mode ≡ some on) ⊎ Memᴰ (user_known true) es ⊎ Memᴰ (enable_settled (resolved tt)) es
unfolding run
run_mode [] s h = inl h
run_mode (e ∷ es) s h = elim (run_mode es (step e s) h) [
  | inr (inl m) ↦ inr (inl (Memᴰ.tail m))
  | inr (inr m) ↦ inr (inr (Memᴰ.tail m))
  | inl k ↦ elim (step_mode e s k) [
    | inl same ↦ inl same
    | inr (inl known) ↦ inr (inl (Memᴰ.head (sym known)))
    | inr (inr enabled) ↦ inr (inr (Memᴰ.head (sym enabled)))
  ]
]
