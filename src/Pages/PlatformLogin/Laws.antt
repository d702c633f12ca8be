-- ===== src/Pages/PlatformLogin/Laws.antt =====
-- Where the platform sign-in leads, and what it sends.
use rust_auth_example.Base.{
  true, false, String, Option, none, some, List, [], ◌∷◌, ◌≡◌, refl, arith, is_some, All,
}
use rust_auth_example.Pages.{Navigation, push}
use rust_auth_example.Pages.PlatformLogin.{
  Form, Event, login, login_settled, complete_code, submit_mfa, mfa_settled, back, step, run,
  screen, mfa_step, on_mfa_submit,
}

on_mfa_submit-sent :
    (o c : Option String) (s : Form)
    → is_some o ≡ true
    → is_some c ≡ true
    → (token : String) × (code : String) × (o ≡ some token)
      × (c ≡ some code)
      × ((on_mfa_submit o c s).sent ≡ (token, code) ∷ s.sent)
unfolding on_mfa_submit
on_mfa_submit-sent none c s h k = ground arith
on_mfa_submit-sent (some token) none s h k = ground arith
on_mfa_submit-sent (some token) (some code) s h k = (token, code, refl, refl, refl)

screen-eq-mfa_step :
    (reason : Option String) (s : Form) (error : Option String)
    → screen reason s ≡ mfa_step error false
    → (is_some s.mfa_temp_token ≡ true)
      × (is_some s.pending_mfa_code ≡ true)
      × (s.is_mfa_submitting ≡ false)
unfolding screen
screen-eq-mfa_step reason s error h = ground arith

-- While the MFA step is shown with its submit button enabled, no challenge of its own is marked as
-- under way, a token and a code are held, and submitting sends one challenge with exactly these.
submit_mfa_enabled :
    (reason : Option String) (s : Form) (error : Option String)
    → screen reason s ≡ mfa_step error false
    → (s.is_mfa_submitting ≡ false)
      × ((token : String) × (code : String) × (s.mfa_temp_token ≡ some token)
          × (s.pending_mfa_code ≡ some code)
          × ((step submit_mfa s).sent ≡ (token, code) ∷ s.sent))
unfolding step
submit_mfa_enabled reason s error h =
    let e = screen-eq-mfa_step reason s error h in
    (e.2, on_mfa_submit-sent s.mfa_temp_token s.pending_mfa_code s e.0 e.1)

-- The page goes nowhere but to `/platform/security`.
abbrev Leads : List Navigation → Type 0
Leads = All (λ n. n ≡ push "/platform/security")

step-Leads : (e : Event) (s : Form) → Leads s.navigations → Leads (step e s).navigations
unfolding step
step-Leads (login email password) s h = h
step-Leads (login_settled outcome) s h = ground arith
step-Leads (complete_code code) s h = h
step-Leads submit_mfa s h = ground arith
step-Leads (mfa_settled outcome) s h = ground arith
step-Leads back s h = h

-- Over any events, the page goes nowhere but to `/platform/security`.
run-Leads : (es : List Event) (s : Form) → Leads s.navigations → Leads (run es s).navigations
unfolding run
run-Leads [] s h = h
run-Leads (e ∷ es) s h = run-Leads es (step e s) (step-Leads e s h)
