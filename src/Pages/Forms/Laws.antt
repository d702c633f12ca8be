-- ===== src/Pages/Forms/Laws.antt =====
-- What the forms send, and where they lead.
use rust_auth_example.Base.{
  ℕ, suc, true, String, Option, none, some, List, [], ◌∷◌, ◌≡◌, refl, arith, All, codes,
}
use rust_auth_example.Http.{Response, Outcome, resolved, rejected}
use rust_auth_example.Pages.{push}
use rust_auth_example.Pages.Tenant.{tenant_id_re, tenant_of, tenant_of-slug}
use rust_auth_example.Pages.Forms.{
  Form, ResetRequest, AcceptRequest, submit_reset, RegisterRequest, submit_register,
  settle_register, settle_reset, settle_accept,
}

-- The events of the reset-password page.
pub data ResetEvent : Type 0 where
  submit_form : (email password : String) → ResetEvent
  settled : Outcome (Unit {0}) → ResetEvent

module _ (token : Option String) (raw_tenant : String) where
  step_reset : ResetEvent → Form ResetRequest → Form ResetRequest
  step_reset (submit_form email password) s = submit_reset token raw_tenant email password s
  step_reset (settled outcome) s = settle_reset outcome s

  pub run_reset : List ResetEvent → Form ResetRequest → Form ResetRequest
  run_reset [] s = s
  run_reset (e ∷ es) s = run_reset es (step_reset e s)

  -- A request carries the token that the page consumed, and a tenant that is a slug.
  abbrev pub IsOwn : List ResetRequest → Type 0
  IsOwn = All (λ r. (some r.verified_token ≡ token) × (tenant_id_re (codes r.tenant_id) ≡ true))

  settle_reset-sent :
      (outcome : Outcome (Unit {0})) (s : Form ResetRequest)
      → (settle_reset outcome s).sent ≡ s.sent
  unfolding settle_reset
  settle_reset-sent outcome s = ground arith

  submit_reset-IsOwn :
      (o : Option String) (email password : String) (s : Form ResetRequest)
      → o ≡ token
      → IsOwn s.sent
      → IsOwn (submit_reset o raw_tenant email password s).sent
  unfolding submit_reset
  submit_reset-IsOwn none email password s e h = h
  submit_reset-IsOwn (some t) email password s e h = ((e, (tenant_of-slug raw_tenant).0), h)

  step-IsOwn : (e : ResetEvent) (s : Form ResetRequest) → IsOwn s.sent → IsOwn (step_reset e s).sent
  unfolding step_reset
  step-IsOwn (submit_form email password) s h = submit_reset-IsOwn token email password s refl h
  step-IsOwn (settled outcome) s h = rw (settle_reset-sent outcome s) h

  -- Over any events, every reset request carries the very token that the page consumed when it was
  -- mounted, and a tenant that is a slug, if those sent before do.
  pub run_reset-IsOwn :
      (es : List ResetEvent) (s : Form ResetRequest) → IsOwn s.sent → IsOwn (run_reset es s).sent
  unfolding run_reset
  run_reset-IsOwn [] s h = h
  run_reset-IsOwn (e ∷ es) s h = run_reset-IsOwn es (step_reset e s) (step-IsOwn e s h)

-- While the acceptance of an invitation is in flight, every response to it goes to the dashboard
-- and shows no error of its own, also one that is not ok: a refused invitation is taken for a success.
settle_accept_ignores_status :
    (res : Response) (others : ℕ) (s : Form AcceptRequest)
    → s.in_flight ≡ suc others
    → ((settle_accept (resolved res) s).navigations ≡ push "/dashboard" ∷ s.navigations)
      × ((settle_accept (resolved res) s).error_code ≡ s.error_code)
unfolding settle_accept
settle_accept_ignores_status res others s h = ground arith

-- The events of the register page.
pub data RegisterEvent : Type 0 where
  submit_details : (email password name : String) → RegisterEvent
  registered : Outcome (Unit {0}) → RegisterEvent

module _ (raw_tenant : String) where
  step_register : RegisterEvent → Form RegisterRequest → Form RegisterRequest
  step_register (submit_details email password name) s =
      submit_register raw_tenant email password name s
  step_register (registered outcome) s = settle_register outcome s

  pub run_register : List RegisterEvent → Form RegisterRequest → Form RegisterRequest
  run_register [] s = s
  run_register (e ∷ es) s = run_register es (step_register e s)

  -- Registrations go to the tenant of the URL, and their success to the verification page only.
  pub record IsRegistering (s : Form RegisterRequest) : Type 0 where
    pub tenants : All (λ r. r.tenant_id ≡ tenant_of raw_tenant) s.sent
    slugs : All (λ r. tenant_id_re (codes r.tenant_id) ≡ true) s.sent
    led : All (λ n. n ≡ push "/auth/verify-email") s.navigations

  step_register-IsRegistering :
      (e : RegisterEvent) (s : Form RegisterRequest)
      → IsRegistering s
      → IsRegistering (step_register e s)
  unfolding step_register submit_register settle_register
  step_register-IsRegistering (submit_details email password name) s h = record {
    tenants = (refl, h.tenants);
    slugs = ((tenant_of-slug raw_tenant).0, h.slugs);
    led = h.led;
  }
  step_register-IsRegistering (registered (resolved u)) s h = ground arith
  step_register-IsRegistering (registered (rejected err)) s h = ground arith

  -- Over any events, every registration names the tenant of the URL, which is a slug, and the page
  -- goes nowhere but to the verification page.
  run_register-IsRegistering :
      (es : List RegisterEvent) (s : Form RegisterRequest)
      → IsRegistering s
      → IsRegistering (run_register es s)
  unfolding run_register
  run_register-IsRegistering [] s h = h
  run_register-IsRegistering (e ∷ es) s h =
      run_register-IsRegistering es (step_register e s) (step_register-IsRegistering e s h)
