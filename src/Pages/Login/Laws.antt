-- ===== src/Pages/Login/Laws.antt =====
-- What a sign-in leads to, and the workspaces that it can name.
use rust_auth_example.Base.{
  ℕ, zero, suc, true, false, String, none, some, List, [], ◌∷◌, ◌≡◌, refl, arith, ◌⊎◌, inl, inr,
  All, has, subst, sym, Option-cases,
}
use rust_auth_example.Http.{Outcome, resolved, rejected, code_of}
use rust_auth_example.Pages.{push}
use rust_auth_example.Pages.Stores.{Slot, set_pending_mfa_challenge}
use rust_auth_example.Pages.Tenant.{known_tenants, known_tenant_of-has}
use rust_auth_example.Pages.Login.{
  LoginResult, Attempt, Login, Event, choose_tenant, type_email, type_password, submit, settled,
  initial, challenge_of, on_settled, step, run, view,
}

-- Every sign-in so far named a workspace of the picker.
abbrev OfKnownTenant : List Attempt → Type 0
OfKnownTenant = All (λ a. has known_tenants a.tenant_id ≡ true)

on_settled-attempts :
    (outcome : Outcome LoginResult) (n : ℕ) (s : Login)
    → (on_settled outcome n s).attempts ≡ s.attempts
unfolding on_settled
on_settled-attempts outcome zero s = refl
on_settled-attempts (resolved r) (suc others) s = ground arith
on_settled-attempts (rejected err) (suc others) s = refl

step-OfKnownTenant :
    (e : Event) (s : Login) → OfKnownTenant s.attempts → OfKnownTenant (step e s).attempts
unfolding step
step-OfKnownTenant (choose_tenant slug) s h = h
step-OfKnownTenant (type_email text) s h = h
step-OfKnownTenant (type_password text) s h = h
step-OfKnownTenant submit s h = (known_tenant_of-has s.raw_tenant_id, h)
step-OfKnownTenant (settled outcome) s h = rw (on_settled-attempts outcome s.in_flight s) h

run-OfKnownTenant :
    (es : List Event) (s : Login) → OfKnownTenant s.attempts → OfKnownTenant (run es s).attempts
unfolding run
run-OfKnownTenant [] s h = h
run-OfKnownTenant (e ∷ es) s h = run-OfKnownTenant es (step e s) (step-OfKnownTenant e s h)

-- Whatever `?tenant=` says and the visitor does, the page calls `login` for workspaces of its picker
-- only.
run-initial-OfKnownTenant :
    (tenant : String) (slot : Slot) (es : List Event)
    → OfKnownTenant (run es (initial tenant slot)).attempts
unfolding initial
run-initial-OfKnownTenant tenant slot es = run-OfKnownTenant es (initial tenant slot) tt

-- What a settled sign-in did to the page: `t` is the state after it.
abbrev Led : Outcome LoginResult → Login → Login → Type 0
Led (resolved r) s t =
    (t.error_code ≡ s.error_code)
    × (((challenge_of r ≡ none)
          × (t.slot ≡ s.slot)
          × (t.navigations ≡ push "/dashboard" ∷ s.navigations))
        ⊎ ((token : String) × (challenge_of r ≡ some token)
            × (t.slot ≡ some token)
            × (t.navigations ≡ push "/auth/mfa-challenge" ∷ s.navigations)))
Led (rejected err) s t =
    (t.error_code ≡ some (code_of err)) × (t.slot ≡ s.slot) × (t.navigations ≡ s.navigations)

on_settled-Led :
    (outcome : Outcome LoginResult) (others : ℕ) (s : Login)
    → Led outcome s (on_settled outcome (suc others) s)
      × ((on_settled outcome (suc others) s).is_submitting ≡ false)
unfolding on_settled set_pending_mfa_challenge
on_settled-Led (rejected err) others s = ((refl, refl, refl), refl)
on_settled-Led (resolved r) others s = elim (Option-cases (challenge_of r)) [
  | inl plain ↦ ((ground arith, inl (plain, ground arith, ground arith)), ground arith)
  | inr (token, asked) ↦
      ((ground arith, inr (token, asked, ground arith, ground arith)), ground arith)
]

-- The settled call decides where the visitor goes: to the dashboard with the slot untouched on a
-- plain success, to the challenge page with the token in the slot if MFA is required, and nowhere,
-- with the code of the error, on a rejection. In each case the button is enabled again.
pub step-settled-Led :
    (outcome : Outcome LoginResult) (others : ℕ) (s : Login)
    → s.in_flight ≡ suc others
    → Led outcome s (step (settled outcome) s) × ((step (settled outcome) s).is_submitting ≡ false)
unfolding step
step-settled-Led outcome others s h =
    subst
      (λ n.
        Led outcome s (on_settled outcome n s) × ((on_settled outcome n s).is_submitting ≡ false))
      (sym h) (on_settled-Led outcome others s)

-- The workspace that the picker shows is the one that a submission signs in to, and the one of the
-- Google link.
view-workspace :
    (reason verified reset : String) (s : Login)
    → ((step submit s).attempts
        ≡ record {
          email = s.email;
          password = s.password;
          tenant_id = (view true reason verified reset s).workspace;
        }
          ∷ s.attempts)
      × ((view true reason verified reset s).google_tenant
          ≡ some (view true reason verified reset s).workspace)
      × (has known_tenants (view true reason verified reset s).workspace ≡ true)
unfolding step view
view-workspace reason verified reset s = (refl, refl, known_tenant_of-has s.raw_tenant_id)
