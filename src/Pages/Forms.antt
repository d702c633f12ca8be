-- ===== src/Pages/Forms.antt =====
-- The three pages with one form and one request: app/(public)/auth/reset-password/page.tsx,
-- register/page.tsx and accept-invitation/page.tsx of apps/web. `onSubmit` and `accept` read the
-- fields as they are when the form is submitted.
pub mod Screen
pub mod Laws
pub mod Flow
mod Tests
use rust_auth_example.Base.{
  ℕ, zero, suc, Bool, true, false, String, Option, none, some, List, [], ◌∷◌, str_eq, if◌then◌else◌,
}
use rust_auth_example.Http.{Response, Outcome, resolved, rejected, code_of}
use rust_auth_example.Pages.{Navigation, push}
use rust_auth_example.Pages.Stores.{Slot, consume_reset_verified_token}
use rust_auth_example.Pages.Tenant.{tenant_of}

-- The state of such a page, with the requests made and what the router was told (the latest first),
-- and the requests in flight.
pub record Form {ℓ} (A : Type ℓ) : Type ℓ where
  pub error_code : Option String
  pub is_submitting : Bool
  pub sent : List A
  pub navigations : List Navigation
  pub in_flight : ℕ

-- From `setErrorCode(null)` to the `await`
pub submit {ℓ} : {A : Type ℓ} → A → Form A → Form A
submit request s = record s {
  error_code = none;
  is_submitting = true;
  sent = request ∷ s.sent;
  in_flight = suc s.in_flight;
}

on_outcome {ℓ ℓ'} : {A : Type ℓ} {B : Type ℓ'} → String → Outcome B → Form A → Form A
on_outcome path (resolved _) s = record s { navigations = push path ∷ s.navigations }
on_outcome path (rejected err) s = record s { error_code = some (code_of err) }

-- From the `await` on, where `path` is the route of the success
pub settle {ℓ ℓ'} : {A : Type ℓ} {B : Type ℓ'} → String → Outcome B → ℕ → Form A → Form A
unfolding on_outcome
settle path outcome zero s = s
settle path outcome (suc others) s =
    let t = on_outcome path outcome s in record t { is_submitting = false; in_flight = others }

-- reset-password: `resetPassword({ email, tenantId, newPassword, verifiedToken })`
pub record ResetRequest : Type 0 where
  pub email : String
  pub tenant_id : String
  pub new_password : String
  pub verified_token : String

-- The state that each form starts with
abbrev pub blank {ℓ} : {A : Type ℓ} → Form A
blank = record {
  error_code = none;
  is_submitting = false;
  sent = [];
  navigations = [];
  in_flight = 0;
}

-- The reset page as it is mounted: the token that its `useState` initialiser consumed, its form, and
-- the slot after it.
pub mount_reset : Slot → (Option String × Form ResetRequest) × Slot
unfolding consume_reset_verified_token
mount_reset slot = let (token, left) = consume_reset_verified_token slot in ((token, blank), left)

-- `verifiedToken === null`: the page says that the session expired.
pub is_reset_expired : Option String → Bool
is_reset_expired none = true
is_reset_expired (some token) = false

pub submit_reset :
    Option String → (raw_tenant email password : String) → Form ResetRequest → Form ResetRequest
unfolding submit
submit_reset none raw_tenant email password s = s
submit_reset (some token) raw_tenant email password s =
    submit
      (record {
        email = email;
        tenant_id = tenant_of raw_tenant;
        new_password = password;
        verified_token = token;
      })
      s

pub settle_reset : Outcome (Unit {0}) → Form ResetRequest → Form ResetRequest
unfolding settle
settle_reset outcome s = settle "/auth/login" outcome s.in_flight s

-- register: `register({ email, password, name, tenantId })`
pub record RegisterRequest : Type 0 where
  pub email : String
  pub password : String
  pub name : String
  pub tenant_id : String

pub submit_register :
    (raw_tenant email password name : String) → Form RegisterRequest → Form RegisterRequest
unfolding submit
submit_register raw_tenant email password name s =
    submit
      (record { email = email; password = password; name = name; tenant_id = tenant_of raw_tenant })
      s

pub settle_register : Outcome (Unit {0}) → Form RegisterRequest → Form RegisterRequest
unfolding settle
settle_register outcome s = settle "/auth/verify-email" outcome s.in_flight s

-- accept-invitation: the body of the request to `AUTH_ROUTES.INVITATIONS_ACCEPT`
pub record AcceptRequest : Type 0 where
  pub token : String
  pub name : String
  pub password : String

-- `!token`: the page without a token has no form.
pub has_form : Option String → Bool
has_form none = false
has_form (some token) = if str_eq token "" then false else true

-- `accept`, in the form, which is there if `has_form`
pub accept : Option String → (name password : String) → Form AcceptRequest → Form AcceptRequest
unfolding submit has_form
accept none name password s = s
accept (some token) name password s =
    if has_form (some token)
    then submit (record { token = token; name = name; password = password }) s
    else s

-- `authFetch` resolves with the response, whatever its status.
pub settle_accept : Outcome Response → Form AcceptRequest → Form AcceptRequest
unfolding settle
settle_accept outcome s = settle "/dashboard" outcome s.in_flight s
