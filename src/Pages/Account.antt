-- ===== src/Pages/Account.antt =====
-- apps/web/app/(dashboard)/dashboard/account/page.tsx
pub mod Laws
use rust_auth_example.Base.{Bool, true, false, String, Option, none, some}
use rust_auth_example.Pages.Overview.{Status, loading_session, unauthenticated, authenticated}

-- The user of the session, as the page reads it
pub record User : Type 0 where
  pub name : String
  pub email : String
  pub role : String
  pub tenant_id : String
  pub id : String
  pub mfa_enabled : Bool
  pub email_verified : Bool

pub data MfaBadge : Type 0 where
  mfa_on mfa_off : MfaBadge

pub data EmailBadge : Type 0 where
  verified unverified : EmailBadge

-- The profile, and the diagnostics or the notice in their place
pub record Profile : Type 0 where
  pub name : String
  pub email : String
  pub role : String
  pub tenant : String
  pub user_id : String
  pub mfa : MfaBadge
  pub email_state : EmailBadge
  pub has_diagnostics : Bool

pub data Screen : Type 0 where
  skeleton sign_in : Screen
  profile : Profile → Screen

unfoldable pub mfa_badge : Bool → MfaBadge
mfa_badge true = mfa_on
mfa_badge false = mfa_off

unfoldable pub email_badge : Bool → EmailBadge
email_badge true = verified
email_badge false = unverified

unfoldable pub profile_of : (dev_tooling : Bool) → User → Profile
unfolding mfa_badge email_badge
profile_of dev_tooling user = record {
  name = user.name;
  email = user.email;
  role = user.role;
  tenant = user.tenant_id;
  user_id = user.id;
  mfa = mfa_badge user.mfa_enabled;
  email_state = email_badge user.email_verified;
  has_diagnostics = dev_tooling;
}

-- `AccountPage`; `dev_tooling` is `DEV_TOOLING`.
unfoldable pub account_page : (dev_tooling : Bool) → Status → Option User → Screen
unfolding profile_of
account_page dev_tooling loading_session user = skeleton
account_page dev_tooling unauthenticated user = sign_in
account_page dev_tooling authenticated none = sign_in
account_page dev_tooling authenticated (some user) = profile (profile_of dev_tooling user)
