-- ===== src/Pages/Account/Laws.antt =====
-- Who sees a profile, and the diagnostics.
use mathlib.Core.Option.{some-injective}
use rust_auth_example.Base.{Bool, Option, none, some, ◌≡◌, refl, sym, ap}
use rust_auth_example.Pages.Overview.{Status, loading_session, unauthenticated, authenticated}
use rust_auth_example.Pages.Account.{User, Profile, profile, profile_of, Screen, account_page}

profile_in : Screen → Option Profile
profile_in (profile p) = some p
profile_in other = none

-- A profile is shown to an authenticated visitor with a user only, and it is the one of this user;
-- the diagnostics come with it outside a production build only.
pub account_page-profile :
    (dev_tooling : Bool) (status : Status) (user : Option User) (p : Profile)
    → account_page dev_tooling status user ≡ profile p
    → (u : User) × (status ≡ authenticated)
      × (user ≡ some u)
      × (p ≡ profile_of dev_tooling u)
      × (p.has_diagnostics ≡ dev_tooling)
unfolding account_page profile_of profile_in
account_page-profile dev_tooling loading_session user p h = cc
account_page-profile dev_tooling unauthenticated user p h = cc
account_page-profile dev_tooling authenticated none p h = cc
account_page-profile dev_tooling authenticated (some u) p h =
    let same = some-injective (profile_of dev_tooling u) p (ap profile_in h) in
    (u, refl, refl, sym same, ap (λ (q : Profile). q.has_diagnostics) (sym same))
