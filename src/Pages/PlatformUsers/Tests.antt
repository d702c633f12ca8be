-- ===== src/Pages/PlatformUsers/Tests.antt =====
-- The page of the admins with a lapsed session.
use rust_auth_example.Base.{none, some, ◌≡◌, refl}
use rust_auth_example.Http.{rejected, other_error}
use rust_auth_example.Pages.PlatformUsers.{thrown, users_request, fetch_platform_users}

users_runs :
    (fetch_platform_users (λ req. rejected other_error) "http://api" none ≡ thrown)
    × ((users_request "http://api" (some "t")).authorization ≡ some "Bearer t")
unfolding fetch_platform_users users_request
users_runs = (refl, refl)
