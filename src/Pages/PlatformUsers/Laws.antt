-- ===== src/Pages/PlatformUsers/Laws.antt =====
-- A lapsed session leads to the login page, which says so.
use rust_auth_example.Base.{true, ◌==◌, String, Option, none, some, ◌≡◌, refl, arith}
use rust_auth_example.Json.{Json}
use rust_auth_example.Http.{Response, Outcome, resolved, rejected}
use rust_auth_example.Pages.PlatformLogin.{reason_banner}
use rust_auth_example.Pages.PlatformUsers.{
  UsersRequest, redirected, users_request, users_of, on_response, fetch_platform_users,
}

users_of_not_redirected :
    (body : Option Json) (path reason : String) → users_of body ≡ redirected path reason → ⊥
unfolding users_of
users_of_not_redirected none path reason h = cc
users_of_not_redirected (some value) path reason h = cc

redirect_lem :
    (o : Outcome Response) (path reason : String)
    → on_response o ≡ redirected path reason
    → (res : Response) × (o ≡ resolved res) × (res.status ≡ 401) × (reason ≡ "session-expired")
unfolding on_response
redirect_lem (rejected err) path reason h = cc
redirect_lem (resolved res) path reason h =
    let lapsed : (res.status == 401) ≡ true =
      ground (arith, h, users_of_not_redirected res.body path reason) in
    (res, refl, ground arith, ground arith)

-- The page of the admins redirects only if the API answered 401, and then to an address for which the
-- login page of the platform has a banner.
fetch_platform_users-redirected :
    (fetch : UsersRequest → Outcome Response) (internal_api_url : String) (token : Option String)
    (path reason : String)
    → fetch_platform_users fetch internal_api_url token ≡ redirected path reason
    → ((res : Response) × (fetch (users_request internal_api_url token) ≡ resolved res)
        × (res.status ≡ 401))
      × (reason_banner (some reason) ≡ some "auth.session_expired")
unfolding fetch_platform_users reason_banner
fetch_platform_users-redirected fetch url token path reason h =
    let (res, answered, status, why) =
      redirect_lem (fetch (users_request url token)) path reason h in
    ((res, answered, status), rw why refl)
