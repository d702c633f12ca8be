-- ===== src/Pages/PlatformUsers.antt =====
-- `fetchPlatformUsers` of apps/web/app/platform/(protected)/users/page.tsx.
pub mod Table
pub mod Laws
mod Tests
use Prim.Native.String.{◌++◌ as text_append}
use rust_auth_example.Base.{ℕ, Bool, true, false, ◌==◌, String, Option, none, some, if◌then◌else◌}
use rust_auth_example.Json.{Json}
use rust_auth_example.Http.{Response, Outcome, resolved, rejected}

-- The request to the internal API, with its header `Authorization`
pub record UsersRequest : Type 0 where
  pub url : String
  pub authorization : Option String

-- What the function does: it redirects to a path with a `reason`, throws, or returns the list as the
-- JSON that came.
pub data Fetched : Type 0 where
  redirected : (path reason : String) → Fetched
  thrown : Fetched
  users : Json → Fetched

-- `Bearer ${token}`
pub authorization_of : Option String → Option String
authorization_of none = none
authorization_of (some token) = some (text_append "Bearer " token)

pub users_request : String → Option String → UsersRequest
unfolding authorization_of
users_request internal_api_url token = record {
  url = text_append internal_api_url "/platform/users";
  authorization = authorization_of token;
}

-- `await res.json()`
pub users_of : Option Json → Fetched
users_of none = thrown
users_of (some value) = users value

-- What follows the `await` of `fetch`
pub on_response : Outcome Response → Fetched
unfolding users_of
on_response (rejected err) = thrown
on_response (resolved res) =
    if res.status == 401
    then redirected "/platform/login" "session-expired"
    else (if res.is_ok then users_of res.body else thrown)

-- `fetchPlatformUsers`: `token` is the access cookie.
pub fetch_platform_users :
    (UsersRequest → Outcome Response)
    → (internal_api_url : String) → (token : Option String) → Fetched
unfolding on_response users_request
fetch_platform_users fetch internal_api_url token =
    on_response (fetch (users_request internal_api_url token))
