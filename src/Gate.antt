-- ===== src/Gate.antt =====
-- The edge gate apps/web/proxy.ts, and the server-side check behind it,
-- apps/web/app/platform/(protected)/layout.tsx.
pub mod Laws
pub mod Layout
mod Tests
use rust_auth_example.Base.{
  Bool, true, false, not, ◌&&◌, ◌||◌, String, Option, none, some, List, [], ◌∷◌, any, str_eq,
  starts_with, eq_iff, ◌≡◌, ◌↔◌, ap, arith, if◌then◌else◌,
}
use rust_auth_example.Http.{Outcome, resolved, rejected}

-- What `verifyJwtToken` and `decodeJwtToken` resolve to: `isValid`, and `payload?.type`.
pub record Decoded : Type 0 where
  pub is_valid : Bool
  pub type : Option String

-- `NextResponse.next()`, the answer of the package's `authProxy`, and a redirect to a login page
-- with its query parameter `reason`.
pub data Answer : Type 0 where
  next : Answer
  delegated : Answer
  redirect : (login_path : String) → (reason : Option String) → Answer

-- `/^\/dashboard(?:\/|$)/`
pub in_dashboard : String → Bool
in_dashboard path = starts_with path "/dashboard/" || str_eq path "/dashboard"

-- `/^\/platform(?:$|\/(?!login(?:\/|$)))/`
pub in_platform : String → Bool
in_platform path =
    str_eq path "/platform"
    || (starts_with path "/platform/"
        && not (starts_with path "/platform/login/" || str_eq path "/platform/login"))

-- `PROTECTED.some((pattern) => pattern.test(pathname))`
pub is_protected : String → Bool
unfolding in_dashboard in_platform
is_protected path = any (λ pattern. pattern path) (in_dashboard ∷ in_platform ∷ [])

-- `const isPlatform`
pub is_platform : String → Bool
is_platform path = starts_with path "/platform"

pub login_path_of : String → String
unfolding is_platform
login_path_of path = if is_platform path then "/platform/login" else "/auth/login"

pub expected_type : String → String
unfolding is_platform
expected_type path = if is_platform path then "platform" else "dashboard"

-- `tokenType !== expectedType`
abbrev pub has_type : Option String → String → Bool
has_type none expected = false
has_type (some t) expected = str_eq t expected

pub has_type_iff : (o : Option String) (t : String) → (has_type o t ≡ true) ↔ (o ≡ some t)
has_type_iff none t = (λ h. cc, λ h. cc)
has_type_iff (some s) t = (λ h. ap some ((eq_iff s t).0 h), λ h. ground (arith, eq_iff s t))

-- A rejection is caught, and leaves `decoded` null.
abbrev caught : Outcome Decoded → Option Decoded
caught (resolved d) = some d
caught (rejected e) = none

-- What follows the verification.
pub judge : String → Option Decoded → Answer
judge path none = redirect (login_path_of path) none
judge path (some d) =
    if not d.is_valid
    then redirect (login_path_of path) none
    else (if has_type d.type (expected_type path)
        then next
        else redirect (login_path_of path) (some "wrong-domain"))

-- `verify` is the package's `verifyJwtToken` under the gate's secret.
module _ (verify : String → Outcome Decoded) where
  pub decode_cookie : Option String → Option Decoded
  decode_cookie none = none
  decode_cookie (some token) = caught (verify token)

  -- `proxy`, of the request's path and its access cookie
  pub proxy : String → Option String → Answer
  proxy path cookie =
      if starts_with path "/api/auth/"
      then delegated
      else (if not (is_protected path) then next else judge path (decode_cookie cookie))
