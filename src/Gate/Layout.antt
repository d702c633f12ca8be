-- ===== src/Gate/Layout.antt =====
-- `PlatformProtectedLayout` of apps/web/app/platform/(protected)/layout.tsx.
use rust_auth_example.Base.{true, not, String, Option, none, some, ◌≡◌, arith, if◌then◌else◌}
use rust_auth_example.Http.{Outcome, resolved, rejected}
use rust_auth_example.Gate.{Decoded, has_type, has_type_iff}

-- `redirect('/platform/login?reason=…')`, or the shell around the page.
pub data Page : Type 0 where
  to_login : (reason : String) → Page
  shell : Page

check_decoded : Decoded → Page
check_decoded d =
    if not d.is_valid
    then to_login "session-expired"
    else (if has_type d.type "platform" then shell else to_login "wrong-domain")

-- `decode` is the package's `decodeJwtToken`.
module _ (decode : String → Outcome Decoded) where
  unfoldable pub layout : Option String → Page
  unfolding check_decoded
  layout none = to_login "session-expired"
  layout (some token) = elim (decode token) [
    | resolved d ↦ check_decoded d
    | rejected e ↦ to_login "session-expired"
  ]

  pub layout_shell :
      (token : String) (d : Decoded)
      → decode token ≡ resolved d
      → d.is_valid ≡ true
      → d.type ≡ some "platform"
      → layout (some token) ≡ shell
  unfolding layout
  layout_shell token d e v t = ground (arith, has_type_iff d.type "platform")
