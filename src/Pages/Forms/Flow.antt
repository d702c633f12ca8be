-- ===== src/Pages/Forms/Flow.antt =====
-- The reset of a password over two pages: `onOtpComplete` of the forgot-password page, the store of
-- the verified token, and the page of the new password.
use rust_auth_example.Base.{true, String, some, List, ◌∷◌, ◌≡◌, refl, subst, sym}
use rust_auth_example.Json.{Json}
use rust_auth_example.Http.{Response, resolved}
use rust_auth_example.Pages.{push}
use rust_auth_example.Pages.Stores.{Slot}
use rust_auth_example.Pages.ForgotPassword.{Forgot, verify_settled, verified_token, step}
use rust_auth_example.Pages.ForgotPassword.Laws.{IsGuarded, verify_settled_token}
use rust_auth_example.Pages.Forms.{mount_reset, is_reset_expired}
use rust_auth_example.Pages.Forms.Laws.{ResetEvent, run_reset, IsOwn, run_reset-IsOwn}

-- What the page that is mounted on the slot sends over the events, and what one after it shows
abbrev pub ResetsWith : String → String → List ResetEvent → Slot → Type 0
ResetsWith token raw_tenant es slot =
    IsOwn (some token) raw_tenant
      (run_reset (mount_reset slot).0.0 raw_tenant es (mount_reset slot).0.1).sent
    × (is_reset_expired (mount_reset (mount_reset slot).1).0.0 ≡ true)

held-ResetsWith :
    (token raw_tenant : String) (es : List ResetEvent) → ResetsWith token raw_tenant es (some token)
unfolding mount_reset is_reset_expired
held-ResetsWith token raw_tenant es =
    (run_reset-IsOwn (some token) raw_tenant es (mount_reset (some token)).0.1 tt, refl)

-- A verified code, settled with a token on a page that asked for it, leads to the reset page, which
-- over any events sends this token only, each time for a tenant that is a slug; a page mounted after
-- it finds no token and says that the session expired.
pub verified_resets :
    (res : Response) (body : Json) (token raw_tenant : String) (s : Forgot) (es : List ResetEvent)
    → IsGuarded s
    → s.is_verifying ≡ true
    → res.body ≡ some body
    → verified_token body ≡ some token
    → ((step (verify_settled (resolved res)) s).navigations
        ≡ push "/auth/reset-password" ∷ s.navigations)
      × ResetsWith token raw_tenant es (step (verify_settled (resolved res)) s).slot
verified_resets res body token raw_tenant s es guarded verifying there found =
    let (held, gone, over) = verify_settled_token res body token s guarded verifying there found in
    (gone, subst (ResetsWith token raw_tenant es) (sym held) (held-ResetsWith token raw_tenant es))
