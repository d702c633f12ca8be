-- ===== src/Pages/ForgotPassword/Screen.antt =====
-- What the forgot-password page renders.
use rust_auth_example.Base.{Bool, String, Option, if◌then◌else◌}
use rust_auth_example.Pages.ForgotPassword.{WizardStep, email_step, otp_step, Forgot}

-- The form of a step, with the banner of the error; the email of the OTP step is text.
pub data Screen : Type 0 where
  email_form : (error : Option String) → (email button : String) → (is_disabled : Bool) → Screen
  otp_form : (error : Option String) → (sent_to : String) → Screen

unfoldable pub screen_of : WizardStep → Forgot → Screen
screen_of otp_step s = otp_form s.error_code s.email
screen_of email_step s =
    email_form s.error_code s.email
      (if s.is_submitting then "Sending…" else "Send reset instructions") s.is_submitting

unfoldable pub screen : Forgot → Screen
unfolding screen_of
screen s = screen_of s.wizard_step s
