-- ===== src/Pages/Forms/Screen.antt =====
-- What the three pages render; a text of the page is left out where it is always the same.
use rust_auth_example.Base.{String, Option, List, [], ◌∷◌, Bool, if◌then◌else◌}
use rust_auth_example.Pages.Forms.{
  Form, ResetRequest, RegisterRequest, AcceptRequest, is_reset_expired, has_form,
}

-- An input of a form, by its id, its type and its value
pub record Input : Type 0 where
  pub id : String
  pub kind : String
  pub value : String

-- The forms, and what stands there instead: a link to a new reset, or the advice to open the link of
-- the invitation.
pub data Screen : Type 0 where
  form :
      (error : Option String)
      → (inputs : List Input) → (button : String) → (is_disabled : Bool) → Screen
  reset_expired no_invitation : Screen

abbrev input : (id kind value : String) → Input
input id kind value = record { id = id; kind = kind; value = value }

pub form_of {ℓ} : {A : Type ℓ} → List Input → (busy idle : String) → Form A → Screen
form_of inputs busy idle s =
    form s.error_code inputs (if s.is_submitting then busy else idle) s.is_submitting

unfoldable pub register_screen : (name email password : String) → Form RegisterRequest → Screen
unfolding form_of
register_screen name email password s =
    form_of
      (input "register-name" "text" name
        ∷ input "register-email" "email" email
        ∷ input "register-password" "password" password
        ∷ [])
      "Creating account…" "Create account" s

unfoldable pub accept_screen :
    Option String → (name password : String) → Form AcceptRequest → Screen
unfolding form_of
accept_screen token name password s =
    if has_form token
    then form_of (input "inv-name" "text" name ∷ input "inv-password" "password" password ∷ [])
        "Activating…" "Activate account" s
    else no_invitation

unfoldable pub reset_screen :
    Option String → (email new_password : String) → Form ResetRequest → Screen
unfolding form_of
reset_screen token email new_password s =
    if is_reset_expired token
    then reset_expired
    else form_of (input "rp-email" "email" email ∷ input "rp-password" "password" new_password ∷ [])
        "Saving…" "Set new password" s
