-- ===== src/Pages/Invitations/Screen.antt =====
-- What components/invitations/InviteForm.tsx and AcceptedInvitations.tsx render.
pub mod Laws
use rust_auth_example.Base.{
  Bool, true, false, String, Option, none, some, List, [], ◌∷◌, map, if◌then◌else◌,
}
use rust_auth_example.Api.Calls.{AcceptedInvitation}
use rust_auth_example.Pages.Invitations.{Invitations, LoadState, loading, error, ready}

-- The items are the emails, each with its link to `mailpit_url`.
pub data Screen : Type 0 where
  skeleton load_failed no_invitations : Screen
  items : List (String × String) → Screen

-- `MAILPIT_URL`
abbrev pub mailpit_url : String
mailpit_url = "http://localhost:8025"

unfoldable pub accepted_invitations : LoadState → Screen
accepted_invitations loading = skeleton
accepted_invitations error = load_failed
accepted_invitations (ready []) = no_invitations
accepted_invitations (ready (invite ∷ rows)) =
    items (map (λ (i : AcceptedInvitation). (i.email, mailpit_url)) (invite ∷ rows))

-- `ROLES`
abbrev pub roles : List String
roles = "user" ∷ "admin" ∷ []

-- `InviteForm`: its inputs, its banners, and its button
pub record InviteForm : Type 0 where
  pub email : String
  pub role : String
  pub options : List String
  pub is_invalid : Bool
  pub validation_error : Option String
  pub error : Option String
  pub success : Option String
  pub button : String
  pub is_disabled : Bool

pub is_some : Option String → Bool
is_some none = false
is_some (some text) = true

unfoldable pub invite_form : Invitations → InviteForm
unfolding is_some
invite_form s = record {
  email = s.email;
  role = s.role;
  options = roles;
  is_invalid = is_some s.validation_error;
  validation_error = s.validation_error;
  error = s.error_code;
  success = s.success;
  button = if s.busy then "Sending…" else "Send invitation";
  is_disabled = s.busy;
}
