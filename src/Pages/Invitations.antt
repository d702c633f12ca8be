-- ===== src/Pages/Invitations.antt =====
-- apps/web/components/invitations/InviteForm.tsx and AcceptedInvitations.tsx, on the page
-- app/(dashboard)/dashboard/invitations/page.tsx, cut at their awaits.
pub mod Screen
pub mod Laws
pub mod Email
mod Tests
use Prim.Native.String.{◌++◌ as text_append}
use rust_auth_example.Base.{
  ℕ, zero, suc, ◌==◌, Bool, true, false, not, ◌&&◌, ◌||◌, String, Option, none, some, List, [], ◌∷◌,
  ◌++◌, codes, every, is_space, if◌then◌else◌,
}
use rust_auth_example.Http.{Outcome, resolved, rejected, code_of}
use rust_auth_example.Api.Calls.{AcceptedInvitation}

-- `[^\s@]` on the code of a character
pub is_plain : ℕ → Bool
unfolding is_space
is_plain c = not (is_space c) && not (c == 64)

-- Whether a dot stands before the last character
pub has_dot : List ℕ → Bool
has_dot [] = false
has_dot (c ∷ []) = false
has_dot (c ∷ d ∷ rest) = c == 46 || has_dot (d ∷ rest)

-- `[^\s@]+\.[^\s@]+` to the end
pub is_domain : List ℕ → Bool
unfolding has_dot
is_domain [] = false
is_domain (c ∷ rest) = is_plain c && every is_plain rest && has_dot rest

-- The rest of the first `[^\s@]+`, the `@` and the domain
pub is_after_first : List ℕ → Bool
unfolding is_domain
is_after_first [] = false
is_after_first (c ∷ rest) =
    let later = is_after_first rest in if c == 64 then is_domain rest else is_plain c && later

pub is_email : List ℕ → Bool
unfolding is_after_first
is_email [] = false
is_email (c ∷ rest) = is_plain c && is_after_first rest

-- `EMAIL_RE.test(email)`
pub email_re : String → Bool
unfolding is_email
email_re email = is_email (codes email)

-- `LoadState` of the list
pub data LoadState : Type 0 where
  loading error : LoadState
  ready : (rows : List AcceptedInvitation) → LoadState

-- An invitation that was sent to the API
pub record Invitation : Type 0 where
  pub email : String
  pub role : String

-- The state of the form, the page's key and the list, with the invitations in flight, all that were
-- sent, and the loads in flight.
pub record Invitations : Type 0 where
  pub email : String
  pub role : String
  pub error_code : Option String
  pub validation_error : Option String
  pub success : Option String
  pub busy : Bool
  pub in_flight : List Invitation
  pub sent : List Invitation
  pub refresh_key : ℕ
  pub accepted : LoadState
  pub loads : ℕ

pub initial : Invitations
initial = record {
  email = "";
  role = "user";
  error_code = none;
  validation_error = none;
  success = none;
  busy = false;
  in_flight = [];
  sent = [];
  refresh_key = 0;
  accepted = loading;
  loads = 1;
}

-- `choose_role` is given a member of `ROLES`.
pub data Event : Type 0 where
  type_email : String → Event
  choose_role : String → Event
  submit : Event
  invite_settled : Outcome (Unit {0}) → Event
  list_settled : Outcome (List AcceptedInvitation) → Event

-- `submit`, up to its `await`; the button is disabled while the form is busy.
pub on_submit : Invitations → Invitations
on_submit s =
    if s.busy
    then s
    else (if email_re s.email
        then record s {
          error_code = none;
          validation_error = none;
          success = none;
          busy = true;
          in_flight = record { email = s.email; role = s.role } ∷ s.in_flight;
          sent = record { email = s.email; role = s.role } ∷ s.sent;
        }
        else record s {
          error_code = none;
          validation_error = some "Enter a valid email address.";
          success = none;
        })

-- `submit`, after its `await`: `onInvited` bumps the key, and the list's effect loads again.
pub on_invite_settled : Outcome (Unit {0}) → List Invitation → Invitations → Invitations
on_invite_settled outcome [] s = s
on_invite_settled (resolved _) (invitation ∷ others) s = record s {
  success = some (text_append "Invitation sent to " (text_append invitation.email "."));
  email = "";
  busy = false;
  in_flight = others;
  refresh_key = suc s.refresh_key;
  accepted = loading;
  loads = suc s.loads;
}
on_invite_settled (rejected err) (invitation ∷ others) s = record s {
  error_code = some (code_of err);
  busy = false;
  in_flight = others;
}

-- `.then` and `.catch` of a load
pub on_list_settled : Outcome (List AcceptedInvitation) → ℕ → Invitations → Invitations
on_list_settled outcome zero s = s
on_list_settled (resolved rows) (suc others) s = record s { accepted = ready rows; loads = others }
on_list_settled (rejected err) (suc others) s = record s { accepted = error; loads = others }

pub step : Event → Invitations → Invitations
unfolding on_submit on_invite_settled on_list_settled
step (type_email email) s = record s { email = email }
step (choose_role role) s = record s { role = role }
step submit s = on_submit s
step (invite_settled outcome) s = on_invite_settled outcome s.in_flight s
step (list_settled outcome) s = on_list_settled outcome s.loads s

pub run : List Event → Invitations → Invitations
run [] s = s
run (e ∷ es) s = run es (step e s)
