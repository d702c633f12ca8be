-- ===== src/Pages/Oauth.antt =====
-- apps/web/lib/oauth.ts, and the panel of app/(dashboard)/dashboard/oauth/page.tsx over
-- components/oauth/DecisionTrace.tsx.
pub mod Laws
mod Tests
use Prim.Native.String.{◌++◌ as text_append}
use rust_auth_example.Base.{
  Bool, true, false, not, ◌||◌, String, Option, none, some, or_else, List, [], ◌∷◌, has, str_eq,
  if◌then◌else◌,
}
use rust_auth_example.ErrorMessages.{Banner, no_banner, auth_error}

-- `isGoogleOAuthEnabled`, over the variable of the environment
pub is_google_oauth_enabled : Option String → Bool
is_google_oauth_enabled none = false
is_google_oauth_enabled (some value) = str_eq value "true"

-- `googleInitiateUrl`: `encode` is `encodeURIComponent`.
pub google_initiate_url : (String → String) → (api_url : Option String) → String → String
google_initiate_url encode api_url tenant_id =
    text_append (or_else api_url "") (text_append "/auth/oauth/google?tenantId=" (encode tenant_id))

-- `OAuthCallbackTrace`: the two texts, which `as` claims to be a decision and a branch
pub record CallbackTrace : Type 0 where
  pub decision : String
  pub branch : String

-- `DECISIONS` and `BRANCHES`
abbrev pub decisions : List String
decisions = "created" ∷ "linked" ∷ []

abbrev pub branches : List String
branches = "authenticated" ∷ "redirect" ∷ "mfa_challenge" ∷ []

-- `parseCallbackTrace`
pub parse_callback_trace : Option String → Option String → Option CallbackTrace
parse_callback_trace (some decision) (some branch) =
    if not (has decisions decision) || not (has branches branch)
    then none
    else some (record { decision = decision; branch = branch })
parse_callback_trace (some decision) none = none
parse_callback_trace none branch = none

-- `record[key]` of a table of labels; `none` is `undefined`.
pub label_in : List (String × String) → String → Option String
label_in [] key = none
label_in ((k, label) ∷ rest) key = if str_eq k key then some label else label_in rest key

-- The labels of `DECISION_META`, and `BRANCH_LABEL`
abbrev pub decision_labels : List (String × String)
decision_labels = ("created", "Created a new user") ∷ ("linked", "Linked to an existing user") ∷ []

abbrev pub branch_labels : List (String × String)
branch_labels =
    ("authenticated", "Authenticated session")
    ∷ ("redirect", "Redirect")
    ∷ ("mfa_challenge", "MFA challenge")
    ∷ []

-- `DecisionTrace`: both texts that it shows; `meta.label` of an unknown decision would throw.
pub decision_trace : CallbackTrace → Option String × Option String
unfolding label_in
decision_trace trace =
    (label_in decision_labels trace.decision, label_in branch_labels trace.branch)

-- The panel: the banner, the address of the button if it is there, and the trace
pub record Panel : Type 0 where
  pub banner : Banner
  pub initiate : Option String
  pub trace : Option (Option String × Option String)

pub trace_of : Option CallbackTrace → Option (Option String × Option String)
unfolding decision_trace
trace_of none = none
trace_of (some trace) = some (decision_trace trace)

-- `OAuthPanelPage`, over the query parameters and the environment
pub panel :
    (String → String) → (enabled api_url tenant decision branch error_code : Option String) → Panel
unfolding trace_of parse_callback_trace google_initiate_url is_google_oauth_enabled
panel encode enabled api_url tenant decision branch error_code = record {
  banner = auth_error error_code;
  initiate =
      if is_google_oauth_enabled enabled
      then some (google_initiate_url encode api_url (or_else tenant "acme"))
      else none;
  trace = trace_of (parse_callback_trace decision branch);
}
