-- ===== src/Api/Calls/Tests.antt =====
-- The wrappers over a server that answers with two bodies.
use Prim.Native.String.{◌++◌ as text_append}
use rust_auth_example.Base.{ℕ, true, String, Option, none, some, List, [], ◌∷◌, ◌≡◌, refl}
use rust_auth_example.Json.{
  Json, null, str, obj, arr, nil, cons, Fields, end, field, lookup, single,
}
use rust_auth_example.Http.{
  Request, Response, AuthClientError, Outcome, resolved, rejected, other_error,
}
use rust_auth_example.Api.{ErrorResponse}
use rust_auth_example.Api.Calls.{
  Routes, WireInfo, request_of, call, accepted, sessions, list_sessions, revoke_session,
  list_accepted_invitations, build_ws_url,
}

abbrev routes : Routes
routes = record {
  mfa_setup = "/auth/mfa/setup";
  mfa_verify_enable = "/auth/mfa/verify-enable";
  mfa_disable = "/auth/mfa/disable";
  mfa_recovery_codes = "/auth/mfa/recovery-codes";
  sessions_list = "/auth/sessions";
  sessions_revoke_one = "/auth/sessions/{id}";
  sessions_revoke_all = "/auth/sessions/all";
  invitations_create = "/auth/invitations";
  ws_ticket = "/auth/ws-ticket";
}

abbrev encode : String → String
encode value = value

abbrev query_text : List (String × String) → String
query_text entries = ""

abbrev to_iso : Option Json → Outcome String
to_iso none = rejected other_error
to_iso (some value) = resolved "2026-01-01T00:00:00.000Z"

abbrev new_error : String → ℕ → Option ErrorResponse → AuthClientError
new_error message status body = record {
  message = message;
  status = status;
  code = none;
  json = null;
}

abbrev wire : Json
wire = obj (field "sessionHash" (str "h1") (field "lastActivityAt" (str "1") end))

-- One session, and an invitation of an actor that is no text
abbrev body : Fields
body =
    field "sessions" (arr (cons wire nil)) (field "data" (arr (cons (single "actor" null) nil)) end)

abbrev answer : Response
answer = record {
  is_ok = true;
  status = 200;
  status_text = "OK";
  retry_after = none;
  body = some (obj body);
}

abbrev server : Request → Outcome Response
server req = resolved answer

abbrev info : WireInfo
info = record {
  id = some (str "h1");
  device = none;
  ip = none;
  last_activity = "2026-01-01T00:00:00.000Z";
  is_current = none;
}

call_runs :
    (call routes encode query_text to_iso new_error server list_sessions
      ≡ resolved (sessions (info ∷ [])))
    × (call routes encode query_text to_iso new_error server list_accepted_invitations
        ≡ resolved (accepted (record { email = "unknown"; accepted_at = none } ∷ [])))
    × ((request_of routes encode query_text (revoke_session "h1")).path ≡ "/auth/sessions/h1")
unfolding call request_of lookup
call_runs = (refl, refl, refl)

-- A URL as its protocol and the rest
build_ws_url_runs :
    (build_ws_url {Url = String × String} encode
        (λ t. some (t, "//api"))
        (λ u. u.0)
        (λ u. text_append u.0 u.1)
        (λ p u. (p, u.1))
        (some "https:")
        "t"
      ≡ "wss://api/ws/example?ticket=t")
    × (build_ws_url {Url = String × String} encode
          (λ t. none)
          (λ u. u.0)
          (λ u. text_append u.0 u.1)
          (λ p u. (p, u.1))
          none
          "t"
        ≡ "/ws/example?ticket=t")
unfolding build_ws_url
build_ws_url_runs = (refl, refl)
