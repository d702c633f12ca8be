-- ===== src/Api/Calls.antt =====
-- The wrappers over `apiFetch` and `apiJson`: apps/web/lib/mfa-api.ts, sessions-api.ts,
-- invitations-api.ts, ws-ticket.ts, audit-api.ts and audit-aggregate.ts.
pub mod Laws
mod Tests
use Prim.Native.String.{◌++◌ as text_append}
use rust_auth_example.Base.{
  ℕ, zero, suc, Bool, true, false, String, Option, none, some, List, [], ◌∷◌, starts_with,
  if◌then◌else◌, str_eq,
}
use rust_auth_example.Json.{
  Json, null, str, arr, obj, Elems, nil, cons, Fields, end, field, lookup, single,
}
use rust_auth_example.Http.{
  Method, get, post, delete, Request, Response, AuthClientError, other_error, Outcome, resolved,
  rejected, ◌>>=◌,
}
use rust_auth_example.Api.{ErrorResponse, api_fetch, api_json}

-- The members of `AUTH_ROUTES` of the package that the wrappers use
pub record Routes : Type 0 where
  pub mfa_setup : String
  pub mfa_verify_enable : String
  pub mfa_disable : String
  pub mfa_recovery_codes : String
  pub sessions_list : String
  pub sessions_revoke_one : String
  pub sessions_revoke_all : String
  pub invitations_create : String
  pub ws_ticket : String

-- A call of one of the wrappers. `query` of `fetch_audit_page` is `Object.entries(query)`, its values
-- as texts.
pub data Call : Type 0 where
  mfa_setup : Call
  mfa_verify_enable : (code : String) → Call
  mfa_disable : (code : String) → Call
  mfa_regenerate_recovery_codes : (code : String) → Call
  list_sessions : Call
  revoke_session : (id : String) → Call
  revoke_all_other_sessions : Call
  create_invitation : (email role : String) → (tenant_name : Option String) → Call
  list_accepted_invitations : Call
  mint_ws_ticket : Call
  fetch_audit_page : (query : List (String × String)) → Call
  fetch_audit_aggregate : Call

-- `text.slice(n)`
pub slice : ℕ → String → String
slice zero text = text
slice (suc n) String.[] = String.[]
slice (suc n) (String.◌∷◌ c text) = slice n text

-- `route.replace('{id}', value)`, which replaces the first occurrence. What `encodeURIComponent`
-- returns holds no `$`, the only character that a replacement gives a meaning.
pub replace_id : String → String → String
unfolding slice
replace_id String.[] value = String.[]
replace_id (String.◌∷◌ c rest) value =
    let later = String.◌∷◌ c (replace_id rest value) in
    if starts_with (String.◌∷◌ c rest) "{id}"
    then text_append value (slice 4 (String.◌∷◌ c rest))
    else later

-- `JSON.stringify(input)`, which leaves out a name that is `undefined`
pub invitation_body : String → String → Option String → Json
invitation_body email role none = obj (field "email" (str email) (field "role" (str role) end))
invitation_body email role (some name) =
    obj (field "email" (str email) (field "role" (str role) (field "tenantName" (str name) end)))

-- `encode` is `encodeURIComponent`, and `query_text` what `URLSearchParams` prints of the entries.
module _ (routes : Routes) (encode : String → String)
    (query_text : List (String × String) → String) where
  pub request_of : Call → Request
  unfolding replace_id invitation_body
  request_of mfa_setup = record { path = routes.mfa_setup; method = post; body = none }
  request_of (mfa_verify_enable code) = record {
    path = routes.mfa_verify_enable;
    method = post;
    body = some (single "code" (str code));
  }
  request_of (mfa_disable code) = record {
    path = routes.mfa_disable;
    method = post;
    body = some (single "code" (str code));
  }
  request_of (mfa_regenerate_recovery_codes code) = record {
    path = routes.mfa_recovery_codes;
    method = post;
    body = some (single "code" (str code));
  }
  request_of list_sessions = record { path = routes.sessions_list; method = get; body = none }
  request_of (revoke_session id) = record {
    path = replace_id routes.sessions_revoke_one (encode id);
    method = delete;
    body = none;
  }
  request_of revoke_all_other_sessions = record {
    path = routes.sessions_revoke_all;
    method = delete;
    body = none;
  }
  request_of (create_invitation email role tenant_name) = record {
    path = routes.invitations_create;
    method = post;
    body = some (invitation_body email role tenant_name);
  }
  request_of list_accepted_invitations = record {
    path =
        text_append "/audit/logs?event="
          (text_append (encode "after_invitation_accepted") "&limit=50");
    method = get;
    body = none;
  }
  request_of mint_ws_ticket = record { path = routes.ws_ticket; method = post; body = none }
  request_of (fetch_audit_page query) = record {
    path = text_append "/audit/logs?" (query_text query);
    method = get;
    body = none;
  }
  request_of fetch_audit_aggregate = record { path = "/audit/aggregate"; method = get; body = none }

-- `value.key` of a value that is not `undefined`: reading it of `null` throws.
pub property : String → Json → Outcome (Option Json)
property key null = rejected other_error
property key (obj fs) = resolved (lookup key fs)
property key other = resolved none

-- `SessionInfo` as it is built; a property that the wire leaves out is `none`.
pub record WireInfo : Type 0 where
  pub id : Option Json
  pub device : Option Json
  pub ip : Option Json
  pub last_activity : String
  pub is_current : Option Json

-- `AcceptedInvitation`
pub record AcceptedInvitation : Type 0 where
  pub email : String
  pub accepted_at : Option Json

-- `typeof row.actor === 'string' ? row.actor : 'unknown'`
pub email_of : Option Json → String
email_of (some (str actor)) = actor
email_of other = "unknown"

pub accepted_of : Json → Outcome AcceptedInvitation
unfolding property email_of
accepted_of row = do
  actor ← property "actor" row
  created ← property "createdAt" row
  resolved (record { email = email_of actor; accepted_at = created })

-- `rows.map(f)` for a function that may throw
pub map_elems {ℓ} : {A : Type ℓ} → (Json → Outcome A) → Elems → Outcome (List A)
map_elems f nil = resolved []
map_elems f (cons v vs) = do a ← f v; rest ← map_elems f vs; resolved (a ∷ rest)

-- `value.map(f)`: any value but an array has no such method.
pub map_value {ℓ} : {A : Type ℓ} → (Json → Outcome A) → Option Json → Outcome (List A)
unfolding map_elems
map_value f (some (arr vs)) = map_elems f vs
map_value f other = rejected other_error

-- `page.data ?? []`
pub data_or_empty : Option Json → Option Json
data_or_empty none = some (arr nil)
data_or_empty (some null) = some (arr nil)
data_or_empty (some value) = some value

-- `to_iso` is `new Date(value).toISOString()`, which throws for a value that is no date.
module _ (to_iso : Option Json → Outcome String) where
  pub session_info : Json → Outcome WireInfo
  unfolding property
  session_info session = do
    id ← property "sessionHash" session
    device ← property "device" session
    ip ← property "ip" session
    last ← property "lastActivityAt" session
    last_activity ← to_iso last
    is_current ← property "isCurrent" session
    resolved (record {
      id = id;
      device = device;
      ip = ip;
      last_activity = last_activity;
      is_current = is_current;
    })

-- What a call resolves to
pub data Result : Type 0 where
  done : Result
  json : Json → Result
  property_of : Option Json → Result
  sessions : List WireInfo → Result
  accepted : List AcceptedInvitation → Result

module _ (routes : Routes) (encode : String → String) (query_text : List (String × String) → String)
    (to_iso : Option Json → Outcome String)
    (new_error : String → ℕ → Option ErrorResponse → AuthClientError)
    (auth_fetch : Request → Outcome Response) where
  abbrev pub request : Call → Request
  request c = request_of routes encode query_text c

  -- What is made of the JSON body of a call that reads it
  pub read : Call → Json → Outcome Result
  unfolding property map_value data_or_empty session_info accepted_of
  read list_sessions body = do
    list ← property "sessions" body
    infos ← map_value (session_info to_iso) list
    resolved (sessions infos)
  read list_accepted_invitations body = do
    rows ← property "data" body
    invitations ← map_value accepted_of (data_or_empty rows)
    resolved (accepted invitations)
  read (mfa_regenerate_recovery_codes code) body = do
    codes ← property "recoveryCodes" body
    resolved (property_of codes)
  read mint_ws_ticket body = do ticket ← property "ticket" body; resolved (property_of ticket)
  read other body = resolved (json body)

  pub send : Call → Outcome Result
  unfolding request_of api_fetch
  send c = do _ ← api_fetch new_error auth_fetch (request c); resolved done

  pub send_and_read : Call → Outcome Result
  unfolding request_of api_json read
  send_and_read c = do body ← api_json new_error auth_fetch (request c); read c body

  -- The wrappers
  pub call : Call → Outcome Result
  unfolding send send_and_read
  call (mfa_verify_enable code) = send (mfa_verify_enable code)
  call (mfa_disable code) = send (mfa_disable code)
  call (revoke_session id) = send (revoke_session id)
  call revoke_all_other_sessions = send revoke_all_other_sessions
  call (create_invitation email role name) = send (create_invitation email role name)
  call other = send_and_read other

-- `buildWsUrl`: `parse_url` is the constructor of `URL`, which throws for a text that is not
-- absolute, and `with_protocol` its setter; `origin` and `protocol` are its properties.
module _ {Url : Type 0} (encode : String → String) (parse_url : String → Option Url)
    (protocol origin : Url → String) (with_protocol : String → Url → Url) where
  pub build_ws_url : (api_url : Option String) → String → String
  build_ws_url api_url ticket =
      let path = text_append "/ws/example?ticket=" (encode ticket) in
      let raw_base = elim api_url as (λ _. String) [ none ↦ "" | some url ↦ url ] in
      elim (parse_url raw_base) [
        | none ↦ path
        | some u ↦
            text_append
              (origin (with_protocol (if str_eq (protocol u) "https:" then "wss:" else "ws:") u))
              path
      ]
