-- ===== src/Api/Tests.antt =====
-- Runs of the throw-on-failure helpers.
use rust_auth_example.Base.{
  ℕ, true, false, String, Option, none, some, ◌≡◌, refl, ◌↔◌, str_eq, if◌then◌else◌,
}
use rust_auth_example.Json.{Json, null, str, obj, end, field, single, lookup}
use rust_auth_example.Http.{
  get, Request, Response, AuthClientError, other_error, Outcome, resolved, rejected,
}
use rust_auth_example.Api.{ErrorResponse, api_fetch}
use rust_auth_example.Api.Laws.{HasNullError, api_fetch_other_iff}

-- A constructor of `AuthClientError` that keeps what it is given.
abbrev code_of_body : Option ErrorResponse → Option String
code_of_body none = none
code_of_body (some body) = some body.code

abbrev build : String → ℕ → Option ErrorResponse → AuthClientError
build message status body = record {
  message = message;
  status = status;
  code = code_of_body body;
  json = null;
}

abbrev reply : Json → Response
reply body = record {
  is_ok = false;
  status = 401;
  status_text = "";
  retry_after = none;
  body = some body;
}

abbrev accepted : Response
accepted = record {
  is_ok = true;
  status = 200;
  status_text = "OK";
  retry_after = none;
  body = some null;
}

abbrev envelope : Json
envelope =
    single "error" (obj (field "code" (str "auth.refused") (field "message" (str "No.") end)))

-- A server with one page that answers, one that refuses, and one whose `error` is `null`.
abbrev server : Request → Outcome Response
server req =
    if str_eq req.path "/ok"
    then resolved accepted
    else (if str_eq req.path "/null"
        then resolved (reply (single "error" null))
        else resolved (reply envelope))

abbrev to : String → Request
to path = record { path = path; method = get; body = none }

api_fetch_runs :
    (api_fetch build server (to "/ok") ≡ resolved accepted)
    × (api_fetch build server (to "/null") ≡ rejected other_error)
unfolding api_fetch lookup
api_fetch_runs = (refl, refl)

api_fetch_other_iff_example :
    (api_fetch build server (to "/null") ≡ rejected other_error)
    ↔ HasNullError (reply (single "error" null))
api_fetch_other_iff_example =
    api_fetch_other_iff build server (to "/null") (reply (single "error" null)) refl refl
