-- ===== src/Platform/Tests.antt =====
-- Runs of the platform client.
use rust_auth_example.Base.{ℕ, false, String, Option, none, some, ◌≡◌}
use rust_auth_example.Json.{null}
use rust_auth_example.Http.{Request, Response, AuthClientError, Outcome, resolved}
use rust_auth_example.Api
use rust_auth_example.Api.{ErrorResponse}
use rust_auth_example.Platform.{logout, request_of, platform_api_fetch}
use rust_auth_example.Platform.Laws.{platform_api_fetch-eq-api_fetch}

abbrev build : String → ℕ → Option ErrorResponse → AuthClientError
build message status body = record { message = message; status = status; code = none; json = null }

abbrev refused : Response
refused = record {
  is_ok = false;
  status = 401;
  status_text = "";
  retry_after = none;
  body = some null;
}

abbrev refusing : Request → Outcome Response
refusing req = resolved refused

platform_api_fetch-eq-api_fetch_example :
    platform_api_fetch build refusing (request_of logout)
    ≡ Api.api_fetch build refusing (request_of logout)
platform_api_fetch-eq-api_fetch_example =
    platform_api_fetch-eq-api_fetch build refusing (request_of logout)
