-- ===== src/Pages/Sessions/Tests.antt =====
-- Runs of the sessions page, with two sessions.
use rust_auth_example.Base.{false, String, none, List, [], ◌∷◌, ◌≡◌, refl}
use rust_auth_example.Http.{other_error, resolved, rejected}
use rust_auth_example.Pages.Sessions.{SessionInfo, ready, Sessions, revoke, revoke_settled, run}
use rust_auth_example.Pages.Sessions.Laws.{revoke_loses}

abbrev session : String → SessionInfo
session id = record {
  id = id;
  device = "Firefox";
  ip = "192.0.2.1";
  last_activity = "2026-01-01T00:00:00.000Z";
  is_current = false;
}

abbrev two : List SessionInfo
two = session "a" ∷ session "b" ∷ []

abbrev listing : Sessions
listing = record {
  state = ready two;
  revoking_id = none;
  signing_out_others = false;
  revocations = [];
  loads = 0;
  final_loads = 0;
  sign_outs = 0;
}

revoke_loses_example :
    (run
      (revoke "a"
        ∷ revoke "b"
        ∷ revoke_settled 0 (resolved tt)
        ∷ revoke_settled 0 (rejected other_error)
        ∷ [])
      listing).state
    ≡ ready two
revoke_loses_example = revoke_loses "a" "b" two other_error listing refl
