-- ===== src/Pages/Sessions/Table/Tests.antt =====
-- The table of two devices.
use rust_auth_example.Base.{
  Bool, true, false, String, none, some, List, [], ◌∷◌, ◌≡◌, refl, if◌then◌else◌,
}
use rust_auth_example.Pages.Sessions.{SessionInfo, Sessions, ready}
use rust_auth_example.Pages.Sessions.Table.{
  table, screen_of, only_this, revoke_button, this_device, can_sign_out, Row,
}

abbrev session : String → Bool → SessionInfo
session id is_current = record {
  id = id;
  device = "laptop";
  ip = "::1";
  last_activity = "2026-01-01T00:00:00.000Z";
  is_current = is_current;
}

abbrev two : List SessionInfo
two = session "other" false ∷ session "mine" true ∷ []

abbrev row : String → Bool → Row
row id current = record {
  device = "laptop";
  ip = "::1";
  last_activity = "2026-01-01T00:00:00.000Z";
  action = if current then this_device else revoke_button id true;
}

abbrev leaving : Sessions
leaving = record {
  state = ready two;
  revoking_id = none;
  signing_out_others = true;
  revocations = [];
  loads = 0;
  final_loads = 0;
  sign_outs = 1;
}

table_runs :
    (table (λ t. t) (some "other") two ≡ row "mine" true ∷ row "other" false ∷ [])
    × (screen_of (λ t. t) none (ready []) ≡ only_this [])
    × (can_sign_out leaving ≡ false)
unfolding table screen_of can_sign_out
table_runs = (refl, refl, refl)
