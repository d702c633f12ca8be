-- ===== src/Diagnostics/Inspector.antt =====
-- `TokenInspectorCard` of apps/web/components/account/DiagnosticsMatrix.tsx, cut at its two awaits.
use rust_auth_example.Base.{
  ℕ, zero, suc, Bool, true, false, String, Option, none, some, List, [], ◌∷◌, every, codes,
  is_space, if◌then◌else◌,
}
use rust_auth_example.Json.{Json, null, bool, str, obj, lookup, single}
use rust_auth_example.Http.{post, Request, Response, Outcome, resolved, rejected}

-- `token.trim() === ''`
unfoldable pub is_blank : String → Bool
unfolding is_space
is_blank token = every is_space (codes token)

pub record Inspector : Type 0 where
  pub token : String
  pub result : Option Json
  pub error : Option String
  pub busy : Bool
  pub sent : List Request
  pub fetches : ℕ
  pub bodies : ℕ

unfoldable pub initial : Inspector
initial = record {
  token = "";
  result = none;
  error = none;
  busy = false;
  sent = [];
  fetches = 0;
  bodies = 0;
}

pub data Event : Type 0 where
  type_token : String → Event
  inspect : Event
  fetch_settled : Outcome Response → Event
  body_settled : Outcome Json → Event

-- The request of `inspect`
unfoldable pub inspect_request : String → Request
inspect_request token = record {
  path = "/api/diagnostics/inspect-token";
  method = post;
  body = some (single "token" (str token));
}

-- `inspect`, up to its first `await`; the button is disabled while it is busy.
unfoldable pub on_inspect : Inspector → Inspector
unfolding is_blank inspect_request
on_inspect s =
    if s.busy
    then s
    else (if is_blank s.token
        then record s { error = some "Paste a JWT to inspect."; result = none }
        else record s {
          error = none;
          result = none;
          busy = true;
          sent = inspect_request s.token ∷ s.sent;
          fetches = suc s.fetches;
        })

abbrev pub failed : Inspector → Inspector
failed s = record s { error = some "Could not inspect the token."; busy = false }

-- What follows `await fetch`
unfoldable pub on_fetch_settled : Outcome Response → ℕ → Inspector → Inspector
on_fetch_settled outcome zero s = s
on_fetch_settled (rejected err) (suc others) s = failed (record s { fetches = others })
on_fetch_settled (resolved res) (suc others) s =
    if res.is_ok
    then record s { fetches = others; bodies = suc s.bodies }
    else failed (record s { fetches = others })

-- `setResult` with the body that was parsed; the JSON `null` is the state `null`.
unfoldable pub result_of : Json → Option Json
result_of null = none
result_of value = some value

-- What follows `await res.json()`
unfoldable pub on_body_settled : Outcome Json → ℕ → Inspector → Inspector
unfolding result_of
on_body_settled outcome zero s = s
on_body_settled (rejected err) (suc others) s = failed (record s { bodies = others })
on_body_settled (resolved value) (suc others) s = record s {
  result = result_of value;
  busy = false;
  bodies = others;
}

unfoldable pub step : Event → Inspector → Inspector
unfolding on_inspect on_fetch_settled on_body_settled
step (type_token token) s = record s { token = token }
step inspect s = on_inspect s
step (fetch_settled outcome) s = on_fetch_settled outcome s.fetches s
step (body_settled outcome) s = on_body_settled outcome s.bodies s

unfoldable pub run : List Event → Inspector → Inspector
run [] s = s
run (e ∷ es) s = run es (step e s)

-- `value?.key`
unfoldable pub optional_field : String → Option Json → Option Json
optional_field key (some (obj fs)) = lookup key fs
optional_field key other = none

-- `value === true`
unfoldable pub is_true : Option Json → Bool
is_true (some (bool b)) = b
is_true other = false

-- `value ?? 'unknown'`
pub or_unknown : Option Json → Json
or_unknown none = str "unknown"
or_unknown (some null) = str "unknown"
or_unknown (some value) = value

-- The badge below the button, with the algorithm beside it
pub data Badge : Type 0 where
  no_badge : Badge
  signature_valid : (alg : Json) → Badge
  signature_rejected : (alg : Json) → Badge

unfoldable pub badge_of : Option Json → Badge
unfolding optional_field is_true or_unknown lookup
badge_of none = no_badge
badge_of (some value) =
    let alg =
      or_unknown
        (optional_field "alg" (optional_field "header" (optional_field "decoded" (some value)))) in
    if is_true (optional_field "verified" (some value))
    then signature_valid alg
    else signature_rejected alg

unfoldable pub badge : Inspector → Badge
unfolding badge_of
badge s = badge_of s.result
