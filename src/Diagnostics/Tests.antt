-- ===== src/Diagnostics/Tests.antt =====
-- The inspection of concrete tokens, and the cards of the matrix.
use rust_auth_example.Base.{String, Bool, true, Option, none, some, or_else, ◌≡◌, ◌≢◌, ◌↔◌, refl}
use rust_auth_example.Json.{Json, null, str, arr, nil, cons, single}
use rust_auth_example.Http.{Outcome, resolved, rejected, other_error, get}
use rust_auth_example.Diagnostics.{inspect_token}
use rust_auth_example.Diagnostics.Inspector.{
  Inspector, initial, type_token, step, run, badge, inspect_request, signature_valid,
  signature_rejected, no_badge, is_blank,
}
use rust_auth_example.Diagnostics.Matrix.{
  hash_strength_request, force_lockout_request, hooks_request, hook_count, of_length,
}
use rust_auth_example.Diagnostics.Laws.{IsRejected, answered, is_valid, badge-is_valid_iff}

-- A decoder that refuses one text, and a verifier that accepts one token under one secret
abbrev decoding : String → Outcome Json
decoding token = resolved (single "header" (single "alg" (str token)))

abbrev verifying : String → Option String → Outcome Bool
verifying token none = rejected other_error
verifying token (some secret) = resolved true

abbrev development : Option String
development = some "development"

abbrev pasted : Inspector
pasted = step (type_token "HS256") initial

badge_runs :
    (badge (
        run
          (answered (
            inspect_token decoding verifying none (some "s") (some (single "token" (str "HS256")))))
          pasted)
      ≡ signature_valid (str "HS256"))
    × (badge (
          run
            (answered
              (inspect_token decoding verifying none none (some (single "token" (str "HS256")))))
            pasted)
        ≡ signature_rejected (str "HS256"))
unfolding badge run step initial inspect_token
badge_runs = (refl, refl)

matrix_requests :
    (hash_strength_request.path ≡ "/diagnostics/hash-strength")
    × (force_lockout_request.path ≡ "/diagnostics/force-lockout")
    × (hooks_request.method ≡ get)
    × (hook_count (arr (cons null (cons null nil))) ≡ of_length 2)
unfolding hash_strength_request force_lockout_request hooks_request hook_count
matrix_requests = (refl, refl, refl, refl)

abbrev inspected : Inspector
inspected =
    run
      (answered (
        inspect_token decoding verifying development (some "s")
          (inspect_request pasted.token).body))
      pasted

badge-is_valid_iff_example :
    ((is_valid (badge inspected) ≡ true) ↔ (
      (or_else development "" ≢ "production")
      × ((decoded : Json) × (decoding pasted.token ≡ resolved decoded))
      × (verifying pasted.token (some "s") ≡ resolved true)))
    × (or_else development "" ≢ "production"
        → IsRejected decoding verifying (some "s") pasted.token
        → (alg : Json) × (badge inspected ≡ signature_rejected alg))
    × (or_else development "" ≡ "production" → badge inspected ≡ no_badge)
unfolding step initial is_blank
badge-is_valid_iff_example =
    badge-is_valid_iff decoding verifying development (some "s") pasted (refl, refl, refl, refl)
