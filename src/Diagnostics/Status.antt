-- ===== src/Diagnostics/Status.antt =====
-- The status that the inspection route answers with.
use rust_auth_example.Base.{
  Bool, String, Option, none, some, or_else, ◌≡◌, ◌↔◌, ◌≢◌, refl, arith, str_eq, eq_iff, Bool-cases,
  inl, inr,
}
use rust_auth_example.Json.{Json, null, bool, num, str, arr, obj}
use rust_auth_example.Http.{Outcome, resolved, rejected}
use rust_auth_example.Diagnostics.{
  TokenField, thrown, token_value, token_of, inspect_field, inspect_decoded, inspect_token, report,
  refuse,
}

module _ (decode : String → Outcome Json) (verify : String → Option String → Outcome Bool) where
  pub inspect_decoded_status :
      (secret : Option String) (token : String) (o : Outcome Json)
      → (inspect_decoded decode verify secret token o).status ≡ 200
  unfolding inspect_decoded report
  inspect_decoded_status secret token (resolved decoded) = refl
  inspect_decoded_status secret token (rejected err) = refl

  inspect_field_status :
      (secret : Option String) (f : TokenField)
      → ((inspect_field decode verify secret f).status ≡ 200)
        ↔ ((token : String) × (f ≡ token_value (some (str token))) × (token ≢ ""))
  unfolding inspect_field refuse
  inspect_field_status secret thrown = (λ e. ground arith, λ w. ground (arith, w.1))
  inspect_field_status secret (token_value none) = (λ e. ground arith, λ w. ground (arith, w.1))
  inspect_field_status secret (token_value (some (str token))) =
      elim (Bool-cases (str_eq token "")) [
        | inl blank ↦ (
          λ e. ground (arith, blank),
          λ w. absurd (w.2 (ground (arith, w.1, eq_iff token "", blank))),
        )
        | inr filled ↦ (
          λ e. (token, refl, λ e0. ground (arith, eq_iff token "")),
          λ w. rw filled (inspect_decoded_status secret token (decode token)),
        )
      ]
  inspect_field_status secret (token_value (some null)) =
      (λ e. ground arith, λ w. ground (arith, w.1))
  inspect_field_status secret (token_value (some (bool b))) =
      (λ e. ground arith, λ w. ground (arith, w.1))
  inspect_field_status secret (token_value (some (num n))) =
      (λ e. ground arith, λ w. ground (arith, w.1))
  inspect_field_status secret (token_value (some (arr vs))) =
      (λ e. ground arith, λ w. ground (arith, w.1))
  inspect_field_status secret (token_value (some (obj fs))) =
      (λ e. ground arith, λ w. ground (arith, w.1))

  -- Outside production the route answers `200` exactly if the body is an object with a text as its
  -- `token` that is not empty; in production it never does.
  inspect_token_status :
      (node_env secret : Option String) (body : Option Json)
      → ((inspect_token decode verify node_env secret body).status ≡ 200) ↔ (
          (or_else node_env "" ≢ "production")
          × ((token : String) × (token_of body ≡ token_value (some (str token))) × (token ≢ "")))
  unfolding inspect_token
  inspect_token_status node_env secret body =
      elim (Bool-cases (str_eq (or_else node_env "") "production")) [
        | inl production ↦ (
          λ e. ground (arith, production),
          λ w. absurd (w.0 ((eq_iff (or_else node_env "") "production").0 production)),
        )
        | inr other ↦ (
          λ e. (
            λ p. ground (arith, eq_iff (or_else node_env "") "production"),
            (inspect_field_status secret (token_of body)).0 (rw other at e),
          ),
          λ w. rw other ((inspect_field_status secret (token_of body)).1 w.1),
        )
      ]
