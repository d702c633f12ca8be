-- ===== src/Redact/Tests.antt =====
-- Runs of the two redactors.
use rust_auth_example.Base.{true, false, ◌≡◌, refl}
use rust_auth_example.Json.{Json, null, str, arr, obj, nil, cons, end, field, single}
use rust_auth_example.Redact.{redacted, redact_secrets, redact_value, is_secret_key, redact}
use rust_auth_example.Redact.Keys.{secret_key_re}

-- `{ "list": [{ "otp": "123456", "id": null }] }`
abbrev nested : Json
nested = single "list" (arr (cons (obj (field "otp" (str "123456") (field "id" null end))) nil))

abbrev masked : Json
masked = single "list" (arr (cons (obj (field "otp" (str redacted) (field "id" null end))) nil))

redact_runs : (redact_secrets nested ≡ masked) × (redact_value nested ≡ masked)
unfolding redact_secrets redact is_secret_key redact_value secret_key_re
redact_runs = (refl, refl)

key_runs :
    (secret_key_re "mfa_OTP" ≡ true)
    × (secret_key_re "error code" ≡ true)
    × (secret_key_re "error_code" ≡ false)
    × (is_secret_key "mfa_OTP" ≡ false)
unfolding secret_key_re is_secret_key
key_runs = (refl, refl, refl, refl)

-- The copy has no field `__proto__`.
proto_runs :
    redact_secrets (obj (field "__proto__" (single "id" null) (field "id" null end)))
    ≡ single "id" null
unfolding redact_secrets redact is_secret_key
proto_runs = refl
