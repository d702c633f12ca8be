-- ===== src/Redact.antt =====
-- The two redactors: `redactSecrets` of apps/web/lib/trigger-actions.ts, and `redactValue` with
-- `valueContainsSecret` of apps/web/components/audit/AuditTable.tsx. They differ in the test alone.
pub mod Keys
pub mod Laws
mod Tests
use rust_auth_example.Base.{
  ℕ, Bool, true, false, ◌||◌, String, List, [], ◌∷◌, has, str_eq, if◌then◌else◌,
}
use rust_auth_example.Json.{
  Json, Elems, Fields, null, bool, num, str, arr, obj, nil, cons, end, field,
}
use Keys.{secret_key_re}

-- `SECRET_KEYS`
abbrev pub secret_keys : List String
secret_keys =
    "accessToken" ∷ "refreshToken" ∷ "mfaTempToken" ∷ "password" ∷ "secret" ∷ "recoveryCodes"
    ∷ "otp" ∷ "token" ∷ "ticket" ∷ []

-- `SECRET_KEYS.has(key)`
unfoldable pub is_secret_key : String → Bool
unfolding has
is_secret_key key = has secret_keys key

-- `REDACTED`
abbrev pub redacted : String
redacted = "<redacted>"

-- The bodies that both redactors share: a copy in which each field with a secret key is masked. The
-- assignment `out['__proto__'] = …` sets the prototype of the copy, or nothing, so that the copy has
-- no such field.
module _ (is_secret : String → Bool) where
  unfoldable mutual
    pub redact : Json → Json
    redact null = null
    redact (bool b) = bool b
    redact (num n) = num n
    redact (str s) = str s
    redact (arr xs) = arr (redact_elems xs)
    redact (obj fs) = obj (redact_fields fs)

    pub redact_elems : Elems → Elems
    redact_elems nil = nil
    redact_elems (cons v vs) = cons (redact v) (redact_elems vs)

    pub redact_fields : Fields → Fields
    redact_fields end = end
    redact_fields (field key entry fs) =
        let rest = redact_fields fs in
        let kept = redact entry in
        if str_eq key "__proto__"
        then rest
        else field key (if is_secret key then str redacted else kept) rest

-- `redactSecrets`
unfoldable pub redact_secrets : Json → Json
redact_secrets = redact is_secret_key

-- `redactValue`, and `redactDetails` after it
unfoldable pub redact_value : Json → Json
redact_value = redact secret_key_re

-- `valueContainsSecret`
unfoldable mutual
  pub value_contains_secret : Json → Bool
  value_contains_secret (arr xs) = elems_contain_secret xs
  value_contains_secret (obj fs) = fields_contain_secret fs
  value_contains_secret _ = false

  pub elems_contain_secret : Elems → Bool
  elems_contain_secret nil = false
  elems_contain_secret (cons v vs) = value_contains_secret v || elems_contain_secret vs

  pub fields_contain_secret : Fields → Bool
  fields_contain_secret end = false
  fields_contain_secret (field k v fs) =
      (secret_key_re k || value_contains_secret v) || fields_contain_secret fs
