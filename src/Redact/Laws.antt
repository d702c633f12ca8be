-- ===== src/Redact/Laws.antt =====
-- What the redactors guarantee, at every depth of a value.
use rust_auth_example.Base.{
  Bool, true, false, String, str_eq, ◌≡◌, refl, ◌⊎◌, inl, inr, ◌↔◌, Bool-cases, arith, has-every,
}
use rust_auth_example.Json.{
  Json, Elems, Fields, null, bool, num, str, arr, obj, nil, cons, end, field,
}
use rust_auth_example.Redact.{
  redact, redact_elems, redact_fields, redacted, secret_keys, redact_value, redact_secrets,
  is_secret_key, value_contains_secret, elems_contain_secret, fields_contain_secret,
}
use rust_auth_example.Redact.Keys.{secret_key_re}

-- The field `key: v` occurs in the value, at some depth.
module _ (key : String) (v : Json) where
  abbrev mutual
    pub Occurs : Json → Type 0
    Occurs (arr xs) = OccursElems xs
    Occurs (obj fs) = OccursFields fs
    Occurs _ = ⊥

    OccursElems : Elems → Type 0
    OccursElems nil = ⊥
    OccursElems (cons w ws) = Occurs w ⊎ OccursElems ws

    OccursFields : Fields → Type 0
    OccursFields end = ⊥
    OccursFields (field k w fs) = ((key ≡ k) × (v ≡ w)) ⊎ Occurs w ⊎ OccursFields fs

module _ (p : String → Bool) (key : String) (v : Json) where
  mutual
    unfolding redact

    redact-Occurs : (j : Json) → Occurs key v (redact p j) → p key ≡ true → v ≡ str redacted
    redact-Occurs null o h = absurd o
    redact-Occurs (bool b) o h = absurd o
    redact-Occurs (num n) o h = absurd o
    redact-Occurs (str s) o h = absurd o
    redact-Occurs (arr xs) o h = redact_elems-Occurs xs o h
    redact-Occurs (obj fs) o h = redact_fields-Occurs fs o h

    redact_elems-Occurs :
        (xs : Elems) → OccursElems key v (redact_elems p xs) → p key ≡ true → v ≡ str redacted
    redact_elems-Occurs nil o h = absurd o
    redact_elems-Occurs (cons w ws) (inl o) h = redact-Occurs w o h
    redact_elems-Occurs (cons w ws) (inr o) h = redact_elems-Occurs ws o h

    redact_fields-Occurs :
        (fs : Fields) → OccursFields key v (redact_fields p fs) → p key ≡ true → v ≡ str redacted
    redact_fields-Occurs end o h = absurd o
    redact_fields-Occurs (field k w fs) o h = elim (Bool-cases (str_eq k "__proto__")) [
      | inl dropped ↦ redact_fields-Occurs fs (rw dropped at o) h
      | inr kept ↦ elim (rw kept at o) [
        | inl (same, val) ↦ ground arith
        | inr (inl inner) ↦ elim (Bool-cases (p k)) [
          | inl e ↦ absurd (rw e at inner)
          | inr e ↦ redact-Occurs w (rw e at inner) h
        ]
        | inr (inr later) ↦ redact_fields-Occurs fs later h
      ]
    ]

-- A value has a secret exactly when some field with a secret key occurs in it.
abbrev pub HasSecret : Json → Type 0
HasSecret j = (key : String) × (v : Json) × Occurs key v j × (secret_key_re key ≡ true)

abbrev ElemsHaveSecret : Elems → Type 0
ElemsHaveSecret xs = (key : String) × (v : Json) × OccursElems key v xs × (secret_key_re key ≡ true)

abbrev FieldsHaveSecret : Fields → Type 0
FieldsHaveSecret fs =
    (key : String) × (v : Json) × OccursFields key v fs × (secret_key_re key ≡ true)

mutual
  unfolding value_contains_secret

  contains_sound : (j : Json) → value_contains_secret j ≡ true → HasSecret j
  contains_sound null h = cc
  contains_sound (bool b) h = cc
  contains_sound (num n) h = cc
  contains_sound (str s) h = cc
  contains_sound (arr xs) h = elems_contain_sound xs h
  contains_sound (obj fs) h = fields_contain_sound fs h

  elems_contain_sound : (xs : Elems) → elems_contain_secret xs ≡ true → ElemsHaveSecret xs
  elems_contain_sound nil h = cc
  elems_contain_sound (cons w ws) h = elim (Bool-cases (value_contains_secret w)) [
    | inl e ↦ (let (k, v, o, s) = contains_sound w e in (k, v, inl o, s))
    | inr e ↦ (let (k, v, o, s) = elems_contain_sound ws (rw e at h) in (k, v, inr o, s))
  ]

  fields_contain_sound : (fs : Fields) → fields_contain_secret fs ≡ true → FieldsHaveSecret fs
  fields_contain_sound end h = cc
  fields_contain_sound (field k w fs) h = elim (Bool-cases (secret_key_re k)) [
    | inl s ↦ (k, w, inl (refl, refl), s)
    | inr n ↦ elim (Bool-cases (value_contains_secret w)) [
      | inl e ↦ (let (k', v, o, s) = contains_sound w e in (k', v, inr (inl o), s))
      | inr e ↦
          (let (k', v, o, s) = fields_contain_sound fs (rw (n, e) at h) in (k', v, inr (inr o), s))
    ]
  ]

mutual
  unfolding value_contains_secret

  contains_complete :
      (key : String) (v : Json) (j : Json)
      → Occurs key v j
      → secret_key_re key ≡ true
      → value_contains_secret j ≡ true
  contains_complete key v null o s = absurd o
  contains_complete key v (bool b) o s = absurd o
  contains_complete key v (num n) o s = absurd o
  contains_complete key v (str t) o s = absurd o
  contains_complete key v (arr xs) o s = elems_contain_complete key v xs o s
  contains_complete key v (obj fs) o s = fields_contain_complete key v fs o s

  elems_contain_complete :
      (key : String) (v : Json) (xs : Elems)
      → OccursElems key v xs
      → secret_key_re key ≡ true
      → elems_contain_secret xs ≡ true
  elems_contain_complete key v nil o s = absurd o
  elems_contain_complete key v (cons w ws) (inl o) s = ground (arith, contains_complete key v w o s)
  elems_contain_complete key v (cons w ws) (inr o) s =
      ground (arith, elems_contain_complete key v ws o s)

  fields_contain_complete :
      (key : String) (v : Json) (fs : Fields)
      → OccursFields key v fs
      → secret_key_re key ≡ true
      → fields_contain_secret fs ≡ true
  fields_contain_complete key v end o s = absurd o
  fields_contain_complete key v (field k w fs) (inl (same, val)) s = ground arith
  fields_contain_complete key v (field k w fs) (inr (inl o)) s =
      ground (arith, contains_complete key v w o s)
  fields_contain_complete key v (field k w fs) (inr (inr o)) s =
      ground (arith, fields_contain_complete key v fs o s)

-- `valueContainsSecret` answers true exactly when a field whose key matches `SECRET_KEY_RE` occurs
-- in the value, at whatever depth.
pub value_contains_secret_iff : (j : Json) → (value_contains_secret j ≡ true) ↔ HasSecret j
value_contains_secret_iff j = (contains_sound j, λ h. contains_complete h.0 h.1 j h.2 h.3)

-- In what `redactSecrets` returns, every field that has a secret key, at whatever depth, holds the
-- redaction marker.
pub redact_secrets-Occurs :
    (key : String) (v j : Json)
    → Occurs key v (redact_secrets j)
    → is_secret_key key ≡ true
    → v ≡ str redacted
unfolding redact_secrets
redact_secrets-Occurs key v j = redact-Occurs is_secret_key key v j

-- Every key that the Trigger Center masks is one that the audit drawer masks too.
secret_key_re_of_is_secret_key :
    (key : String) → is_secret_key key ≡ true → secret_key_re key ≡ true
unfolding is_secret_key secret_key_re
secret_key_re_of_is_secret_key key h = has-every secret_key_re secret_keys key h refl

-- So it is in what `redactValue` returns, for the keys that match `SECRET_KEY_RE`.
pub redact_value-Occurs :
    (key : String) (v j : Json)
    → Occurs key v (redact_value j)
    → secret_key_re key ≡ true
    → v ≡ str redacted
unfolding redact_value
redact_value-Occurs key v j = redact-Occurs secret_key_re key v j

-- A value in which `valueContainsSecret` finds nothing has no field whose key matches.
pub no_secret-Occurs :
    (key : String) (v j : Json)
    → value_contains_secret j ≡ false
    → secret_key_re key ≡ true
    → ¬ Occurs key v j
no_secret-Occurs key v j h s o = let found = contains_complete key v j o s in cc
