-- ===== src/Http.antt =====
-- What the console sees of `fetch`, of promises and of the errors that it catches. These are the
-- types of the browser and of the package @bymax-one/rust-auth, as apps/web reads them.
use rust_auth_example.Base.{ℕ, Bool, String, Option, ◌≡◌, refl, ◌⊎◌, inl, inr, or_else}
use rust_auth_example.Json.{Json}

pub data Method : Type 0 where
  get post delete : Method

-- `fetch(path, init)`, the body as the value that was stringified.
pub record Request : Type 0 where
  pub path : String
  pub method : Method
  pub body : Option Json

-- `body` is what `res.json()` resolves to, `none` if it rejects.
pub record Response : Type 0 where
  pub is_ok : Bool
  pub status : ℕ
  pub status_text : String
  pub retry_after : Option String
  pub body : Option Json

-- `AuthClientError` of the package: the properties that the console reads, and `toJSON()`.
pub record AuthClientError : Type 0 where
  pub message : String
  pub status : ℕ
  pub code : Option String
  pub json : Json

-- A caught value: an instance of `AuthClientError`, or anything else.
pub data Failure : Type 0 where
  auth_error : AuthClientError → Failure
  other_error : Failure

-- A settled promise.
pub data Outcome {ℓ} (A : Type ℓ) : Type ℓ where
  resolved : A → Outcome A
  rejected : Failure → Outcome A

infixl 5 ◌>>=◌
abbrev pub ◌>>=◌ {ℓ κ} : {A : Type ℓ} {B : Type κ} → Outcome A → (A → Outcome B) → Outcome B
resolved a >>= f = f a
rejected e >>= f = rejected e

pub >>=-eq-resolved {ℓ κ} :
    {A : Type ℓ} {B : Type κ} (m : Outcome A) (f : A → Outcome B) {b : B}
    → (m >>= f) ≡ resolved b
    → (a : A) × (m ≡ resolved a) × (f a ≡ resolved b)
>>=-eq-resolved (resolved a) f h = (a, refl, h)
>>=-eq-resolved (rejected e) f h = cc

pub Outcome-cases {ℓ} :
    {A : Type ℓ} (o : Outcome A) → ((a : A) × (o ≡ resolved a)) ⊎ ((e : Failure) × (o ≡ rejected e))
Outcome-cases (resolved a) = inl (a, refl)
Outcome-cases (rejected e) = inr (e, refl)

-- `err instanceof AuthClientError ? (err.code ?? 'auth.internal') : 'auth.internal'`, which every
-- page of the console writes out (`codeOf` in dashboard/security/page.tsx).
unfoldable pub code_of : Failure → String
code_of (auth_error err) = or_else err.code "auth.internal"
code_of other_error = "auth.internal"
