-- ===== src/ErrorMessages.antt =====
-- apps/web/lib/error-messages.ts, and the banner of apps/web/components/auth/auth-error.tsx.
pub mod Table
pub mod Laws
mod Tests
use rust_auth_example.Base.{
  ℕ, Bool, true, false, String, Option, none, some, List, [], ◌∷◌, has, str_eq, if◌then◌else◌,
}
use Table.{ErrorSeverity, error, LocalizedAuthError, entry, auth_error_messages}

-- `Locale`
pub data Locale : Type 0 where
  en es : Locale

-- The own property `code` of an object literal
pub own_entry : String → List (String × LocalizedAuthError) → Option LocalizedAuthError
own_entry code [] = none
own_entry code ((key, message) ∷ rest) =
    if str_eq key code then some message else own_entry code rest

-- The names that every object literal inherits from `Object.prototype`
abbrev pub inherited_names : List String
inherited_names =
    "constructor" ∷ "__defineGetter__" ∷ "__defineSetter__" ∷ "hasOwnProperty" ∷ "__lookupGetter__"
    ∷ "__lookupSetter__" ∷ "isPrototypeOf" ∷ "propertyIsEnumerable" ∷ "toString" ∷ "valueOf"
    ∷ "__proto__" ∷ "toLocaleString" ∷ []

-- `GENERIC_FALLBACK`
abbrev pub generic_fallback : LocalizedAuthError
generic_fallback =
    entry "Something went wrong. Please try again." "Algo salió mal. Inténtalo de nuevo." error

-- `ResolvedAuthMessage`; `none` is `undefined`.
pub record ResolvedAuthMessage : Type 0 where
  pub message : Option String
  pub severity : Option ErrorSeverity

-- `entry[locale]`
pub in_locale : Locale → LocalizedAuthError → String
in_locale en found = found.en
in_locale es found = found.es

-- The result for an entry of the table, or the fallback
pub resolve : LocalizedAuthError → Locale → ResolvedAuthMessage
unfolding in_locale
resolve found locale = record {
  message = some (in_locale locale found);
  severity = some found.severity;
}

-- The value of the `??` and what is read of it: an inherited value is not nullish, and has no `en`,
-- `es` or `severity`.
pub resolve_own : Option LocalizedAuthError → String → Locale → ResolvedAuthMessage
unfolding resolve
resolve_own (some found) code locale = resolve found locale
resolve_own none code locale =
    if has inherited_names code
    then record { message = none; severity = none }
    else resolve generic_fallback locale

-- `localizeAuthError`
pub localize_auth_error : String → Locale → ResolvedAuthMessage
unfolding own_entry resolve_own
localize_auth_error code locale = resolve_own (own_entry code auth_error_messages) code locale

-- `messageForCode`
pub message_for_code : String → Option String
unfolding localize_auth_error
message_for_code code = (localize_auth_error code en).message

-- `AuthError`: nothing, or the banner with its attribute and its text.
pub data Banner : Type 0 where
  no_banner : Banner
  alert : (data_error_code : String) → (title : Option String) → Banner

unfoldable pub auth_error : Option String → Banner
unfolding message_for_code
auth_error none = no_banner
auth_error (some code) = alert code (message_for_code code)
