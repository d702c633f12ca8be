-- ===== src/ErrorMessages/Laws.antt =====
-- Which codes have a message of their own, which fall back, and which have none.
use rust_auth_example.Base.{
  Bool, true, false, not, ◌&&◌, is_some, String, Option, none, some, List, [], ◌∷◌, ◌≡◌, ◌↔◌, refl,
  sym, ap, ◌∙◌, arith, inl, inr, Bool-cases, Option-cases, has, has-every, every, str_eq, eq_iff,
}
use mathlib.Core.List.{Memᴰ}
use rust_auth_example.ErrorMessages.Table.{LocalizedAuthError, auth_error_messages}
use rust_auth_example.ErrorMessages.{
  en, es, own_entry, in_locale, resolve_own, inherited_names, resolve, localize_auth_error,
  message_for_code,
}

-- No key stands twice in the object literal.
abbrev are_distinct : List (String × LocalizedAuthError) → Bool
are_distinct [] = true
are_distinct ((key, message) ∷ rest) = not (is_some (own_entry key rest)) && are_distinct rest

own_entry-mem :
    (code : String) (found : LocalizedAuthError) (table : List (String × LocalizedAuthError))
    → Memᴰ (code, found) table
    → is_some (own_entry code table) ≡ true
unfolding own_entry
own_entry-mem code found [] m = elim m [ ]
own_entry-mem code found ((key, message) ∷ rest) (Memᴰ.head same) =
    let e : str_eq key code ≡ true = (eq_iff key code).1 (sym (ap (λ p. p.0) same)) in rw e refl
own_entry-mem code found ((key, message) ∷ rest) (Memᴰ.tail later) =
    ground (arith, own_entry-mem code found rest later)

own_entry_of_mem :
    (code : String) (found : LocalizedAuthError) (table : List (String × LocalizedAuthError))
    → are_distinct table ≡ true
    → Memᴰ (code, found) table
    → own_entry code table ≡ some found
unfolding own_entry
own_entry_of_mem code found [] d m = elim m [ ]
own_entry_of_mem code found ((key, message) ∷ rest) d (Memᴰ.head same) =
    let e : str_eq key code ≡ true = (eq_iff key code).1 (sym (ap (λ p. p.0) same)) in
    rw e (ap some (sym (ap (λ p. p.1) same)))
own_entry_of_mem code found ((key, message) ∷ rest) d (Memᴰ.tail later) =
    elim (Bool-cases (str_eq key code)) [
      | inr other ↦ rw other (own_entry_of_mem code found rest (ground arith) later)
      | inl same ↦
          let k : is_some (own_entry key rest) ≡ true =
            rw ((eq_iff key code).0 same) (own_entry-mem code found rest later) in
          ground arith
    ]

no_inherited :
    every (λ name. not (is_some (own_entry name auth_error_messages))) inherited_names ≡ true
unfolding own_entry
no_inherited = refl

distinct_messages : are_distinct auth_error_messages ≡ true
unfolding own_entry
distinct_messages = refl

-- Every entry of the table is what `localizeAuthError` answers for its code: the text of the entry
-- in the given locale, English or Spanish, with the entry's severity. No entry hides another.
localize_auth_error-entry :
    (code : String) (found : LocalizedAuthError)
    → Memᴰ (code, found) auth_error_messages
    → (localize_auth_error code en
        ≡ record { message = some found.en; severity = some found.severity })
      × (localize_auth_error code es
          ≡ record { message = some found.es; severity = some found.severity })
unfolding localize_auth_error resolve_own in_locale
localize_auth_error-entry code found m =
    let e : own_entry code auth_error_messages ≡ some found =
      own_entry_of_mem code found auth_error_messages distinct_messages m in
    (rw e refl, rw e refl)

inherited_has-none :
    (code : String) → has inherited_names code ≡ true → own_entry code auth_error_messages ≡ none
inherited_has-none code h =
    let e : not (is_some (own_entry code auth_error_messages)) ≡ true =
      has-every (λ name. not (is_some (own_entry name auth_error_messages))) inherited_names code h
        no_inherited in
    elim (Option-cases (own_entry code auth_error_messages)) [
      | inl missing ↦ missing
      | inr (found, p) ↦ cc (rw p at e)
    ]

message_some :
    (code : String) (found : Option LocalizedAuthError)
    → has inherited_names code ≡ false
    → is_some (resolve_own found code en).message ≡ true
unfolding resolve_own resolve
message_some code (some found) h = refl
message_some code none h = rw h refl

message_none :
    (code : String) → has inherited_names code ≡ true → (resolve_own none code en).message ≡ none
unfolding resolve_own
message_none code h = rw h refl

-- `messageForCode` answers `undefined` exactly for the codes that are a name which every object
-- literal inherits, such as `constructor` or `toString`: the banner of such a code is empty. Any
-- other code, in the table or not, has a text.
pub message_for_code-eq-none_iff :
    (code : String) → (message_for_code code ≡ none) ↔ (has inherited_names code ≡ true)
unfolding message_for_code localize_auth_error
message_for_code-eq-none_iff code = (
  λ missing. elim (Bool-cases (has inherited_names code)) [
    | inl inherited ↦ inherited
    | inr other ↦ cc (rw missing at (message_some code (own_entry code auth_error_messages) other))
  ],
  λ inherited.
      ap (λ found. (resolve_own found code en).message) (inherited_has-none code inherited)
      ∙ message_none code inherited,
)
