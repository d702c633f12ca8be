-- ===== src/Scripts/Patterns.antt =====
-- The pieces of the regular expressions that scripts/check-public-api-usage.mjs and
-- scripts/audit-library-exports.mjs anchor at a place. After each repetition there comes something
-- that it does not take, so that the greedy match is the only one.
pub mod Splits
use rust_auth_example.Base.{
  ℕ, ◌==◌, Option, none, some, List, [], ◌∷◌, ◌++◌, is_space, or_else, if◌then◌else◌,
}
use rust_auth_example.Scripts.Words.{Text, has_text}

infixl 5 ◌>>=◌
abbrev pub ◌>>=◌ {ℓ κ} : {A : Type ℓ} {B : Type κ} → Option A → (A → Option B) → Option B
none >>= f = none
some a >>= f = f a

-- The rest of a text after a literal
unfoldable pub eat : Text → Text → Option Text
eat [] s = some s
eat (p ∷ ps) [] = none
eat (p ∷ ps) (c ∷ s) = let rest = eat ps s in if p == c then rest else none

-- `\s*`
unfoldable pub skip_spaces : Text → Text
unfolding is_space
skip_spaces [] = []
skip_spaces (c ∷ s) = let rest = skip_spaces s in if is_space c then rest else c ∷ s

-- `\s+`
unfoldable pub eat_spaces : Text → Option Text
unfolding skip_spaces is_space
eat_spaces [] = none
eat_spaces (c ∷ s) = if is_space c then some (skip_spaces s) else none

-- A literal and `\s+`
unfoldable pub eat_word : Text → Text → Option Text
unfolding eat eat_spaces
eat_word w s = eat w s >>= eat_spaces

-- The same, optional: `(?:w\s+)?`
unfoldable pub eat_modifier : Text → Text → Text
unfolding eat_word
eat_modifier w s = or_else (eat_word w s) s

-- `(?:w|…)\s+`
unfoldable pub eat_keyword : List Text → Text → Option Text
unfolding eat_word
eat_keyword [] s = none
eat_keyword (w ∷ ws) s = elim (eat_word w s) [ some rest ↦ some rest | none ↦ eat_keyword ws s ]

-- The greatest part without white space at its end
unfoldable pub trim_end : Text → Text
unfolding is_space
trim_end [] = []
trim_end (c ∷ s) = elim (trim_end s) [ [] ↦ if is_space c then [] else c ∷ [] | d ∷ t ↦ c ∷ d ∷ t ]

-- `text.trim()`
unfoldable pub trim : Text → Text
unfolding skip_spaces trim_end
trim s = trim_end (skip_spaces s)

abbrev pub cons_head : ℕ → List Text → List Text
cons_head c [] = (c ∷ []) ∷ []
cons_head c (p ∷ ps) = (c ∷ p) ∷ ps

-- `text.split(separator)` with one character
unfoldable pub split : ℕ → Text → List Text
split separator [] = [] ∷ []
split separator (c ∷ s) =
    let parts = split separator s in if c == separator then [] ∷ parts else cons_head c parts

-- `set.add(name)`, the members in the order of a walk over the set
unfoldable pub add_text : List Text → Text → List Text
unfolding has_text
add_text names name = if has_text names name then names else names ++ (name ∷ [])

-- `set.add` of what was found
abbrev pub add_found : List Text → Option Text → List Text
add_found names none = names
add_found names (some name) = add_text names name
