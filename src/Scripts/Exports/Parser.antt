-- ===== src/Scripts/Exports/Parser.antt =====
-- `parseExports` of scripts/audit-library-exports.mjs
pub mod Names
pub mod Printed
pub mod Clause
use rust_auth_example.Base.{
  ℕ, zero, suc, ◌+◌, ◌-◌, ◌==◌, Bool, true, false, not, ◌&&◌, ◌||◌, Option, none, some, List, [],
  ◌∷◌, ◌++◌, map, length, codes, drop, if◌then◌else◌,
}
use mathlib.Core.List.{flat_map}
use rust_auth_example.Scripts.Words.{Text, is_word, first_word, same_text}
use rust_auth_example.Scripts.Patterns.{
  ◌>>=◌, eat, eat_spaces, eat_word, eat_modifier, eat_keyword, trim, split, add_text,
}

-- A match, or else what is found later
abbrev pub first_of {ℓ} : {A : Type ℓ} → Option A → Option A → Option A
first_of none later = later
first_of (some a) later = some a

-- `[^…]*`: the part before the first character that stops it, and the rest
unfoldable pub span : (ℕ → Bool) → Text → Text × Text
span stops [] = ([], [])
span stops (c ∷ s) =
    let (taken, rest) = span stops s in if stops c then ([], c ∷ s) else (c ∷ taken, rest)

-- `[^…]+`
unfoldable pub eat_span : (ℕ → Bool) → Text → Option (Text × Text)
unfolding span
eat_span stops [] = none
eat_span stops (c ∷ s) = if stops c then none else some (span stops (c ∷ s))

abbrev is_quote : ℕ → Bool
is_quote c = c == b'\'' || c == b'"'

abbrev eat_quote : Text → Option Text
eat_quote [] = none
eat_quote (c ∷ s) = if is_quote c then some s else none

-- `from\s+['"]([^'"]+)['"]` at one place
unfoldable pub from_here : Text → Option Text
unfolding eat_word eat_span
from_here s = do
  quoted ← eat_word (codes "from") s
  opened ← eat_quote quoted
  (path, rest) ← eat_span is_quote opened
  closed ← eat_quote rest
  some path

-- `fromMatch`, with the path that it captured
unfoldable pub from_match : Text → Option Text
unfolding from_here
from_match [] = none
from_match (c ∷ s) = let later = from_match s in first_of (from_here (c ∷ s)) later

-- A path of a package, which does not start with `.` or `/`
abbrev pub is_external : Option Text → Bool
is_external none = false
is_external (some []) = true
is_external (some (c ∷ s)) = not (c == b'.') && not (c == b'/')

abbrev pub name_here : Text → Option Text
name_here [] = none
name_here (c ∷ s) = some (c ∷ s)

-- `^(\w+)`
unfoldable pub leading_name : Text → Option Text
unfolding first_word
leading_name s = name_here (first_word s)

-- `as\s+(\w+)` at one place
unfoldable pub as_here : Text → Option Text
unfolding eat_word leading_name
as_here s = do rest ← eat_word (codes "as") s; leading_name rest

-- `asMatch`, `/\bas\s+(\w+)/`; the flag tells whether a word character stands before the text.
unfoldable pub as_match : Bool → Text → Option Text
unfolding as_here is_word
as_match before [] = none
as_match before (c ∷ s) =
    let later = as_match (is_word c) s in
    let here = if before then none else as_here (c ∷ s) in first_of here later

-- `clean`
unfoldable pub clean_part : Text → Text
unfolding trim eat_modifier
clean_part part = eat_modifier (codes "type") (trim part)

-- `name`, of a part that is not empty once it is clean
unfoldable pub name_of_part : Text → Option Text
unfolding clean_part as_match leading_name
name_of_part part = first_of (as_match false (clean_part part)) (leading_name (clean_part part))

abbrev pub keep_name : Option Text → List Text → List Text
keep_name none rest = rest
keep_name (some name) rest = if same_text name (codes "default") then rest else name ∷ rest

unfoldable pub names_of_parts : List Text → List Text
unfolding name_of_part
names_of_parts [] = []
names_of_parts (part ∷ parts) = keep_name (name_of_part part) (names_of_parts parts)

-- One match of `braceRe`: what it captured, and what follows it
unfoldable pub brace_match : Text → Option ((Text × Text) × Text)
unfolding eat eat_word eat_modifier eat_span span
brace_match s = do
  after_export ← eat_word (codes "export") s
  opened ← eat (codes "{") (eat_modifier (codes "type") after_export)
  (inner, rest) ← eat_span (λ c. c == b'}') opened
  closed ← eat (codes "}") rest
  let (trailer, final) = span (λ c. c == b';' || c == b'\n') closed
  after ← eat (codes ";") final
  some ((inner, trailer), after)

-- What the first loop adds for one match
unfoldable pub brace_names : Text × Text → List Text
unfolding from_match names_of_parts split trim
brace_names (inner, trailer) =
    if is_external (from_match (trim trailer)) then [] else names_of_parts (split b',' inner)

abbrev pub keywords : List Text
keywords = map codes (
    "const" ∷ "let" ∷ "var" ∷ "function" ∷ "class" ∷ "interface" ∷ "enum" ∷ "type" ∷ "namespace"
    ∷ [])

-- One match of `namedRe`: the name, and what follows it
unfoldable pub named_match : Text → Option (Text × Text)
unfolding eat_word eat_modifier eat_keyword leading_name
named_match s = do
  after_export ← eat_word (codes "export") s
  named ← eat_keyword keywords (
      eat_modifier (codes "async")
        (eat_modifier (codes "abstract") (eat_modifier (codes "declare") after_export)))
  name ← leading_name named
  some (name, drop (length name) named)

-- What `^` with the flag `m` looks for before it
abbrev pub is_line_end : ℕ → Bool
is_line_end c = c == 10 || c == 13 || c == 8232 || c == 8233

-- `while ((m = re.exec(dts)) !== null)` with the flag `g`: the matches at the starts of lines, where
-- the next one is sought after the last. `skip` characters are still of the last match.
module _ {ℓ} {A : Type ℓ} (match : Text → Option (A × Text)) where
  unfoldable pub exec_all : (skip : ℕ) → (at_start : Bool) → Text → List A
  exec_all skip at_start [] = []
  exec_all (suc skip) at_start (c ∷ s) = exec_all skip (is_line_end c) s
  exec_all zero false (c ∷ s) = exec_all 0 (is_line_end c) s
  exec_all zero true (c ∷ s) = elim (match (c ∷ s)) [
    | none ↦ exec_all 0 (is_line_end c) s
    | some (found, rest) ↦ found ∷ exec_all (length s - length rest) (is_line_end c) s
  ]

-- The names in the order in which they are added
unfoldable pub exported : Text → List Text
unfolding exec_all brace_match brace_names named_match
exported dts =
    flat_map brace_names (exec_all brace_match 0 true dts) ++ exec_all named_match 0 true dts

unfoldable pub add_all : List Text → List Text → List Text
unfolding add_text
add_all names [] = names
add_all names (name ∷ rest) = add_all (add_text names name) rest

unfoldable pub parse_exports : Text → List Text
unfolding exported add_all
parse_exports dts = add_all [] (exported dts)
