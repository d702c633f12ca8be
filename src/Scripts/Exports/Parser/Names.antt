-- ===== src/Scripts/Exports/Parser/Names.antt =====
-- What `parseExports` finds.
use mathlib.Core.List.{flat_map}
use rust_auth_example.Base.{
  ℕ, ◌-◌, zero, suc, Option-cases, subst, Bool, true, false, not, &&_iff, ◌||◌, Option, none, some,
  List, [], ◌∷◌, ◌++◌, ◌≡◌, refl, arith, every, any, All, Bool-cases, inl, inr, codes, length, drop,
  if◌then◌else◌, is_space,
}
use rust_auth_example.Scripts.Words.{Text, is_word, first_word, same_text}
use rust_auth_example.Scripts.Words.Laws.{IsName}
use rust_auth_example.Scripts.Words.Members.{any-add_text}
use rust_auth_example.Scripts.Patterns.{
  split, trim, add_text, ◌>>=◌, eat, eat_word, eat_keyword, eat_modifier, skip_spaces, eat_spaces,
}
use rust_auth_example.Scripts.Exports.Parser.{
  leading_name, as_here, as_match, name_of_part, names_of_parts, brace_match, brace_names,
  named_match, exec_all, exported, add_all, parse_exports, clean_part, is_line_end, name_here,
  keep_name, first_of, is_external, from_match, keywords, eat_span,
}

-- A name, where there is one
abbrev MaybeName : Option Text → Type 0
MaybeName none = Unit
MaybeName (some name) = IsName name

first_word-letters : (s : Text) → every is_word (first_word s) ≡ true
unfolding first_word
first_word-letters [] = refl
first_word-letters (c ∷ s) = ground (arith, first_word-letters s)

name_here-MaybeName : (w : Text) → every is_word w ≡ true → MaybeName (name_here w)
name_here-MaybeName [] h = tt
name_here-MaybeName (c ∷ s) h = (h, λ n. cc)

leading_name-MaybeName : (s : Text) → MaybeName (leading_name s)
unfolding leading_name
leading_name-MaybeName s = name_here-MaybeName (first_word s) (first_word-letters s)

first_of-MaybeName :
    (here later : Option Text) → MaybeName here → MaybeName later → MaybeName (first_of here later)
first_of-MaybeName none later h l = l
first_of-MaybeName (some name) later h l = h

as_rest-MaybeName : (o : Option Text) → MaybeName (o >>= leading_name)
as_rest-MaybeName none = tt
as_rest-MaybeName (some rest) = leading_name-MaybeName rest

as_here-MaybeName : (before : Bool) (s : Text) → MaybeName (if before then none else as_here s)
unfolding as_here
as_here-MaybeName true s = tt
as_here-MaybeName false s = as_rest-MaybeName (eat_word (codes "as") s)

as_match-MaybeName : (before : Bool) (s : Text) → MaybeName (as_match before s)
unfolding as_match
as_match-MaybeName before [] = tt
as_match-MaybeName before (c ∷ s) =
    first_of-MaybeName (if before then none else as_here (c ∷ s)) (as_match (is_word c) s)
      (as_here-MaybeName before (c ∷ s)) (as_match-MaybeName (is_word c) s)

name_of_part-MaybeName : (part : Text) → MaybeName (name_of_part part)
unfolding name_of_part
name_of_part-MaybeName part =
    first_of-MaybeName (as_match false (clean_part part)) (leading_name (clean_part part))
      (as_match-MaybeName false (clean_part part)) (leading_name-MaybeName (clean_part part))

keep_name-IsName :
    (o : Option Text) (rest : List Text)
    → MaybeName o
    → All IsName rest
    → All IsName (keep_name o rest)
keep_name-IsName none rest h a = a
keep_name-IsName (some name) rest h a = elim (Bool-cases (same_text name (codes "default"))) [
  | inl excluded ↦ rw excluded a
  | inr kept ↦ rw kept (h, a)
]

names_of_parts-IsName : (parts : List Text) → All IsName (names_of_parts parts)
unfolding names_of_parts
names_of_parts-IsName [] = tt
names_of_parts-IsName (part ∷ parts) =
    keep_name-IsName (name_of_part part) (names_of_parts parts) (name_of_part-MaybeName part)
      (names_of_parts-IsName parts)

brace_names-IsName : (captured : Text × Text) → All IsName (brace_names captured)
unfolding brace_names
brace_names-IsName (inner, trailer) = elim (Bool-cases (is_external (from_match (trim trailer)))) [
  | inl external ↦ rw external tt
  | inr own ↦ rw own (names_of_parts-IsName (split b',' inner))
]

All-append {ℓ} :
    {A : Type ℓ} (P : A → Type 0) (xs ys : List A) → All P xs → All P ys → All P (xs ++ ys)
All-append P [] ys h k = k
All-append P (x ∷ xs) ys h k = (h.0, All-append P xs ys h.1 k)

flat_map-IsName : (found : List (Text × Text)) → All IsName (flat_map brace_names found)
unfolding flat_map
flat_map-IsName [] = tt
flat_map-IsName (f ∷ fs) =
    All-append IsName (brace_names f) (flat_map brace_names fs) (brace_names-IsName f)
      (flat_map-IsName fs)

-- The name of a match of `namedRe`, if there is one
abbrev MaybeNamed : Option (Text × Text) → Type 0
MaybeNamed none = Unit
MaybeNamed (some found) = IsName (found.0)

named_rest-MaybeNamed :
    (o : Option Text)
    → MaybeNamed
        (o >>= λ named. leading_name named >>= λ name. some (name, drop (length name) named))
named_rest-MaybeNamed none = tt
named_rest-MaybeNamed (some named) = go (leading_name named) (leading_name-MaybeName named)
  where
    go :
        (o : Option Text)
        → MaybeName o
        → MaybeNamed (o >>= λ name. some (name, drop (length name) named))
    go none h = tt
    go (some name) h = h

named_match-MaybeNamed : (s : Text) → MaybeNamed (named_match s)
unfolding named_match
named_match-MaybeNamed s = elim (Option-cases (eat_word (codes "export") s)) [
  | inl other ↦ rw other tt
  | inr (rest, there) ↦ rw there (
      named_rest-MaybeNamed (
        eat_keyword keywords (
          eat_modifier (codes "async")
            (eat_modifier (codes "abstract") (eat_modifier (codes "declare") rest)))))
]

module _ {ℓ} {A : Type ℓ} (match : Text → Option (A × Text)) where
  pub exec_all-none :
      (c : ℕ) (s : Text)
      → match (c ∷ s) ≡ none
      → exec_all match 0 true (c ∷ s) ≡ exec_all match 0 (is_line_end c) s
  unfolding exec_all
  exec_all-none c s h = rw (exec_all, h) refl

  pub exec_all-some :
      (c : ℕ) (s rest : Text) (found : A)
      → match (c ∷ s) ≡ some (found, rest)
      → exec_all match 0 true (c ∷ s)
        ≡ found ∷ exec_all match (length s - length rest) (is_line_end c) s
  unfolding exec_all
  exec_all-some c s rest found h = rw (exec_all, h) refl

exec_named-IsName :
    (skip : ℕ) (at_start : Bool) (s : Text) → All IsName (exec_all named_match skip at_start s)
unfolding exec_all
exec_named-IsName skip at_start [] = tt
exec_named-IsName (suc skip) at_start (c ∷ s) = exec_named-IsName skip (is_line_end c) s
exec_named-IsName zero false (c ∷ s) = exec_named-IsName 0 (is_line_end c) s
exec_named-IsName zero true (c ∷ s) = elim (Option-cases (named_match (c ∷ s))) [
  | inl other ↦ rw (exec_all-none named_match c s other) (exec_named-IsName 0 (is_line_end c) s)
  | inr ((name, rest), there) ↦ rw (exec_all-some named_match c s rest name there) (
    subst MaybeNamed there (named_match-MaybeNamed (c ∷ s)),
    exec_named-IsName (length s - length rest) (is_line_end c) s,
  )
]

-- Every name that is found is one of word characters, whatever the declarations are.
pub exported-IsName : (dts : Text) → All IsName (exported dts)
unfolding exported
exported-IsName dts =
    All-append IsName (flat_map brace_names (exec_all brace_match 0 true dts))
      (exec_all named_match 0 true dts) (flat_map-IsName (exec_all brace_match 0 true dts))
      (exec_named-IsName 0 true dts)

any-add_all :
    (p : Text → Bool) (names rest : List Text)
    → any p (add_all names rest) ≡ (any p names || any p rest)
unfolding add_all
any-add_all p names [] = ground arith
any-add_all p names (name ∷ rest) =
    rw (any-add_all p (add_text names name) rest) (ground (arith, any-add_text p names name))

-- A test holds for an exported symbol exactly if it holds for a name that was found.
pub any-parse_exports :
    (p : Text → Bool) (dts : Text) → any p (parse_exports dts) ≡ any p (exported dts)
unfolding parse_exports
any-parse_exports p dts = any-add_all p [] (exported dts)

-- No character of the text ends a line.
abbrev pub IsOnLine : Text → Type 0
IsOnLine s = every (λ c. not (is_line_end c)) s ≡ true

exec_all-line {ℓ} :
    {A : Type ℓ} (match : Text → Option (A × Text)) (skip : ℕ) (s : Text)
    → IsOnLine s
    → exec_all match skip false s ≡ []
unfolding exec_all
exec_all-line match skip [] h = refl
exec_all-line match zero (c ∷ s) h =
    let (here, later) = (&&_iff (not (is_line_end c)) (every (λ d. not (is_line_end d)) s)).0 h in
    let goes_on : is_line_end c ≡ false = ground arith in rw goes_on (exec_all-line match 0 s later)
exec_all-line match (suc skip) (c ∷ s) h =
    let (here, later) = (&&_iff (not (is_line_end c)) (every (λ d. not (is_line_end d)) s)).0 h in
    let goes_on : is_line_end c ≡ false = ground arith in
    rw goes_on (exec_all-line match skip s later)

exported-line :
    (c : ℕ) (s rest name : Text)
    → IsOnLine (c ∷ s)
    → brace_match (c ∷ s) ≡ none
    → named_match (c ∷ s) ≡ some (name, rest)
    → exported (c ∷ s) ≡ name ∷ []
unfolding exported flat_map
exported-line c s rest name h no_clause named =
    let (here, later) = (&&_iff (not (is_line_end c)) (every (λ d. not (is_line_end d)) s)).0 h in
    let goes_on : is_line_end c ≡ false = ground arith in
    rw
      (
        exec_all-none brace_match c s no_clause,
        exec_all-some named_match c s rest name named,
        goes_on,
        exec_all-line brace_match 0 s later,
        exec_all-line named_match (length s - length rest) s later,
      )
      refl

-- Of a constant enumeration that is declared on one line, with or without `declare`, the expression
-- takes `const` for the keyword: the only symbol is `enum`, whatever the enumeration is called.
pub exported_const_enum :
    (rest : Text)
    → IsOnLine rest
    → (exported (codes "export const enum " ++ rest) ≡ codes "enum" ∷ [])
      × (exported (codes "export declare const enum " ++ rest) ≡ codes "enum" ∷ [])
unfolding brace_match named_match leading_name eat eat_word eat_keyword eat_modifier skip_spaces
    eat_spaces eat_span first_word is_word is_space
exported_const_enum rest h = (
  exported-line b'e' (codes "xport const enum " ++ rest) (32 ∷ rest) (codes "enum") h refl refl,
  exported-line b'e' (codes "xport declare const enum " ++ rest) (32 ∷ rest) (codes "enum") h refl
      refl,
)
