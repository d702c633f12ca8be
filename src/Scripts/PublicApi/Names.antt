-- ===== src/Scripts/PublicApi/Names.antt =====
-- The names that the snapshots list.
use mathlib.Core.Option.{some-injective}
use rust_auth_example.Base.{
  ℕ, ◌==◌, Bool, true, ◌&&◌, none, some, List, [], ◌∷◌, ◌++◌, ◌≡◌, ◌≢◌, refl, arith, every, All,
  Bool-cases, inl, inr, Option-cases, is_space, subst, &&_right, codes, or_else,
}
use rust_auth_example.Scripts.Words.{Text, is_word, starts_word}
use rust_auth_example.Scripts.Words.Laws.{IsName}
use rust_auth_example.Scripts.Patterns.{
  cons_head, eat, eat_word, eat_keyword, eat_modifier, skip_spaces, eat_spaces,
}
use rust_auth_example.Scripts.PublicApi.{
  path_match, split_path, last_part, short_name, strip_keyword, name_of,
}

-- The parts of a path: the first is a name if `named`, and each other one is.
abbrev AreParts : Bool → List Text → Type 0
AreParts named [] = ⊥
AreParts named (p ∷ ps) = (every is_word p ≡ true) × (named ≡ true → p ≢ []) × All IsName ps

pub split_path-letter :
    (c : ℕ) (t : Text) → is_word c ≡ true → split_path (c ∷ t) ≡ cons_head c (split_path t)
unfolding split_path is_word
split_path-letter c [] h = refl
split_path-letter c (d ∷ t) h = ground arith

cons_head-AreParts :
    (c : ℕ) (parts : List Text) (named : Bool)
    → is_word c ≡ true
    → AreParts named parts
    → AreParts true (cons_head c parts)
cons_head-AreParts c [] named h a = absurd a
cons_head-AreParts c (p ∷ ps) named h a = (ground (arith, a.0), λ _ n. cc, a.2)

AreParts-names : (parts : List Text) → AreParts true parts → All IsName parts
AreParts-names [] a = absurd a
AreParts-names (p ∷ ps) a = ((a.0, a.1 refl), a.2)

path-AreParts : (s : Text) → AreParts (starts_word s) (split_path (path_match s))
unfolding path_match split_path
path-AreParts [] = (refl, λ h. cc, tt)
path-AreParts (c ∷ []) = elim (Bool-cases (is_word c)) [
  | inl letter ↦ rw letter (rw letter, λ _ n. cc, tt)
  | inr other ↦ rw other (refl, λ h. cc, tt)
]
path-AreParts (c ∷ d ∷ s) = elim (Bool-cases (is_word c)) [
  | inl letter ↦
      rw (letter, split_path-letter c (path_match (d ∷ s)) letter)
        (cons_head-AreParts c (split_path (path_match (d ∷ s))) (starts_word (d ∷ s)) letter
          (path-AreParts (d ∷ s)))
  | inr other ↦ elim (Bool-cases ((c == b':') && (d == b':') && starts_word s)) [
    | inl colons ↦
        rw (other, colons)
          (
            refl,
            λ h. cc,
            AreParts-names (split_path (path_match s)) (
                subst (λ b. AreParts b (split_path (path_match s)))
                  (&&_right ((c == b':') && (d == b':')) (starts_word s) colons) (path-AreParts s)),
          )
    | inr over ↦ rw (other, over) (refl, λ h. cc, tt)
  ]
]

last_part-IsName : (parts : List Text) → AreParts true parts → IsName (last_part parts)
unfolding last_part
last_part-IsName [] a = absurd a
last_part-IsName (p ∷ []) a = (a.0, a.1 refl)
last_part-IsName (p ∷ q ∷ ps) a = last_part-IsName (q ∷ ps) (a.2.0.0, λ _. a.2.0.1, a.2.1)

short_name-IsName : (s name : Text) → short_name s ≡ some name → IsName name
unfolding short_name
short_name-IsName s name h = elim (Bool-cases (starts_word s)) [
  | inl named ↦ subst IsName (some-injective _ name (rw named at h)) (
      last_part-IsName (split_path (path_match s))
        (subst (λ b. AreParts b (split_path (path_match s))) named (path-AreParts s)))
  | inr other ↦ let nothing : none ≡ some name = rw other at h in cc
]

-- A line adds a name of word characters or nothing, so that no character of a name is special in the
-- expression that it is searched with.
pub name_of-IsName : (line name : Text) → name_of line ≡ some name → IsName name
unfolding name_of
name_of-IsName line name h = elim (Option-cases (eat (codes "pub ") line)) [
  | inl other ↦ let nothing : none ≡ some name = rw other at h in cc
  | inr (rest, there) ↦ short_name-IsName (or_else (strip_keyword line) rest) name (rw there at h)
]

path_match-space : (s : Text) → path_match (32 ∷ s) ≡ []
unfolding path_match is_word
path_match-space [] = refl
path_match-space (c ∷ s) = refl

-- Of a line for a constant function, the expression takes `const` for the keyword, so that the name
-- is `fn` whatever the function is called.
pub name_of_const_fn : (path : Text) → name_of (codes "pub const fn " ++ path) ≡ some (codes "fn")
unfolding name_of strip_keyword short_name eat eat_word eat_keyword eat_modifier path_match
    split_path last_part skip_spaces eat_spaces is_word is_space
name_of_const_fn path = rw path_match-space refl
