-- ===== src/Scripts/Exports/Parser/Printed.antt =====
-- One clause of exports, as a bundler prints it, and the names of its parts.
use rust_auth_example.Base.{
  ℕ, Bool, true, false, &&_iff, Option, none, some, [], ◌∷◌, ◌++◌, ◌≡◌, refl, ap, ◌∙◌, arith, every,
  codes, is_space, or_else,
}
use rust_auth_example.Scripts.Words.{Text, is_word, first_word, same_text}
use rust_auth_example.Scripts.Words.Laws.{IsName}
use rust_auth_example.Scripts.Patterns.{
  eat, eat_spaces, skip_spaces, eat_word, eat_modifier, trim, trim_end,
}
use rust_auth_example.Scripts.Exports.Parser.{
  first_of, leading_name, as_here, as_match, clean_part, name_of_part,
}

-- What stands between two commas
pub data Export : Type 0 where
  plain : Text → Export
  typed : Text → Export
  renamed : Text → Text → Export

abbrev pub spell : Export → Text
spell (plain name) = name
spell (typed name) = codes "type " ++ name
spell (renamed inner name) = inner ++ (codes " as " ++ name)

-- The name that a consumer imports
abbrev pub visible : Export → Text
visible (plain name) = name
visible (typed name) = name
visible (renamed inner name) = name

-- The names are of word characters, and none is taken for a word of the clause.
abbrev pub IsExport : Export → Type 0
IsExport (plain name) = IsName name
IsExport (typed name) = IsName name
IsExport (renamed inner name) =
    IsName inner
    × IsName name
    × (same_text inner (codes "as") ≡ false)
    × (same_text inner (codes "type") ≡ false)

is_word-is_space : (c : ℕ) → is_word c ≡ true → is_space c ≡ false
unfolding is_word is_space
is_word-is_space c h = ground arith

eat_spaces-name : (s : Text) → every is_word s ≡ true → eat_spaces s ≡ none
unfolding eat_spaces
eat_spaces-name [] h = refl
eat_spaces-name (c ∷ s) h =
    rw (is_word-is_space c (((&&_iff (is_word c) (every is_word s)).0 h).0)) refl

eat_word-name : (w s : Text) → every is_word s ≡ true → eat_word w s ≡ none
unfolding eat_word eat
eat_word-name [] s h = eat_spaces-name s h
eat_word-name (p ∷ ps) [] h = refl
eat_word-name (p ∷ ps) (c ∷ s) h = ground (arith, eat_word-name ps s)

eat_word-other :
    (w s rest : Text)
    → every is_word w ≡ true
    → every is_word s ≡ true
    → same_text s w ≡ false
    → eat_word w (s ++ (32 ∷ rest)) ≡ none
unfolding eat_word eat eat_spaces is_word
eat_word-other [] [] rest hw hs h = cc
eat_word-other [] (c ∷ s) rest hw hs h =
    rw (is_word-is_space c (((&&_iff (is_word c) (every is_word s)).0 hs).0)) refl
eat_word-other (p ∷ ps) [] rest hw hs h = ground arith
eat_word-other (p ∷ ps) (c ∷ s) rest hw hs h = ground (arith, eat_word-other ps s rest)

as_match-name : (before : Bool) (s : Text) → every is_word s ≡ true → as_match before s ≡ none
unfolding as_match as_here
as_match-name before [] h = refl
as_match-name before (c ∷ s) h =
    ground (arith, eat_word-name (codes "as") (c ∷ s) h, as_match-name (is_word c) s)

as_match-past :
    (s rest : Text)
    → every is_word s ≡ true
    → as_match true (s ++ (32 ∷ rest)) ≡ as_match false rest
unfolding as_match as_here is_word
as_match-past [] rest h = refl
as_match-past (c ∷ s) rest h = ground (arith, as_match-past s rest)

first_word-name : (s : Text) → every is_word s ≡ true → first_word s ≡ s
unfolding first_word
first_word-name [] h = refl
first_word-name (c ∷ s) h = ground (arith, first_word-name s)

leading_name-name : (s : Text) → IsName s → leading_name s ≡ some s
unfolding leading_name
leading_name-name [] h = absurd (h.1 refl)
leading_name-name (c ∷ s) h = rw (first_word-name (c ∷ s) h.0) refl

skip_spaces-word : (c : ℕ) (s : Text) → is_word c ≡ true → skip_spaces (c ∷ s) ≡ c ∷ s
unfolding skip_spaces
skip_spaces-word c s h = rw (is_word-is_space c h) refl

IsName-head : (c : ℕ) (s : Text) → IsName (c ∷ s) → is_word c ≡ true
IsName-head c s h = ((&&_iff (is_word c) (every is_word s)).0 h.0).0

IsName-tail : (c : ℕ) (s : Text) → IsName (c ∷ s) → every is_word s ≡ true
IsName-tail c s h = ((&&_iff (is_word c) (every is_word s)).0 h.0).1

skip_spaces-name : (s : Text) → IsName s → skip_spaces s ≡ s
skip_spaces-name [] h = absurd (h.1 refl)
skip_spaces-name (c ∷ s) h = skip_spaces-word c s (IsName-head c s h)

as_here-as : (name : Text) → IsName name → as_match false (codes "as " ++ name) ≡ some name
unfolding as_match as_here eat_word eat eat_spaces is_space is_word
as_here-as name h = rw (skip_spaces-name name h, leading_name-name name h) refl

as_match-renamed :
    (inner name : Text)
    → IsName inner
    → IsName name
    → same_text inner (codes "as") ≡ false
    → as_match false (inner ++ (codes " as " ++ name)) ≡ some name
unfolding as_match as_here is_word
as_match-renamed [] name h k other = absurd (h.1 refl)
as_match-renamed (c ∷ s) name h k other =
    rw
      (
        eat_word-other (codes "as") (c ∷ s) (codes "as " ++ name) refl h.0 other,
        IsName-head c s h,
        as_match-past s (codes "as " ++ name) (IsName-tail c s h),
        as_here-as name k,
      )
      refl

-- A text that ends in a word character
ends_in_word : Text → Bool
ends_in_word [] = false
ends_in_word (c ∷ []) = is_word c
ends_in_word (c ∷ d ∷ s) = ends_in_word (d ∷ s)

trim_end-word :
    (s : Text) → ends_in_word s ≡ true → (trim_end s ≡ s) × (trim_end (s ++ (32 ∷ [])) ≡ s)
unfolding trim_end ends_in_word is_space is_word
trim_end-word [] h = cc
trim_end-word (c ∷ []) h = ground arith
trim_end-word (c ∷ d ∷ s) h =
    let (bare, spaced) = trim_end-word (d ∷ s) h in (rw bare refl, rw spaced refl)

ends_in_word-name : (s : Text) → IsName s → ends_in_word s ≡ true
unfolding ends_in_word
ends_in_word-name [] h = absurd (h.1 refl)
ends_in_word-name (c ∷ []) h = ground (arith, h.0)
ends_in_word-name (c ∷ d ∷ s) h = ends_in_word-name (d ∷ s) (ground (arith, h.0), λ n. cc)

ends_in_word-append : (s t : Text) → ends_in_word t ≡ true → ends_in_word (s ++ t) ≡ true
unfolding ends_in_word
ends_in_word-append [] t h = h
ends_in_word-append (c ∷ []) [] h = cc
ends_in_word-append (c ∷ []) (d ∷ t) h = h
ends_in_word-append (c ∷ d ∷ s) t h = ends_in_word-append (d ∷ s) t h

trim-words :
    (c : ℕ) (s : Text)
    → is_word c ≡ true
    → ends_in_word (c ∷ s) ≡ true
    → (trim (32 ∷ c ∷ s) ≡ c ∷ s) × (trim (32 ∷ c ∷ (s ++ (32 ∷ []))) ≡ c ∷ s)
unfolding trim skip_spaces is_space
trim-words c s h last =
    let (bare, spaced) = trim_end-word (c ∷ s) last in
    (rw (skip_spaces-word c s h) bare, rw (skip_spaces-word c (s ++ (32 ∷ [])) h) spaced)

trim-spell :
    (e : Export)
    → IsExport e
    → (trim (32 ∷ spell e) ≡ spell e) × (trim (32 ∷ (spell e ++ (32 ∷ []))) ≡ spell e)
unfolding is_word
trim-spell (plain []) h = absurd (h.1 refl)
trim-spell (plain (c ∷ s)) h = trim-words c s (IsName-head c s h) (ends_in_word-name (c ∷ s) h)
trim-spell (typed name) h =
    trim-words b't' (codes "ype " ++ name) refl
      (ends_in_word-append (codes "type ") name (ends_in_word-name name h))
trim-spell (renamed [] name) h = absurd (h.0.1 refl)
trim-spell (renamed (c ∷ s) name) h =
    trim-words c (s ++ (codes " as " ++ name)) (IsName-head c s h.0) (
      ends_in_word-append (c ∷ s) (codes " as " ++ name)
        (ends_in_word-append (codes " as ") name (ends_in_word-name name h.1)))

-- The name of a part once its ends are trimmed
abbrev name_of_trimmed : Text → Option Text
name_of_trimmed s =
    first_of (as_match false (eat_modifier (codes "type") s))
      (leading_name (eat_modifier (codes "type") s))

eat_word-type :
    (name : Text) → IsName name → eat_word (codes "type") (codes "type " ++ name) ≡ some name
unfolding eat_word eat eat_spaces is_space
eat_word-type name h = rw (skip_spaces-name name h) refl

eat_modifier-type :
    (name : Text) → IsName name → eat_modifier (codes "type") (codes "type " ++ name) ≡ name
unfolding eat_modifier
eat_modifier-type name h = ap (λ o. or_else o (codes "type " ++ name)) (eat_word-type name h)

name_of_word :
    (name : Text) → IsName name → first_of (as_match false name) (leading_name name) ≡ some name
name_of_word name h = rw (as_match-name false name h.0, leading_name-name name h) refl

name_of_trimmed-spell : (e : Export) → IsExport e → name_of_trimmed (spell e) ≡ some (visible e)
unfolding eat_modifier is_word
name_of_trimmed-spell (plain name) h =
    rw (eat_word-name (codes "type") name h.0) (name_of_word name h)
name_of_trimmed-spell (typed name) h =
    ap (λ s. first_of (as_match false s) (leading_name s)) (eat_modifier-type name h)
    ∙ name_of_word name h
name_of_trimmed-spell (renamed inner name) h =
    rw
      (
        eat_word-other (codes "type") inner (codes "as " ++ name) refl h.0.0 h.3,
        as_match-renamed inner name h.0 h.1 h.2,
      )
      refl

-- Between two commas, and before the brace, a part gives the name that a consumer imports.
pub name_of_part-spell :
    (e : Export)
    → IsExport e
    → (name_of_part (32 ∷ spell e) ≡ some (visible e))
      × (name_of_part (32 ∷ (spell e ++ (32 ∷ []))) ≡ some (visible e))
unfolding name_of_part clean_part
name_of_part-spell e h =
    let (bare, spaced) = trim-spell e h in
    (
      ap name_of_trimmed bare ∙ name_of_trimmed-spell e h,
      ap name_of_trimmed spaced ∙ name_of_trimmed-spell e h,
    )
