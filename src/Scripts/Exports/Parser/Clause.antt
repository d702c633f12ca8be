-- ===== src/Scripts/Exports/Parser/Clause.antt =====
-- A printed clause of exports, parsed.
use mathlib.Core.List.{flat_map}
use rust_auth_example.Base.{
  ℕ, zero, suc, ◌-◌, ◌≤◌, ◌==◌, Bool, true, false, not, &&_iff, ◌||◌, Option, none, some, List, [],
  ◌∷◌, ◌++◌, map, ◌≡◌, ◌≢◌, refl, ap, ◌∙◌, arith, All, every, every_weaken, every-append, codes,
  length, is_space, append-nil,
}
use rust_auth_example.Scripts.Words.{Text, is_word, same_text}
use rust_auth_example.Scripts.Words.Laws.{IsName}
use rust_auth_example.Scripts.Patterns.{
  eat, eat_spaces, skip_spaces, eat_word, eat_modifier, eat_keyword, split, trim, trim_end,
}
use rust_auth_example.Scripts.Exports.Parser.{
  span, eat_span, is_line_end, brace_match, brace_names, named_match, names_of_parts, exec_all,
  exported, from_match,
}
use rust_auth_example.Scripts.Exports.Parser.Names.{exec_all-none, exec_all-some}
use rust_auth_example.Scripts.Exports.Parser.Printed.{
  Export, plain, typed, renamed, spell, visible, IsExport, name_of_part-spell,
}

-- The text between the braces, with a space around it and after each comma
unfoldable pub print_parts : List Export → Text
print_parts [] = []
print_parts (e ∷ []) = 32 ∷ (spell e ++ (32 ∷ []))
print_parts (e ∷ f ∷ es) = 32 ∷ (spell e ++ (b',' ∷ print_parts (f ∷ es)))

unfoldable pub print_clause : List Export → Text
unfolding print_parts
print_clause es = codes "export {" ++ (print_parts es ++ codes "};")

-- The characters of the text of a part
is_part : ℕ → Bool
is_part c = is_word c || c == 32

name-is_part : (s : Text) → IsName s → every is_part s ≡ true
unfolding is_part
name-is_part s h = every_weaken s (λ c k. ground arith) h.0

spell-is_part : (e : Export) → IsExport e → every is_part (spell e) ≡ true
unfolding is_part is_word
spell-is_part (plain name) h = name-is_part name h
spell-is_part (typed name) h = rw (name-is_part name h) refl
spell-is_part (renamed inner name) h =
    rw
      (
        every-append is_part inner (codes " as " ++ name),
        name-is_part inner h.0,
        name-is_part name h.1,
      )
      refl

split-part : (s : Text) → every is_part s ≡ true → split b',' s ≡ s ∷ []
unfolding split is_part is_word
split-part [] h = refl
split-part (c ∷ s) h = ground (arith, split-part s)

split-part_on :
    (s t : Text) → every is_part s ≡ true → split b',' (s ++ (b',' ∷ t)) ≡ s ∷ split b',' t
unfolding split is_part is_word
split-part_on [] t h = refl
split-part_on (c ∷ s) t h = ground (arith, split-part_on s t)

-- A part of a clause that adds a name
abbrev pub IsListed : Export → Type 0
IsListed e = IsExport e × (same_text (visible e) (codes "default") ≡ false)

part-is_part : (e : Export) → IsExport e → every is_part (spell e ++ (32 ∷ [])) ≡ true
unfolding is_part
part-is_part e h = rw (every-append is_part (spell e) (32 ∷ []), spell-is_part e h) (ground arith)

parts-visible :
    (e : Export) (es : List Export)
    → All IsListed (e ∷ es)
    → names_of_parts (split b',' (print_parts (e ∷ es))) ≡ map visible (e ∷ es)
unfolding print_parts names_of_parts is_part is_word
parts-visible e [] h =
    rw
      (
        split-part (32 ∷ (spell e ++ (32 ∷ []))) (part-is_part e h.0.0),
        (name_of_part-spell e h.0.0).1,
        h.0.1,
      )
      refl
parts-visible e (f ∷ es) h =
    rw
      (
        split-part_on (32 ∷ spell e) (print_parts (f ∷ es)) (spell-is_part e h.0.0),
        (name_of_part-spell e h.0.0).0,
        h.0.1,
        parts-visible f es h.1,
      )
      refl

-- The characters of the text between the braces
is_inner : ℕ → Bool
is_inner c = is_part c || c == b','

spell-is_inner : (e : Export) → IsExport e → every is_inner (spell e) ≡ true
unfolding is_inner
spell-is_inner e h = every_weaken (spell e) (λ c k. ground arith) (spell-is_part e h)

print_parts-is_inner : (es : List Export) → All IsListed es → every is_inner (print_parts es) ≡ true
unfolding print_parts is_inner is_part is_word
print_parts-is_inner [] h = refl
print_parts-is_inner (e ∷ []) h =
    rw (every-append is_inner (spell e) (32 ∷ []), spell-is_inner e h.0.0) refl
print_parts-is_inner (e ∷ f ∷ es) h =
    rw
      (
        every-append is_inner (spell e) (b',' ∷ print_parts (f ∷ es)),
        spell-is_inner e h.0.0,
        print_parts-is_inner (f ∷ es) h.1,
      )
      refl

span-inner :
    (s t : Text) → every is_inner s ≡ true → span (λ c. c == b'}') (s ++ (b'}' ∷ t)) ≡ (s, b'}' ∷ t)
unfolding span is_inner is_part is_word
span-inner [] t h = refl
span-inner (c ∷ s) t h =
    let (first, rest) = (&&_iff (is_inner c) (every is_inner s)).0 h in
    let below = span-inner s t rest in
    let other : (c == b'}') ≡ false = ground arith in rw (other, below) refl

module _ {ℓ} {A : Type ℓ} (match : Text → Option (A × Text)) where
  exec_all-skipped :
      (skip : ℕ) (at_start : Bool) (s : Text)
      → length s ≤ skip
      → exec_all match skip at_start s ≡ []
  unfolding exec_all
  exec_all-skipped skip at_start [] h = refl
  exec_all-skipped zero at_start (c ∷ s) h = absurd (omega arith)
  exec_all-skipped (suc skip) at_start (c ∷ s) h =
      exec_all-skipped skip (is_line_end c) s (omega arith)

  exec_all-line :
      (s : Text) → every (λ c. not (is_line_end c)) s ≡ true → exec_all match 0 false s ≡ []
  unfolding exec_all
  exec_all-line [] h = refl
  exec_all-line (c ∷ s) h =
      let (first, rest) = (&&_iff (not (is_line_end c)) (every (λ d. not (is_line_end d)) s)).0 h in
      let inside : is_line_end c ≡ false = ground arith in rw inside (exec_all-line s rest)

print_parts-ne-nil : (e : Export) (es : List Export) → print_parts (e ∷ es) ≢ []
unfolding print_parts
print_parts-ne-nil e [] h = cc
print_parts-ne-nil e (f ∷ es) h = cc

eat_span-inner :
    (s t : Text)
    → s ≢ []
    → every is_inner s ≡ true
    → eat_span (λ c. c == b'}') (s ++ (b'}' ∷ t)) ≡ some (s, b'}' ∷ t)
unfolding eat_span span is_inner is_part is_word
eat_span-inner [] t n h = absurd (n refl)
eat_span-inner (c ∷ s) t n h =
    let (first, rest) = (&&_iff (is_inner c) (every is_inner s)).0 h in
    let other : (c == b'}') ≡ false = ground arith in rw (other, span-inner s t rest) refl

print_clause-match :
    (e : Export) (es : List Export)
    → All IsListed (e ∷ es)
    → brace_match (print_clause (e ∷ es)) ≡ some ((print_parts (e ∷ es), []), [])
unfolding brace_match print_clause print_parts eat eat_word eat_spaces eat_modifier skip_spaces
    eat_span is_space span
print_clause-match e es h =
    rw
      (eat_span-inner (print_parts (e ∷ es)) (b';' ∷ []) (print_parts-ne-nil e es)
        (print_parts-is_inner (e ∷ es) h))
      refl

print_clause-unnamed : (es : List Export) → named_match (print_clause es) ≡ none
unfolding named_match print_clause eat eat_word eat_spaces eat_modifier eat_keyword skip_spaces
    is_space
print_clause-unnamed es = refl

print_clause-line :
    (es : List Export)
    → All IsListed es
    → every (λ c. not (is_line_end c)) (codes "xport {" ++ (print_parts es ++ codes "};")) ≡ true
unfolding is_inner is_part is_word
print_clause-line es h =
    let inside : every (λ c. not (is_line_end c)) (print_parts es) ≡ true =
      every_weaken (print_parts es) (λ c k. ground arith) (print_parts-is_inner es h) in
    rw (every-append (λ c. not (is_line_end c)) (print_parts es) (codes "};"), inside) refl

print_clause-captured :
    (e : Export) (es : List Export)
    → All IsListed (e ∷ es)
    → exec_all brace_match 0 true (print_clause (e ∷ es)) ≡ (print_parts (e ∷ es), []) ∷ []
unfolding print_clause
print_clause-captured e es h =
    let rest = codes "xport {" ++ (print_parts (e ∷ es) ++ codes "};") in
    exec_all-some brace_match b'e' rest [] (print_parts (e ∷ es), []) (print_clause-match e es h)
    ∙ ap (λ l. (print_parts (e ∷ es), []) ∷ l)
        (exec_all-skipped brace_match (length rest - 0) (is_line_end b'e') rest (omega arith))

print_clause-no_names :
    (es : List Export) → All IsListed es → exec_all named_match 0 true (print_clause es) ≡ []
unfolding print_clause
print_clause-no_names es h =
    let rest = codes "xport {" ++ (print_parts es ++ codes "};") in
    exec_all-none named_match b'e' rest (print_clause-unnamed es)
    ∙ exec_all-line named_match rest (print_clause-line es h)

-- The names that are found in one printed clause of exports, plain, with `type` or with `as`, are
-- those that a consumer imports, in order: where all are words, none of them is `default`, and no
-- name before an `as` is `as` or `type`.
pub exported-print_clause :
    (e : Export) (es : List Export)
    → All IsListed (e ∷ es)
    → exported (print_clause (e ∷ es)) ≡ map visible (e ∷ es)
unfolding exported brace_names flat_map from_match trim skip_spaces trim_end
exported-print_clause e es h =
    rw
      (
        print_clause-captured e es h,
        print_clause-no_names (e ∷ es) h,
        parts-visible e es h,
        append-nil,
      )
      (append-nil (map visible (e ∷ es)))
