-- ===== src/Shell/Badge/Laws.antt =====
-- The initials of a name.
use rust_auth_example.Base.{
  ℕ, ◌==◌, true, [], ◌∷◌, ◌++◌, ◌≡◌, refl, arith, every, codes, append-nil,
}
use rust_auth_example.Scripts.Words.{Text}
use rust_auth_example.Scripts.Patterns.{split}
use rust_auth_example.Scripts.Patterns.Splits.{lacks, split-lacks, split-lacks_on}
use rust_auth_example.Shell.Badge.{not_empty, join_initials, initials_of_parts, initials_of}

-- A first name and a last name, with a space between them, give the first letter of each, in upper
-- case, and one name gives one letter.
pub initials_of_names :
    (upper : ℕ → Text) (c d : ℕ) (first last : Text)
    → lacks 32 (c ∷ first) ≡ true
    → lacks 32 (d ∷ last) ≡ true
    → (initials_of upper ((c ∷ first) ++ (32 ∷ d ∷ last)) ≡ upper c ++ upper d)
      × (initials_of upper (c ∷ first) ≡ upper c)
unfolding initials_of not_empty initials_of_parts join_initials
initials_of_names upper c d first last h k = (
  rw (split-lacks_on 32 (c ∷ first) (d ∷ last) h, split-lacks 32 (d ∷ last) k, append-nil) refl,
  rw (split-lacks 32 (c ∷ first) h, append-nil) refl,
)

blank_parts : (name : Text) → every (λ c. c == 32) name ≡ true → not_empty (split 32 name) ≡ []
unfolding not_empty split
blank_parts [] h = refl
blank_parts (c ∷ name) h = ground (arith, blank_parts name)

-- A name of spaces only, or none, gives a question mark.
pub initials_of_blank :
    (upper : ℕ → Text) (name : Text)
    → every (λ c. c == 32) name ≡ true
    → initials_of upper name ≡ codes "?"
unfolding initials_of initials_of_parts
initials_of_blank upper name h = rw (blank_parts name h) refl
