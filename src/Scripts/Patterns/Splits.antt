-- ===== src/Scripts/Patterns/Splits.antt =====
-- What `split` makes of a text.
use rust_auth_example.Base.{
  ℕ, ◌==◌, Bool, true, not, List, [], ◌∷◌, ◌++◌, ◌≡◌, ◌≢◌, refl, arith, every, Bool-cases, inl, inr,
}
use rust_auth_example.Scripts.Words.{Text}
use rust_auth_example.Scripts.Patterns.{split, cons_head}

-- No character of the text is the separator.
unfoldable pub lacks : ℕ → Text → Bool
lacks separator = every (λ c. not (c == separator))

pub split-lacks : (sep : ℕ) (s : Text) → lacks sep s ≡ true → split sep s ≡ s ∷ []
unfolding split lacks
split-lacks sep [] h = refl
split-lacks sep (c ∷ s) h = ground (arith, split-lacks sep s)

pub split-lacks_on :
    (sep : ℕ) (s t : Text) → lacks sep s ≡ true → split sep (s ++ (sep ∷ t)) ≡ s ∷ split sep t
unfolding split lacks
split-lacks_on sep [] t h = ground arith
split-lacks_on sep (c ∷ s) t h = ground (arith, split-lacks_on sep s t)

cons_head-ne-nil : (c : ℕ) (parts : List Text) → cons_head c parts ≢ []
cons_head-ne-nil c [] h = cc
cons_head-ne-nil c (p ∷ ps) h = cc

pub split-ne-nil : (sep : ℕ) (s : Text) → split sep s ≢ []
unfolding split
split-ne-nil sep [] h = cc
split-ne-nil sep (c ∷ s) h = elim (Bool-cases (c == sep)) [
  | inl same ↦ let no : ([] ∷ split sep s) ≡ [] = rw same at h in cc
  | inr other ↦ cons_head-ne-nil c (split sep s) (rw other at h)
]
