-- ===== src/Scripts/Files/Laws.antt =====
-- The walk finds the files that stand below no skipped name.
use rust_auth_example.Base.{
  Bool, true, false, ◌||◌, List, [], ◌∷◌, ◌++◌, ◌≡◌, ◌↔◌, refl, arith, any, any-append, ||_true,
  Bool-cases, inl, inr, if◌then◌else◌, ◌⊎◌,
}
use rust_auth_example.Scripts.Words.{Text, has_text}
use rust_auth_example.Scripts.Files.{Entries, end, file, dir, walk, list_entry, code_of_missing}

module _ (skip_dirs : List Text) (takes : Text → Bool) where
  -- `text` is that of a file whose name is taken, at a path on which no name is skipped.
  pub data Found : Entries → Text → Type 0 where
    here :
        {name text : Text} {es : Entries}
        → has_text skip_dirs name ≡ false
        → takes name ≡ true
        → Found (file name text es) text
    below :
        {name text : Text} {inner es : Entries}
        → has_text skip_dirs name ≡ false
        → Found inner text
        → Found (dir name inner es) text
    after_file :
        {name other text : Text} {es : Entries} → Found es text → Found (file name other es) text
    after_dir :
        {name text : Text} {inner es : Entries} → Found es text → Found (dir name inner es) text

  module _ (q : Text → Bool) where
    file-cases :
        (base : List Text) (name text : Text) (es : Entries)
        → any (λ f. q (f.1)) (walk skip_dirs takes base (file name text es)) ≡ true
        → ((has_text skip_dirs name ≡ false) × (takes name ≡ true) × (q text ≡ true))
          ⊎ (any (λ f. q (f.1)) (walk skip_dirs takes base es) ≡ true)
    unfolding walk
    file-cases base name text es h = ground arith

    walk-dir :
        (base : List Text) (name : Text) (inner es : Entries)
        → any (λ f. q (f.1)) (walk skip_dirs takes base (dir name inner es)) ≡ (
            if has_text skip_dirs name
            then any (λ f. q (f.1)) (walk skip_dirs takes base es)
            else any (λ f. q (f.1)) (walk skip_dirs takes (base ++ (name ∷ [])) inner)
              || any (λ f. q (f.1)) (walk skip_dirs takes base es))
    unfolding walk
    walk-dir base name inner es = ground (
      arith,
      any-append (λ f. q (f.1)) (walk skip_dirs takes (base ++ (name ∷ [])) inner)
          (walk skip_dirs takes base es),
    )

    any-walk-Found :
        (base : List Text) (es : Entries)
        → any (λ f. q (f.1)) (walk skip_dirs takes base es) ≡ true
        → (text : Text) × Found es text × (q text ≡ true)
    unfolding walk
    any-walk-Found base end h = cc
    any-walk-Found base (file name text es) h = elim (file-cases base name text es h) [
      | inl (kept, taken, good) ↦ (text, here kept taken, good)
      | inr later ↦
          let (text, found, good) = any-walk-Found base es later in (text, after_file found, good)
    ]
    any-walk-Found base (dir name inner es) h = elim (Bool-cases (has_text skip_dirs name)) [
      | inl skipped ↦
          let (text, found, good) =
            any-walk-Found base es (rw (walk-dir base name inner es, skipped) at h) in
          (text, after_dir found, good)
      | inr kept ↦ elim (||_true _ _ (rw (walk-dir base name inner es, kept) at h)) [
        | inl within ↦
            let (text, found, good) = any-walk-Found (base ++ (name ∷ [])) inner within in
            (text, below kept found, good)
        | inr later ↦
            let (text, found, good) = any-walk-Found base es later in (text, after_dir found, good)
      ]
    ]

    Found-any-walk :
        (base : List Text) (es : Entries) (text : Text)
        → Found es text
        → q text ≡ true
        → any (λ f. q (f.1)) (walk skip_dirs takes base es) ≡ true
    unfolding walk
    Found-any-walk base end text found h = elim found [ ]
    Found-any-walk base (file name _ es) text (here kept taken) h = ground arith
    Found-any-walk base (dir name inner es) text (below kept found) h = ground (
      arith,
      walk-dir base name inner es,
      Found-any-walk (base ++ (name ∷ [])) inner text found h,
    )
    Found-any-walk base (file name other es) text (after_file found) h =
        ground (arith, Found-any-walk base es text found h)
    Found-any-walk base (dir name inner es) text (after_dir found) h =
        ground (arith, walk-dir base name inner es, Found-any-walk base es text found h)

  -- The walk reads a text with a property exactly if there is one in the tree: no file that counts is
  -- missed, and none below a skipped name or with another extension is read.
  pub walk_iff :
      (q : Text → Bool) (base : List Text) (es : Entries)
      → (any (λ f. q (f.1)) (walk skip_dirs takes base es) ≡ true)
        ↔ ((text : Text) × Found es text × (q text ≡ true))
  walk_iff q base es =
      (any-walk-Found q base es, λ (text, found, good). Found-any-walk q base es text found good)

abbrev pub non_empty {ℓ} : {A : Type ℓ} → List A → Bool
non_empty [] = false
non_empty (x ∷ xs) = true

pub entry-non_empty :
    (key : Text) (names : List Text) (rest : List (Text × List Text))
    → non_empty (list_entry key names rest) ≡ (non_empty names || non_empty rest)
entry-non_empty key [] rest = refl
entry-non_empty key (n ∷ ns) rest = refl

-- Without `--report` a script fails exactly if it lists anything.
pub code_of_missing_iff :
    (missing : List (Text × List Text))
    → (code_of_missing false missing ≡ 1) ↔ (non_empty missing ≡ true)
code_of_missing_iff [] = (λ h. ground arith, λ h. cc)
code_of_missing_iff (m ∷ ms) = (λ _. refl, λ _. refl)
