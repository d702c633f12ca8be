-- ===== src/Scripts/Words/Members.antt =====
-- Membership of texts in lists of texts.
use mathlib.Core.List.{Memᴰ}
use mathlib.Core.List.Memᴰ.{head, tail}
use rust_auth_example.Base.{
  All, ◌==◌, ==_iff, Bool, true, ◌||◌, ||_true, List, [], ◌∷◌, ◌≡◌, ◌↔◌, refl, ap₂, sym, subst,
  arith, any, any-append, Bool-cases, inl, inr, &&_iff,
}
use rust_auth_example.Scripts.Words.{Text, same_text, has_text}
use rust_auth_example.Scripts.Patterns.{add_text}

same_text_refl : (s : Text) → same_text s s ≡ true
same_text_refl [] = refl
same_text_refl (c ∷ s) = ground (arith, same_text_refl s)

same_text-eq : (s t : Text) → same_text s t ≡ true → s ≡ t
same_text-eq [] [] h = refl
same_text-eq [] (d ∷ t) h = cc
same_text-eq (c ∷ s) [] h = cc
same_text-eq (c ∷ s) (d ∷ t) h =
    let both = (&&_iff (c == d) (same_text s t)).0 h in
    ap₂ (λ x xs. x ∷ xs) ((==_iff c d).0 both.0) (same_text-eq s t both.1)

pub has_text-head : (x : Text) (xs : List Text) → has_text (x ∷ xs) x ≡ true
unfolding has_text
has_text-head x xs = rw (same_text_refl x) refl

pub has_text-tail :
    (y x : Text) (xs : List Text) → has_text xs x ≡ true → has_text (y ∷ xs) x ≡ true
unfolding has_text
has_text-tail y x xs h = ground arith

any-member :
    (p : Text → Bool) (xs : List Text)
    → any p xs ≡ true
    → (x : Text) × (has_text xs x ≡ true) × (p x ≡ true)
any-member p [] h = cc
any-member p (x ∷ xs) h = elim (||_true (p x) (any p xs) h) [
  | inl now ↦ (x, has_text-head x xs, now)
  | inr later ↦ let (y, mem, good) = any-member p xs later in (y, has_text-tail x y xs mem, good)
]

member-any :
    (p : Text → Bool) (xs : List Text) (x : Text)
    → has_text xs x ≡ true
    → p x ≡ true
    → any p xs ≡ true
unfolding has_text
member-any p [] x h good = cc
member-any p (y ∷ xs) x h good = elim (||_true (same_text x y) (any (same_text x) xs) h) [
  | inl same ↦ rw (subst (λ z. p z ≡ true) (same_text-eq x y same) good) refl
  | inr later ↦ ground (arith, member-any p xs x later good)
]

-- A test holds somewhere in a list exactly if it holds for one of its members.
pub any-member_iff :
    (p : Text → Bool) (xs : List Text)
    → (any p xs ≡ true) ↔ ((x : Text) × (has_text xs x ≡ true) × (p x ≡ true))
any-member_iff p xs = (any-member p xs, λ (x, mem, good). member-any p xs x mem good)

-- A test holds for a member of `set.add(name)` exactly if it does for one before or for the name.
pub any-add_text :
    (p : Text → Bool) (names : List Text) (name : Text)
    → any p (add_text names name) ≡ (any p names || p name)
unfolding add_text
any-add_text p names name = elim (Bool-cases (has_text names name)) [
  | inl old ↦ elim (Bool-cases (p name)) [
    | inl good ↦ rw (old, good, member-any p names name old good) refl
    | inr bad ↦ rw old (ground arith)
  ]
  | inr new ↦ rw (new, any-append p names (name ∷ [])) (ground arith)
]

-- What holds of all, holds of a member.
pub has_text-All :
    (P : Text → Type 0) (xs : List Text) (x : Text) → All P xs → has_text xs x ≡ true → P x
unfolding has_text
has_text-All P [] x a h = cc
has_text-All P (y ∷ ys) x a h = elim (||_true (same_text x y) (any (same_text x) ys) h) [
  | inl same ↦ subst P (sym (same_text-eq x y same)) a.0
  | inr later ↦ has_text-All P ys x a.1 later
]

module _ {ℓ} {A : Type ℓ} (p : A → Bool) where
  any-found : (xs : List A) → any p xs ≡ true → (x : A) × Memᴰ x xs × (p x ≡ true)
  any-found [] h = cc
  any-found (x ∷ xs) h = elim (||_true (p x) (any p xs) h) [
    | inl now ↦ (x, head refl, now)
    | inr later ↦ let (y, mem, good) = any-found xs later in (y, tail mem, good)
  ]

  found-any : (xs : List A) (x : A) → Memᴰ x xs → p x ≡ true → any p xs ≡ true
  found-any [] x mem h = elim mem [ ]
  found-any (y ∷ ys) x (head same) h = rw (subst (λ z. p z ≡ true) same h) refl
  found-any (y ∷ ys) x (tail mem) h = ground (arith, found-any ys x mem h)

  -- A test holds somewhere in a list exactly if it holds for one of its elements.
  pub any-found_iff : (xs : List A) → (any p xs ≡ true) ↔ ((x : A) × Memᴰ x xs × (p x ≡ true))
  any-found_iff xs = (any-found xs, λ (x, mem, good). found-any xs x mem good)
