-- ===== src/Base/Prefixes.antt =====
-- Laws of `starts_with`.
use Prim.Native.String.{String, ◌++◌}
use mathlib.Core.Path.{◌≡◌, sym, ap, ap₂, ◌∙◌}
use mathlib.Core.Bool.{true}
use mathlib.Core.Logic.{◌⊎◌, inl, inr}
use text.Mathlib.Text.{starts_with}
use text.Mathlib.TextBridge.{IsPrefix}
use text.Mathlib.TextEquality.{starts_with_iff}
use text.Mathlib.TextPositions.{starts_with_of_prefix}
use text.Mathlib.TextLemmas.{
  nil-append, cons-append, append_assoc, head-eq_of_cons-eq, tail-eq_of_cons-eq,
}

comparable : (a b r q : String) → a ++ r ≡ b ++ q → IsPrefix a b ⊎ IsPrefix b a
comparable String.[] b r q e = inl (b, nil-append b)
comparable (String.◌∷◌ c a) String.[] r q e = inr (String.◌∷◌ c a, nil-append _)
comparable (String.◌∷◌ c a) (String.◌∷◌ d b) r q e =
    let e' = sym (cons-append c a r) ∙ e ∙ cons-append d b q in
    let same = head-eq_of_cons-eq e' in
    elim (comparable a b r q (tail-eq_of_cons-eq e')) [
      | inl (x, h) ↦ inl (x, cons-append c a x ∙ ap₂ String.◌∷◌ same h)
      | inr (x, h) ↦ inr (x, cons-append d b x ∙ ap₂ String.◌∷◌ (sym same) h)
    ]

-- Two prefixes of one text are comparable.
pub starts_with_comparable :
    (s a b : String)
    → starts_with s a ≡ true
    → starts_with s b ≡ true
    → (starts_with b a ≡ true) ⊎ (starts_with a b ≡ true)
starts_with_comparable s a b p q =
    let (r, e) = (starts_with_iff s a).0 p in
    let (t, f) = (starts_with_iff s b).0 q in
    elim (comparable a b r t (e ∙ sym f)) [
      | inl h ↦ inl (starts_with_of_prefix a b h)
      | inr h ↦ inr (starts_with_of_prefix b a h)
    ]

pub starts_with_trans :
    (s a b : String) → starts_with s a ≡ true → starts_with a b ≡ true → starts_with s b ≡ true
starts_with_trans s a b p q =
    let (r, e) = (starts_with_iff s a).0 p in
    let (t, f) = (starts_with_iff a b).0 q in
    starts_with_of_prefix b s (t ++ r, sym (append_assoc b t r) ∙ ap (λ x. x ++ r) f ∙ e)
