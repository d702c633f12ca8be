-- ===== src/Base/Texts.antt =====
-- Sets of texts, and texts as lists of code points.
use Prim.Native.Char.{code}
use Prim.Native.Nat.{ℕ}
use Prim.Native.String.{String}
use mathlib.Core.Path.{◌≡◌, subst}
use mathlib.Core.Bool.{Bool, true, false, ◌||◌, ◌&&◌}
use mathlib.Core.Logic.{inl, inr}
use mathlib.Core.List.{List, [], ◌∷◌}
use native.Mathlib.Omega.{arith}
use text.Mathlib.Text.{◌==◌ as str_eq}
use text.Mathlib.TextEquality.{eq_iff}
use rust_auth_example.Base.Tests.{Bool-cases, ◌==◌, leb}
use rust_auth_example.Base.Lists.{every}

abbrev pub codes : String → List ℕ
codes String.[] = []
codes (String.◌∷◌ c s) = code c ∷ codes s

-- The characters of `\s`, which are those that `trim` drops
unfoldable pub is_space : ℕ → Bool
is_space c =
    (leb 9 c && leb c 13)
    || c == 32
    || c == 160
    || c == 5760
    || (leb 8192 c && leb c 8202)
    || c == 8232
    || c == 8233
    || c == 8239
    || c == 8287
    || c == 12288
    || c == 65279

-- `set.has(key)` and `list.includes(key)`
unfoldable pub has : List String → String → Bool
has [] key = false
has (k ∷ ks) key = str_eq k key || has ks key

-- What every member passes, a text in the set passes.
pub has-every :
    (p : String → Bool) (ks : List String) (key : String)
    → has ks key ≡ true
    → every p ks ≡ true
    → p key ≡ true
unfolding has
has-every p [] key h e = cc
has-every p (k ∷ ks) key h e = elim (Bool-cases (str_eq k key)) [
  | inl same ↦ subst (λ t. p t ≡ true) ((eq_iff k key).0 same) (ground arith)
  | inr other ↦ has-every p ks key (rw other at h) (ground arith)
]
