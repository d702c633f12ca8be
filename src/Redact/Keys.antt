-- ===== src/Redact/Keys.antt =====
-- `SECRET_KEY_RE` of apps/web/components/audit/AuditTable.tsx,
-- `/token|secret|password|otp|recovery|ticket|\bcode\b/i`, as a matcher over code points.
use rust_auth_example.Base.{
  ℕ, ◌+◌, Bool, true, false, not, ◌&&◌, ◌||◌, String, List, [], ◌∷◌, map, any, drop, codes, leb,
  ◌==◌, if◌then◌else◌,
}

-- The flag `i`, without `u`, folds the case of ASCII letters only.
fold_case : ℕ → ℕ
fold_case c = if leb b'A' c && leb c b'Z' then c + 32 else c

-- `\w`, of a text in lower case
is_word : ℕ → Bool
is_word c = ((leb b'a' c && leb c b'z') || (leb b'0' c && leb c b'9')) || (c == b'_')

begins : List ℕ → List ℕ → Bool
begins [] s = true
begins (p ∷ ps) [] = false
begins (p ∷ ps) (c ∷ s) = (p == c) && begins ps s

pub occurs_in : List ℕ → List ℕ → Bool
unfolding begins
occurs_in pat [] = begins pat []
occurs_in pat (c ∷ s) = begins pat (c ∷ s) || occurs_in pat s

-- `\b` after a match: the text goes on with no word character.
at_boundary : List ℕ → Bool
at_boundary [] = true
at_boundary (c ∷ s) = not (is_word c)

-- `\bcode\b`; the first argument tells whether a word character stands before the text.
code_word : Bool → List ℕ → Bool
code_word before [] = false
code_word before (c ∷ s) =
    (not before && (begins (codes "code") (c ∷ s) && at_boundary (drop 4 (c ∷ s))))
    || code_word (is_word c) s

abbrev pub secret_words : List String
secret_words = "token" ∷ "secret" ∷ "password" ∷ "otp" ∷ "recovery" ∷ "ticket" ∷ []

-- `SECRET_KEY_RE.test(key)`
unfoldable pub secret_key_re : String → Bool
unfolding fold_case is_word begins occurs_in at_boundary code_word
secret_key_re key =
    let s = map fold_case (codes key) in
    any (λ w. occurs_in (codes w) s) secret_words || code_word false s
