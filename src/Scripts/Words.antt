-- ===== src/Scripts/Words.antt =====
-- `new RegExp('\\b' + name + '\\b').test(corpus)`, as both scripts write it. Texts are lists of codes.
pub mod Laws
pub mod Members
use rust_auth_example.Base.{
  ℕ, ◌==◌, leb, Bool, true, false, not, ◌&&◌, ◌||◌, List, [], ◌∷◌, ◌++◌, any, if◌then◌else◌,
}

abbrev pub Text : Type 0
Text = List ℕ

-- `\w`
unfoldable pub is_word : ℕ → Bool
is_word c =
    (leb b'a' c && leb c b'z')
    || (leb b'A' c && leb c b'Z')
    || (leb b'0' c && leb c b'9')
    || (c == b'_')

abbrev pub starts_word : Text → Bool
starts_word [] = false
starts_word (c ∷ s) = is_word c

-- `\w*`, the word characters that a text begins with
unfoldable pub first_word : Text → Text
first_word [] = []
first_word (c ∷ s) = let rest = first_word s in if is_word c then c ∷ rest else []

-- `\b`, between a character that is of a word or not and the rest of the text
abbrev pub boundary : Bool → Text → Bool
boundary true s = not (starts_word s)
boundary false s = starts_word s

-- `name` and then the boundary
unfoldable pub spells : Bool → Text → Text → Bool
spells before [] s = boundary before s
spells before (n ∷ ns) [] = false
spells before (n ∷ ns) (c ∷ s) = let rest = spells (is_word n) ns s in (n == c) && rest

-- A match at the start of the rest of the text, or further on
unfoldable pub matches : Bool → Text → Text → Bool
matches before name [] = boundary before [] && spells before name []
matches before name (c ∷ s) =
    (boundary before (c ∷ s) && spells before name (c ∷ s)) || matches (is_word c) name s

-- `isUsed(corpus, symbol)`; the name is made of word characters, of which none is special in an
-- expression.
unfoldable pub is_used : Text → Text → Bool
is_used corpus symbol = matches false symbol corpus

abbrev pub same_text : Text → Text → Bool
same_text [] [] = true
same_text [] (d ∷ t) = false
same_text (c ∷ s) [] = false
same_text (c ∷ s) (d ∷ t) = (c == d) && same_text s t

-- `set.has(name)`
unfoldable pub has_text : List Text → Text → Bool
has_text names name = any (same_text name) names

-- `'\n\0\n'` of `buildCorpus`, between the files
unfoldable pub join_files : List Text → Text
join_files [] = []
join_files (f ∷ []) = f
join_files (f ∷ g ∷ fs) = f ++ (10 ∷ 0 ∷ 10 ∷ join_files (g ∷ fs))
