-- ===== src/Scripts/Words/Laws.antt =====
-- The search for a word is the search among the words of the text, and those of joined files are
-- those of the files.
use rust_auth_example.Base.{
  ℕ, Bool, true, false, not, ◌&&◌, List, [], ◌∷◌, ◌++◌, ◌≡◌, ◌≢◌, refl, arith, any, every,
  any-append, if◌then◌else◌, ◌∙◌,
}
use rust_auth_example.Scripts.Words.{
  Text, first_word, is_word, spells, matches, is_used, same_text, has_text, join_files,
}

-- A name that the scripts search for: not empty, and of word characters only.
abbrev pub IsName : Text → Type 0
IsName name = (every is_word name ≡ true) × (name ≢ [])

-- The words of a text, each of them as long as it can be; the flag tells whether a word character
-- stands before the text.
unfoldable pub words : Bool → Text → List Text
words before [] = []
words before (c ∷ s) =
    let rest = words (is_word c) s in
    let word = c ∷ first_word s in if is_word c && not before then word ∷ rest else rest

spells-first_word :
    (name s : Text) → every is_word name ≡ true → spells true name s ≡ same_text name (first_word s)
unfolding spells first_word
spells-first_word [] [] h = refl
spells-first_word [] (c ∷ s) h = ground arith
spells-first_word (n ∷ ns) [] h = refl
spells-first_word (n ∷ ns) (c ∷ s) h = ground (arith, spells-first_word ns s)

matches-words :
    (before : Bool) (name s : Text)
    → IsName name
    → matches before name s ≡ any (same_text name) (words before s)
unfolding matches words spells
matches-words before [] s h = absurd (h.1 refl)
matches-words before (n ∷ ns) [] h = ground arith
matches-words before (n ∷ ns) (c ∷ s) h =
    ground (arith, matches-words (is_word c) (n ∷ ns) s h, spells-first_word ns s)

first_word-append :
    (c : ℕ) (s t : Text) → is_word c ≡ false → first_word (s ++ (c ∷ t)) ≡ first_word s
unfolding first_word
first_word-append c [] t h = ground arith
first_word-append c (d ∷ s) t h = ground (arith, first_word-append c s t h)

words-append :
    (before : Bool) (c : ℕ) (s t : Text)
    → is_word c ≡ false
    → words before (s ++ (c ∷ t)) ≡ words before s ++ words false t
unfolding words
words-append before c [] t h = ground arith
words-append before c (d ∷ s) t h =
    ground (arith, words-append (is_word d) c s t h, first_word-append c s t h)

words-separated :
    (s t : Text) → words false (s ++ (10 ∷ 0 ∷ 10 ∷ t)) ≡ words false s ++ words false t
unfolding words is_word
words-separated s t = words-append false 10 s (0 ∷ 10 ∷ t) refl

has_words-join_files :
    (name : Text) (fs : List Text)
    → any (same_text name) (words false (join_files fs))
      ≡ any (λ f. has_text (words false f) name) fs
unfolding join_files has_text words
has_words-join_files name [] = refl
has_words-join_files name (f ∷ []) = ground arith
has_words-join_files name (f ∷ g ∷ fs) =
    rw (words-separated f (join_files (g ∷ fs)), any-append, has_words-join_files name (g ∷ fs))
      refl

-- A name of word characters is found in the corpus exactly if it is a whole word of one of the
-- files: what separates the files makes no word of the end of one and the start of the next.
pub is_used-join_files :
    (name : Text) (fs : List Text)
    → IsName name
    → is_used (join_files fs) name ≡ any (λ f. has_text (words false f) name) fs
unfolding is_used
is_used-join_files name fs h =
    matches-words false name (join_files fs) h ∙ has_words-join_files name fs
