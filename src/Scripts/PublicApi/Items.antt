-- ===== src/Scripts/PublicApi/Items.antt =====
-- The lines by which a snapshot lists an item, and the name that the script reads of them.
use rust_auth_example.Base.{
  ◌==◌, Bool, true, false, &&_iff, none, some, List, [], ◌∷◌, ◌++◌, ◌≡◌, refl, arith, every, All,
  codes, is_space, Bool-cases, inl, inr,
}
use rust_auth_example.Scripts.Words.{Text, is_word, starts_word}
use rust_auth_example.Scripts.Words.Laws.{IsName}
use rust_auth_example.Scripts.Patterns.{
  eat, eat_word, eat_keyword, eat_modifier, skip_spaces, eat_spaces,
}
use rust_auth_example.Scripts.PublicApi.{keywords, strip_keyword, name_of}
use rust_auth_example.Scripts.PublicApi.Paths.{
  path_of, ends_path, starts-append, starts-path, short_name-path_of,
}

-- What an item is: `word` is how Rust writes it.
pub data Kind : Type 0 where
  fn_item struct_item enum_item trait_item type_item const_item static_item macro_item mod_item
        impl_item use_item :
      Kind

abbrev pub word : Kind → Text
word fn_item = codes "fn"
word struct_item = codes "struct"
word enum_item = codes "enum"
word trait_item = codes "trait"
word type_item = codes "type"
word const_item = codes "const"
word static_item = codes "static"
word macro_item = codes "macro"
word mod_item = codes "mod"
word impl_item = codes "impl"
word use_item = codes "use"

-- The line of an item with its modifiers and its keyword, and that of a variant or of a field, which
-- has none.
abbrev pub item_line : (is_unsafe is_async : Bool) → Kind → Text → Text
item_line false false k path = codes "pub " ++ (word k ++ (32 ∷ path))
item_line true false k path = codes "pub unsafe " ++ (word k ++ (32 ∷ path))
item_line false true k path = codes "pub async " ++ (word k ++ (32 ∷ path))
item_line true true k path = codes "pub unsafe async " ++ (word k ++ (32 ∷ path))

abbrev pub member_line : Text → Text
member_line path = codes "pub " ++ path

eat_spaces-letter : (path : Text) → starts_word path ≡ true → eat_spaces (32 ∷ path) ≡ some path
unfolding eat_spaces skip_spaces is_space is_word
eat_spaces-letter [] h = cc
eat_spaces-letter (c ∷ s) h = ground arith

module _ (path : Text) (starts : starts_word path ≡ true) where
  eat_keyword-word : (k : Kind) → eat_keyword keywords (word k ++ (32 ∷ path)) ≡ some path
  unfolding eat_keyword eat_word eat
  eat_keyword-word fn_item = rw (eat_spaces-letter path starts) refl
  eat_keyword-word struct_item = rw (eat_spaces-letter path starts) refl
  eat_keyword-word enum_item = rw (eat_spaces-letter path starts) refl
  eat_keyword-word trait_item = rw (eat_spaces-letter path starts) refl
  eat_keyword-word type_item = rw (eat_spaces-letter path starts) refl
  eat_keyword-word const_item = rw (eat_spaces-letter path starts) refl
  eat_keyword-word static_item = rw (eat_spaces-letter path starts) refl
  eat_keyword-word macro_item = rw (eat_spaces-letter path starts) refl
  eat_keyword-word mod_item = rw (eat_spaces-letter path starts) refl
  eat_keyword-word impl_item = rw (eat_spaces-letter path starts) refl
  eat_keyword-word use_item = rw (eat_spaces-letter path starts) refl

-- No white space and no modifier stands before the keyword.
bare :
    (k : Kind) (path : Text)
    → (skip_spaces (word k ++ (32 ∷ path)) ≡ word k ++ (32 ∷ path))
      × (eat_modifier (codes "unsafe") (word k ++ (32 ∷ path)) ≡ word k ++ (32 ∷ path))
      × (eat_modifier (codes "async") (word k ++ (32 ∷ path)) ≡ word k ++ (32 ∷ path))
unfolding eat_modifier eat_word eat skip_spaces is_space
bare fn_item path = (refl, refl, refl)
bare struct_item path = (refl, refl, refl)
bare enum_item path = (refl, refl, refl)
bare trait_item path = (refl, refl, refl)
bare type_item path = (refl, refl, refl)
bare const_item path = (refl, refl, refl)
bare static_item path = (refl, refl, refl)
bare macro_item path = (refl, refl, refl)
bare mod_item path = (refl, refl, refl)
bare impl_item path = (refl, refl, refl)
bare use_item path = (refl, refl, refl)

stripped :
    (is_unsafe is_async : Bool) (k : Kind) (path : Text)
    → strip_keyword (item_line is_unsafe is_async k path)
      ≡ eat_keyword keywords (word k ++ (32 ∷ path))
unfolding strip_keyword eat_word eat eat_spaces skip_spaces is_space
stripped false false k path = rw ((bare k path).0, (bare k path).1, (bare k path).2) refl
stripped true false k path = rw ((bare k path).0, (bare k path).2) refl
stripped false true k path = rw ((bare k path).0) refl
stripped true true k path = rw ((bare k path).0) refl

-- A word that is followed by a colon is no keyword and no modifier.
eat_word-none :
    (w p t : Text)
    → every is_word w ≡ true
    → every is_word p ≡ true
    → eat_word w (p ++ (b':' ∷ t)) ≡ none
unfolding eat_word eat eat_spaces is_space is_word
eat_word-none [] [] t h k = refl
eat_word-none [] (c ∷ p) t h k =
    let (letter, _) = (&&_iff (is_word c) (every is_word p)).0 k in
    let no_space : is_space c ≡ false = ground arith in rw no_space refl
eat_word-none (a ∷ w) [] t h k =
    let (letter, _) = (&&_iff (is_word a) (every is_word w)).0 h in
    let other : (a == b':') ≡ false = ground arith in rw other refl
eat_word-none (a ∷ w) (c ∷ p) t h k =
    let (_, later) = (&&_iff (is_word a) (every is_word w)).0 h in
    let (_, rest) = (&&_iff (is_word c) (every is_word p)).0 k in
    elim (Bool-cases (a == c)) [
      | inl same ↦ rw same (eat_word-none w p t later rest)
      | inr other ↦ rw other refl
    ]

eat_keyword-none :
    (ks : List Text) (p t : Text)
    → every (every is_word) ks ≡ true
    → every is_word p ≡ true
    → eat_keyword ks (p ++ (b':' ∷ t)) ≡ none
unfolding eat_keyword
eat_keyword-none [] p t h k = refl
eat_keyword-none (w ∷ ks) p t h k =
    let (here, later) = (&&_iff (every is_word w) (every (every is_word) ks)).0 h in
    rw (eat_keyword, eat_word-none w p t here k) (eat_keyword-none ks p t later k)

eat_modifier-none :
    (w p t : Text)
    → every is_word w ≡ true
    → every is_word p ≡ true
    → eat_modifier w (p ++ (b':' ∷ t)) ≡ p ++ (b':' ∷ t)
unfolding eat_modifier
eat_modifier-none w p t h k = rw (eat_word-none w p t h k) refl

skip_spaces-letter : (path : Text) → starts_word path ≡ true → skip_spaces path ≡ path
unfolding skip_spaces is_space is_word
skip_spaces-letter [] h = refl
skip_spaces-letter (c ∷ s) h = ground arith

strip_keyword-member :
    (path : Text)
    → starts_word path ≡ true
    → strip_keyword (member_line path)
      ≡ eat_keyword keywords (eat_modifier (codes "async") (eat_modifier (codes "unsafe") path))
unfolding strip_keyword eat_word eat eat_spaces is_space
strip_keyword-member path h = rw (skip_spaces-letter path h) refl

strip_keyword-none : (p t : Text) → IsName p → strip_keyword (member_line (p ++ (b':' ∷ t))) ≡ none
unfolding is_word
strip_keyword-none p t h =
    rw
      (
        strip_keyword-member (p ++ (b':' ∷ t)) (starts-append p (b':' ∷ t) h),
        eat_modifier-none (codes "unsafe") p t refl h.0,
        eat_modifier-none (codes "async") p t refl h.0,
        eat_keyword-none keywords p t refl h.0,
      )
      refl

-- A line lists an item under this name, the last word of the path on it: the path stands after a
-- keyword, or after `pub` alone if it has a module or a type before the name.
pub data Lists (name : Text) : Text → Type 0 where
  item :
      (is_unsafe is_async : Bool) (k : Kind) (qs : List Text) (tail : Text)
      → All IsName qs
      → IsName name
      → ends_path tail ≡ true
      → Lists name (item_line is_unsafe is_async k (path_of qs name tail))
  member :
      (q : Text) (qs : List Text) (tail : Text)
      → All IsName (q ∷ qs)
      → IsName name
      → ends_path tail ≡ true
      → Lists name (member_line (path_of (q ∷ qs) name tail))

-- What is behind `pub ` is kept.
eat-item_line :
    (is_unsafe is_async : Bool) (k : Kind) (path : Text)
    → (rest : Text) × (eat (codes "pub ") (item_line is_unsafe is_async k path) ≡ some rest)
unfolding eat
eat-item_line false false k path = (_, refl)
eat-item_line true false k path = (_, refl)
eat-item_line false true k path = (_, refl)
eat-item_line true true k path = (_, refl)

name_of-item :
    (is_unsafe is_async : Bool) (k : Kind) (qs : List Text) (name tail : Text)
    → All IsName qs
    → IsName name
    → ends_path tail ≡ true
    → name_of (item_line is_unsafe is_async k (path_of qs name tail)) ≡ some name
unfolding name_of
name_of-item is_unsafe is_async k qs name tail a h e =
    let path = path_of qs name tail in
    let (rest, there) = eat-item_line is_unsafe is_async k path in
    rw
      (
        there,
        stripped is_unsafe is_async k path,
        eat_keyword-word path (starts-path qs name tail a h) k,
      )
      (short_name-path_of qs name tail a h e)

name_of-member :
    (q : Text) (qs : List Text) (name tail : Text)
    → All IsName (q ∷ qs)
    → IsName name
    → ends_path tail ≡ true
    → name_of (member_line (path_of (q ∷ qs) name tail)) ≡ some name
unfolding name_of eat
name_of-member q qs name tail a h e =
    rw (strip_keyword-none q (b':' ∷ path_of qs name tail) a.0)
      (short_name-path_of (q ∷ qs) name tail a h e)

-- Of a line that lists an item the script reads this name.
pub name_of-Lists : (name line : Text) → Lists name line → name_of line ≡ some name
name_of-Lists name line (item is_unsafe is_async k qs tail a h e) =
    name_of-item is_unsafe is_async k qs name tail a h e
name_of-Lists name line (member q qs tail a h e) = name_of-member q qs name tail a h e
