-- ===== src/Scripts/PublicApi/Paths.antt =====
-- The paths of items, and the name that the script reads of one.
use rust_auth_example.Base.{
  ℕ, ◌==◌, Bool, true, false, not, ◌&&◌, &&_iff, some, List, [], ◌∷◌, ◌++◌, ◌≡◌, refl, ap, ◌∙◌,
  arith, every, All,
}
use rust_auth_example.Scripts.Words.{Text, is_word, starts_word}
use rust_auth_example.Scripts.Words.Laws.{IsName}
use rust_auth_example.Scripts.Patterns.{cons_head}
use rust_auth_example.Scripts.PublicApi.{path_match, split_path, last_part, short_name}
use rust_auth_example.Scripts.PublicApi.Names.{split_path-letter}

-- `a::b::name`, and what follows it on the line
abbrev pub path_of : (modules : List Text) → (name tail : Text) → Text
path_of [] name tail = name ++ tail
path_of (q ∷ qs) name tail = q ++ (b':' ∷ b':' ∷ path_of qs name tail)

-- The tail does not go on with the path.
abbrev pub ends_path : Text → Bool
ends_path [] = true
ends_path (c ∷ []) = not (is_word c)
ends_path (c ∷ d ∷ s) = not (is_word c) && not ((c == b':') && (d == b':'))

path_match-letter : (c : ℕ) (t : Text) → is_word c ≡ true → path_match (c ∷ t) ≡ c ∷ path_match t
unfolding path_match is_word
path_match-letter c [] h = ground arith
path_match-letter c (d ∷ t) h = ground arith

path_match-word : (p t : Text) → every is_word p ≡ true → path_match (p ++ t) ≡ p ++ path_match t
path_match-word [] t h = refl
path_match-word (c ∷ p) t h =
    path_match-letter c (p ++ t) (ground arith)
    ∙ ap (λ l. c ∷ l) (path_match-word p t (ground arith))

path_match-colons :
    (s : Text) → starts_word s ≡ true → path_match (b':' ∷ b':' ∷ s) ≡ b':' ∷ b':' ∷ path_match s
unfolding path_match is_word
path_match-colons s h = rw h refl

path_match-tail : (tail : Text) → ends_path tail ≡ true → path_match tail ≡ []
unfolding path_match
path_match-tail [] h = refl
path_match-tail (c ∷ []) h = ground arith
path_match-tail (c ∷ d ∷ s) h =
    let (letter, colons) = (&&_iff (not (is_word c)) (not ((c == b':') && (d == b':')))).0 h in
    let no_letter : is_word c ≡ false = ground arith in
    let no_colons : ((c == b':') && (d == b':')) ≡ false = ground arith in
    rw (no_letter, no_colons) refl

pub starts-append : (p t : Text) → IsName p → starts_word (p ++ t) ≡ true
starts-append [] t h = absurd (h.1 refl)
starts-append (c ∷ p) t h = let letters = h.0 in ground arith

pub starts-path :
    (qs : List Text) (name tail : Text)
    → All IsName qs
    → IsName name
    → starts_word (path_of qs name tail) ≡ true
starts-path [] name tail a h = starts-append name tail h
starts-path (q ∷ qs) name tail a h = starts-append q (b':' ∷ b':' ∷ path_of qs name tail) a.0

path_match-path_of :
    (qs : List Text) (name tail : Text)
    → All IsName qs
    → IsName name
    → ends_path tail ≡ true
    → path_match (path_of qs name tail) ≡ path_of qs name []
path_match-path_of [] name tail a h e =
    path_match-word name tail h.0 ∙ ap (λ t. name ++ t) (path_match-tail tail e)
path_match-path_of (q ∷ qs) name tail a h e =
    path_match-word q (b':' ∷ b':' ∷ path_of qs name tail) a.0.0
    ∙ ap (λ t. q ++ t)
        (path_match-colons (path_of qs name tail) (starts-path qs name tail a.1 h)
          ∙ ap (λ t. b':' ∷ b':' ∷ t) (path_match-path_of qs name tail a.1 h e))

split_path-word : (p : Text) → every is_word p ≡ true → split_path (p ++ []) ≡ p ∷ []
unfolding split_path
split_path-word [] h = refl
split_path-word (c ∷ p) h =
    split_path-letter c (p ++ []) (ground arith)
    ∙ ap (cons_head c) (split_path-word p (ground arith))

split_path-colons :
    (p t : Text) → every is_word p ≡ true → split_path (p ++ (b':' ∷ b':' ∷ t)) ≡ p ∷ split_path t
unfolding split_path
split_path-colons [] t h = refl
split_path-colons (c ∷ p) t h =
    split_path-letter c (p ++ (b':' ∷ b':' ∷ t)) (ground arith)
    ∙ ap (cons_head c) (split_path-colons p t (ground arith))

split_path-path_of :
    (qs : List Text) (name : Text)
    → All IsName qs
    → IsName name
    → split_path (path_of qs name []) ≡ qs ++ (name ∷ [])
split_path-path_of [] name a h = split_path-word name h.0
split_path-path_of (q ∷ qs) name a h =
    split_path-colons q (path_of qs name []) a.0.0
    ∙ ap (λ l. q ∷ l) (split_path-path_of qs name a.1 h)

last_part-append : (qs : List Text) (name : Text) → last_part (qs ++ (name ∷ [])) ≡ name
unfolding last_part
last_part-append [] name = refl
last_part-append (p ∷ []) name = refl
last_part-append (p ∷ q ∷ qs) name = last_part-append (q ∷ qs) name

pub short_name-path_of :
    (qs : List Text) (name tail : Text)
    → All IsName qs
    → IsName name
    → ends_path tail ≡ true
    → short_name (path_of qs name tail) ≡ some name
unfolding short_name
short_name-path_of qs name tail a h e =
    rw
      (
        starts-path qs name tail a h,
        path_match-path_of qs name tail a h e,
        split_path-path_of qs name a h,
        last_part-append qs name,
      )
      refl
