-- ===== src/Scripts/PublicApi/Laws.antt =====
-- When the check of the snapshots fails.
use rust_auth_example.Base.{
  Bool, true, false, not, ◌&&◌, ◌||◌, ||_true, Option, none, some, Option-cases, List, [], ◌∷◌, ◌≡◌,
  ◌↔◌, ◌⊎◌, refl, sym, ◌∙◌, arith, any, any-append, any-map, Bool-cases, inl, inr, map,
}
use rust_auth_example.Scripts.Words.{Text, has_text, is_used}
use rust_auth_example.Scripts.Words.Laws.{IsName, words, is_used-join_files}
use rust_auth_example.Scripts.Words.Members.{any-member_iff, any-add_text}
use rust_auth_example.Scripts.Files.{Entries, walk, walk_rs, rs_skip_dirs, takes_rs}
use rust_auth_example.Scripts.Files.Laws.{
  Found, walk_iff, non_empty, entry-non_empty, code_of_missing_iff,
}
use rust_auth_example.Scripts.Patterns.{trim, split, add_found}
use rust_auth_example.Scripts.PublicApi.{
  name_of, add_lines, parse_snapshot, rs_files, rs_corpus, missing_names, snapshots, missing_of,
  missing_by_crate, load_allow, ApiFiles, check_public_api,
}
use rust_auth_example.Scripts.PublicApi.Names.{name_of-IsName}
use rust_auth_example.Scripts.PublicApi.Items.{Lists, name_of-Lists}

-- `p` of the name that a line adds, if it adds one
abbrev on_line : (Text → Bool) → Text → Bool
on_line p line = elim (name_of (trim line)) [ none ↦ false | some name ↦ p name ]

any-add_found :
    (p : Text → Bool) (names : List Text) (o : Option Text)
    → any p (add_found names o) ≡ (any p names || elim o [ none ↦ false | some name ↦ p name ])
any-add_found p names none = ground arith
any-add_found p names (some name) = any-add_text p names name

any-add_lines :
    (p : Text → Bool) (lines names : List Text)
    → any p (add_lines names lines) ≡ (any p names || any (on_line p) lines)
unfolding add_lines
any-add_lines p [] names = ground arith
any-add_lines p (line ∷ lines) names =
    rw (any-add_lines p lines (add_found names (name_of (trim line))))
      (ground (arith, any-add_found p names (name_of (trim line))))

-- The text of a file of the API, below a directory that is not skipped
abbrev pub InDirs : List Entries → Text → Type 0
InDirs [] text = ⊥
InDirs (es ∷ dirs) text = Found rs_skip_dirs takes_rs es text ⊎ InDirs dirs text

-- A file of the API has the name as one of its words.
abbrev pub IsReferenced : List Entries → Text → Type 0
IsReferenced dirs name =
    (text : Text) × InDirs dirs text × (has_text (words false text) name ≡ true)

any-rs_files-InDirs :
    (q : Text → Bool) (dirs : List Entries)
    → (any (λ f. q (f.1)) (rs_files dirs) ≡ true)
      ↔ ((text : Text) × InDirs dirs text × (q text ≡ true))
unfolding rs_files walk_rs
any-rs_files-InDirs q [] = (λ h. cc, λ (text, none_in, good). absurd none_in)
any-rs_files-InDirs q (es ∷ dirs) =
    let here = walk_iff rs_skip_dirs takes_rs q [] es in
    let later = any-rs_files-InDirs q dirs in
    (
      λ h.
          elim (||_true _ _ (
            rw (any-append (λ f. q (f.1)) (walk rs_skip_dirs takes_rs [] es) (rs_files dirs)) at
              h)) [
                | inl first ↦ let (text, found, good) = here.0 first in (text, inl found, good)
                | inr rest ↦ let (text, found, good) = later.0 rest in (text, inr found, good)
              ],
      λ (text, found, good).
          rw (any-append (λ f. q (f.1)) (walk rs_skip_dirs takes_rs [] es) (rs_files dirs))
            (elim found [
              | inl first ↦ rw (here.1 (text, first, good)) refl
              | inr rest ↦ ground (arith, later.1 (text, rest, good))
            ]),
    )

is_used-IsReferenced :
    (dirs : List Entries) (name : Text)
    → IsName name
    → (is_used (rs_corpus dirs) name ≡ true) ↔ IsReferenced dirs name
unfolding rs_corpus
is_used-IsReferenced dirs name h =
    rw
      (
        is_used-join_files name (map (λ f. f.1) (rs_files dirs)) h,
        any-map (λ f. has_text (words false f) name) (λ f. f.1) (rs_files dirs),
      )
      (any-rs_files-InDirs (λ f. has_text (words false f) name) dirs)

is_lost : List Text → Text → Text → Bool
is_lost allow corpus name = not (has_text allow name) && not (is_used corpus name)

missing_names-any :
    (allow : List Text) (corpus : Text) (names : List Text)
    → non_empty (missing_names allow corpus names) ≡ any (is_lost allow corpus) names
unfolding missing_names is_lost
missing_names-any allow corpus [] = refl
missing_names-any allow corpus (name ∷ names) = ground (arith, missing_names-any allow corpus names)

abbrev is_lost_in : List Text → Text → Option Text → Bool
is_lost_in allow corpus none = false
is_lost_in allow corpus (some text) = any (on_line (is_lost allow corpus)) (split b'\n' text)

missing_of-any :
    (allow : List Text) (corpus : Text) (o : Option Text)
    → non_empty (missing_of allow corpus o) ≡ is_lost_in allow corpus o
unfolding parse_snapshot
missing_of-any allow corpus none = refl
missing_of-any allow corpus (some text) =
    missing_names-any allow corpus (parse_snapshot text)
    ∙ any-add_lines (is_lost allow corpus) (split b'\n' text) []

missing_by_crate-any :
    (allow : List Text) (corpus : Text) (read : Text → Option Text) (files : List Text)
    → non_empty (missing_by_crate allow corpus read files)
      ≡ any (λ file. is_lost_in allow corpus (read file)) files
unfolding missing_by_crate
missing_by_crate-any allow corpus read [] = refl
missing_by_crate-any allow corpus read (file ∷ files) =
    rw (entry-non_empty, missing_of-any, missing_by_crate-any allow corpus read files) refl

-- A name that a snapshot lists, and that is neither allowed nor a word of a file of the API.
pub record IsLost (files : ApiFiles) (allow : List Text) : Type 0 where
  pub file : Text
  pub text : Text
  pub line : Text
  pub name : Text
  pub is_snapshot : has_text snapshots file ≡ true
  pub is_there : files.read_snapshot file ≡ some text
  pub stands : has_text (split b'\n' text) line ≡ true
  pub is_named : name_of (trim line) ≡ some name
  pub not_allowed : has_text allow name ≡ false
  pub not_referenced : ¬ IsReferenced files.dirs name

is_lost_iff :
    (allow : List Text) (dirs : List Entries) (name : Text)
    → IsName name
    → (is_lost allow (rs_corpus dirs) name ≡ true)
      ↔ ((has_text allow name ≡ false) × ¬ IsReferenced dirs name)
unfolding is_lost
is_lost_iff allow dirs name h =
    let used = is_used-IsReferenced dirs name h in
    (
      λ lost. (ground arith, λ r. let found = used.1 r in ground arith),
      λ (not_allowed, unused). elim (Bool-cases (is_used (rs_corpus dirs) name)) [
        | inl found ↦ absurd (unused (used.0 found))
        | inr missed ↦ ground arith
      ],
    )

module _ (files : ApiFiles) (allow : List Text) where
  IsLost-line :
      (file text line : Text)
      → has_text snapshots file ≡ true
      → files.read_snapshot file ≡ some text
      → has_text (split b'\n' text) line ≡ true
      → on_line (is_lost allow (rs_corpus files.dirs)) line ≡ true
      → IsLost files allow
  IsLost-line file text line known there stands lost = elim (Option-cases (name_of (trim line))) [
    | inl nothing ↦ let no : false ≡ true = rw (on_line, nothing) at lost in cc
    | inr (name, named) ↦
        let (not_allowed, unused) =
          (is_lost_iff allow files.dirs name (name_of-IsName (trim line) name named)).0
            (rw (on_line, named) at lost) in
        record {
          file = file;
          text = text;
          line = line;
          name = name;
          is_snapshot = known;
          is_there = there;
          stands = stands;
          is_named = named;
          not_allowed = not_allowed;
          not_referenced = unused;
        }
  ]

  IsLost-file :
      (file : Text)
      → has_text snapshots file ≡ true
      → is_lost_in allow (rs_corpus files.dirs) (files.read_snapshot file) ≡ true
      → IsLost files allow
  IsLost-file file known lost = elim (Option-cases (files.read_snapshot file)) [
    | inl nothing ↦ let no : false ≡ true = rw nothing at lost in cc
    | inr (text, there) ↦
        let (line, stands, lost_here) =
          (any-member_iff (on_line (is_lost allow (rs_corpus files.dirs))) (split b'\n' text)).0
            (rw there at lost) in
        IsLost-line file text line known there stands lost_here
  ]

  IsLost-is_lost_in :
      (l : IsLost files allow)
      → is_lost_in allow (rs_corpus files.dirs) (files.read_snapshot l.file) ≡ true
  IsLost-is_lost_in l = rw l.is_there (
      (any-member_iff (on_line (is_lost allow (rs_corpus files.dirs))) (split b'\n' l.text)).1 (
        l.line,
        l.stands,
        rw (on_line, l.is_named)
            ((is_lost_iff allow files.dirs l.name
                (name_of-IsName (trim l.line) l.name l.is_named)).1
              (l.not_allowed, l.not_referenced)),
      ))

  any-IsLost_iff :
      (any (λ file. is_lost_in allow (rs_corpus files.dirs) (files.read_snapshot file)) snapshots
        ≡ true)
      ↔ IsLost files allow
  any-IsLost_iff =
      let members =
        any-member_iff (λ file. is_lost_in allow (rs_corpus files.dirs) (files.read_snapshot file))
          snapshots in
      (
        λ h. let (file, known, lost) = members.0 h in IsLost-file file known lost,
        λ l. members.1 (l.file, l.is_snapshot, IsLost-is_lost_in l),
      )

check_public_api-code :
    (files : ApiFiles) (allow : List Text)
    → load_allow files.allow_file ≡ some allow
    → files.report_mode ≡ false
    → ((check_public_api files).code ≡ 1) ↔ (
        any (λ file. is_lost_in allow (rs_corpus files.dirs) (files.read_snapshot file)) snapshots
        ≡ true)
unfolding check_public_api
check_public_api-code files allow loaded strict =
    rw
      (
        loaded,
        strict,
        sym (missing_by_crate-any allow (rs_corpus files.dirs) files.read_snapshot snapshots),
      )
      (code_of_missing_iff
        (missing_by_crate allow (rs_corpus files.dirs) files.read_snapshot snapshots))

-- With an allow-list that can be read and without `--report`, the check ends with the code 1 exactly
-- if there is a snapshot with a line of which the script reads a name that the list does not allow
-- and that is no word of any Rust file of the API outside the skipped directories. It ends so
-- whenever a trimmed line gives such a name by a path after a keyword, with or without `unsafe` and
-- `async` before it, or by a path of more than one word after `pub` alone: a path is words joined by
-- `::`, up to where it does not go on, and the name is the last of them.
pub check_public_api_fails_iff :
    (files : ApiFiles) (allow : List Text)
    → load_allow files.allow_file ≡ some allow
    → files.report_mode ≡ false
    → (((check_public_api files).code ≡ 1) ↔ IsLost files allow)
      × ((file text line name : Text)
          → has_text snapshots file ≡ true
          → files.read_snapshot file ≡ some text
          → has_text (split b'\n' text) line ≡ true
          → Lists name (trim line)
          → has_text allow name ≡ false
          → ¬ IsReferenced files.dirs name
          → (check_public_api files).code ≡ 1)
check_public_api_fails_iff files allow loaded strict =
    let code = check_public_api-code files allow loaded strict in
    let lost = any-IsLost_iff files allow in
    (
      (λ h. lost.0 (code.0 h), λ l. code.1 (lost.1 l)),
      λ file text line name known there stands lists not_allowed unused. code.1 (
          lost.1 (record {
            file = file;
            text = text;
            line = line;
            name = name;
            is_snapshot = known;
            is_there = there;
            stands = stands;
            is_named = name_of-Lists name (trim line) lists;
            not_allowed = not_allowed;
            not_referenced = unused;
          })),
    )
