-- ===== src/Scripts/Exports/Laws.antt =====
-- When the audit of the exports fails.
use mathlib.Core.List.{Memᴰ}
use rust_auth_example.Base.{
  Bool, true, false, not, ◌&&◌, some, List, [], ◌∷◌, ◌≡◌, ◌↔◌, refl, sym, arith, any, any-map,
  Bool-cases, inl, inr, map,
}
use rust_auth_example.Scripts.Words.{Text, has_text, is_used}
use rust_auth_example.Scripts.Words.Laws.{IsName, words, is_used-join_files}
use rust_auth_example.Scripts.Words.Members.{any-member_iff, any-found_iff, has_text-All}
use rust_auth_example.Scripts.Files.{Entries, walk_ts, ts_skip_dirs, takes_ts}
use rust_auth_example.Scripts.Files.Laws.{
  Found, walk_iff, non_empty, entry-non_empty, code_of_missing_iff,
}
use rust_auth_example.Scripts.Exports.{
  load_ignore, ts_corpus, subpaths, key_of, missing_symbols, missing_by_subpath, WebFiles,
  audit_exports,
}
use rust_auth_example.Scripts.Exports.Parser.{exported}
use rust_auth_example.Scripts.Exports.Parser.Names.{exported-IsName, any-parse_exports}

-- A file of the console has the name as one of its words.
abbrev pub IsReferenced : Entries → Text → Type 0
IsReferenced web name =
    (text : Text) × Found ts_skip_dirs takes_ts web text × (has_text (words false text) name ≡ true)

is_used-IsReferenced :
    (web : Entries) (name : Text)
    → IsName name
    → (is_used (ts_corpus web) name ≡ true) ↔ IsReferenced web name
unfolding ts_corpus walk_ts
is_used-IsReferenced web name h =
    rw
      (
        is_used-join_files name (map (λ f. f.1) (walk_ts web)) h,
        any-map (λ f. has_text (words false f) name) (λ f. f.1) (walk_ts web),
      )
      (walk_iff ts_skip_dirs takes_ts (λ f. has_text (words false f) name) [] web)

is_lost : List Text → Text → Text → Text → Bool
is_lost ignore corpus subpath symbol =
    not (has_text ignore (key_of subpath symbol)) && not (is_used corpus symbol)

missing_symbols-any :
    (ignore : List Text) (corpus subpath : Text) (symbols : List Text)
    → non_empty (missing_symbols ignore corpus subpath symbols)
      ≡ any (is_lost ignore corpus subpath) symbols
unfolding missing_symbols is_lost
missing_symbols-any ignore corpus subpath [] = refl
missing_symbols-any ignore corpus subpath (symbol ∷ symbols) =
    ground (arith, missing_symbols-any ignore corpus subpath symbols)

abbrev loses : List Text → Text → Text × Text → Bool
loses ignore corpus (subpath, dts) = any (is_lost ignore corpus subpath) (exported dts)

missing_by_subpath-any :
    (ignore : List Text) (corpus : Text) (subs : List (Text × Text))
    → non_empty (missing_by_subpath ignore corpus subs) ≡ any (loses ignore corpus) subs
unfolding missing_by_subpath
missing_by_subpath-any ignore corpus [] = refl
missing_by_subpath-any ignore corpus ((subpath, dts) ∷ subs) =
    rw
      (
        entry-non_empty,
        missing_symbols-any,
        any-parse_exports,
        missing_by_subpath-any ignore corpus subs,
      )
      refl

-- An export of the package that is neither allow-listed nor a word of a file of the console.
pub record IsLost (web dist : Entries) (ignore : List Text) : Type 0 where
  pub subpath : Text
  pub dts : Text
  pub symbol : Text
  pub is_subpath : Memᴰ (subpath, dts) (subpaths dist)
  pub is_exported : has_text (exported dts) symbol ≡ true
  pub not_ignored : has_text ignore (key_of subpath symbol) ≡ false
  pub not_referenced : ¬ IsReferenced web symbol

module _ (web dist : Entries) (ignore : List Text) where
  is_lost_iff :
      (subpath symbol : Text)
      → IsName symbol
      → (is_lost ignore (ts_corpus web) subpath symbol ≡ true)
        ↔ ((has_text ignore (key_of subpath symbol) ≡ false) × ¬ IsReferenced web symbol)
  unfolding is_lost
  is_lost_iff subpath symbol h =
      let used = is_used-IsReferenced web symbol h in
      (
        λ lost. (ground arith, λ r. let found = used.1 r in ground arith),
        λ (not_ignored, unused). elim (Bool-cases (is_used (ts_corpus web) symbol)) [
          | inl found ↦ absurd (unused (used.0 found))
          | inr missed ↦ ground arith
        ],
      )

  lost : any (loses ignore (ts_corpus web)) (subpaths dist) ≡ true → IsLost web dist ignore
  lost h =
      let ((subpath, dts), mem, bad) =
        (any-found_iff (loses ignore (ts_corpus web)) (subpaths dist)).0 h in
      let (symbol, listed, gone) =
        (any-member_iff (is_lost ignore (ts_corpus web) subpath) (exported dts)).0 bad in
      let named = has_text-All IsName (exported dts) symbol (exported-IsName dts) listed in
      let (not_ignored, unused) = (is_lost_iff subpath symbol named).0 gone in
      record {
        subpath = subpath;
        dts = dts;
        symbol = symbol;
        is_subpath = mem;
        is_exported = listed;
        not_ignored = not_ignored;
        not_referenced = unused;
      }

  missed : IsLost web dist ignore → any (loses ignore (ts_corpus web)) (subpaths dist) ≡ true
  missed l =
      let named =
        has_text-All IsName (exported l.dts) l.symbol (exported-IsName l.dts) l.is_exported in
      let gone = (is_lost_iff l.subpath l.symbol named).1 (l.not_ignored, l.not_referenced) in
      let bad =
        (any-member_iff (is_lost ignore (ts_corpus web) l.subpath) (exported l.dts)).1
          (l.symbol, l.is_exported, gone) in
      (any-found_iff (loses ignore (ts_corpus web)) (subpaths dist)).1
        ((l.subpath, l.dts), l.is_subpath, bad)

audit_exports-code :
    (files : WebFiles) (web dist : Entries) (ignore : List Text)
    → files.self_test ≡ false
    → files.report_mode ≡ false
    → files.corpus_dir ≡ some web
    → files.dist ≡ some dist
    → load_ignore files.ignore_file ≡ some ignore
    → ((audit_exports files).code ≡ 1) ↔ (any (loses ignore (ts_corpus web)) (subpaths dist) ≡ true)
unfolding audit_exports
audit_exports-code files web dist ignore audit strict there linked loaded =
    rw
      (
        audit,
        strict,
        there,
        linked,
        loaded,
        sym (missing_by_subpath-any ignore (ts_corpus web) (subpaths dist)),
      )
      (code_of_missing_iff (missing_by_subpath ignore (ts_corpus web) (subpaths dist)))

-- The audit, with the console and the package there, an allow-list that can be read and neither flag,
-- ends with the code 1 exactly if a name that its parser finds in the declarations of a subpath is
-- not allow-listed under that subpath and is no word of any file of the console that the walk takes.
pub audit_exports_fails_iff :
    (files : WebFiles) (web dist : Entries) (ignore : List Text)
    → files.self_test ≡ false
    → files.report_mode ≡ false
    → files.corpus_dir ≡ some web
    → files.dist ≡ some dist
    → load_ignore files.ignore_file ≡ some ignore
    → ((audit_exports files).code ≡ 1) ↔ IsLost web dist ignore
audit_exports_fails_iff files web dist ignore audit strict there linked loaded =
    let code = audit_exports-code files web dist ignore audit strict there linked loaded in
    (λ h. lost web dist ignore (code.0 h), λ l. code.1 (missed web dist ignore l))
