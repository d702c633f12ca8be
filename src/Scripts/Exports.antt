-- ===== src/Scripts/Exports.antt =====
-- scripts/audit-library-exports.mjs
pub mod Parser
pub mod Laws
mod Tests
use rust_auth_example.Base.{
  ℕ, Bool, true, false, not, ◌&&◌, ◌||◌, String, Option, none, some, List, [], ◌∷◌, ◌++◌, map,
  codes, if◌then◌else◌,
}
use rust_auth_example.Json.{Json, null, bool, num, str, arr, obj}
use rust_auth_example.Scripts.Words.{Text, same_text, has_text, is_used, join_files}
use rust_auth_example.Scripts.Files.{
  Entries, end, file, dir, walk_ts, JsonFile, absent, not_json, holds, field_names, list_entry,
  Ended, code_of_missing,
}
use Parser.{parse_exports}

-- `loadIgnore`; without a result the process ends with the code 1.
unfoldable pub load_ignore : JsonFile → Option (List Text)
unfolding field_names
load_ignore absent = some []
load_ignore (holds (obj fs)) = some (field_names fs)
load_ignore _ = none

-- `buildCorpus(walkTs(CORPUS_DIR))`
unfoldable pub ts_corpus : Entries → Text
unfolding walk_ts join_files
ts_corpus es = join_files (map (λ f. f.1) (walk_ts es))

-- The text of a file with the name in a directory
unfoldable pub read_in : Text → Entries → Option Text
read_in name end = none
read_in name (file other text es) =
    let rest = read_in name es in if same_text other name then some text else rest
read_in name (dir other inner es) = read_in name es

-- `subpaths`, each with the text of its `index.d.ts`
abbrev pub with_index : Text → Option Text → List (Text × Text) → List (Text × Text)
with_index name none rest = rest
with_index name (some dts) rest = (name, dts) ∷ rest

unfoldable pub subpaths : Entries → List (Text × Text)
unfolding read_in
subpaths end = []
subpaths (file name text es) = subpaths es
subpaths (dir name inner es) = with_index name (read_in (codes "index.d.ts") inner) (subpaths es)

-- `${subpath}.${symbol}`
abbrev pub key_of : Text → Text → Text
key_of subpath symbol = subpath ++ (b'.' ∷ symbol)

-- The inner loop: the symbols of one subpath that are neither allow-listed nor used
unfoldable pub missing_symbols : List Text → Text → Text → List Text → List Text
unfolding has_text is_used
missing_symbols ignore corpus subpath [] = []
missing_symbols ignore corpus subpath (symbol ∷ symbols) =
    let rest = missing_symbols ignore corpus subpath symbols in
    if has_text ignore (key_of subpath symbol)
    then rest
    else if not (is_used corpus symbol)
    then symbol ∷ rest
    else rest

-- `missingBySubpath`
unfoldable pub missing_by_subpath : List Text → Text → List (Text × Text) → List (Text × List Text)
unfolding missing_symbols parse_exports
missing_by_subpath ignore corpus [] = []
missing_by_subpath ignore corpus ((subpath, dts) ∷ subs) =
    list_entry subpath (missing_symbols ignore corpus subpath (parse_exports dts))
      (missing_by_subpath ignore corpus subs)

-- What the script reads: its flags, `apps/web` and the `dist` of the package, if they are there, and
-- `.audit-ignore.json`. Where an `index.d.ts` is there, it is a file.
pub record WebFiles : Type 0 where
  pub report_mode : Bool
  pub self_test : Bool
  pub corpus_dir : Option Entries
  pub dist : Option Entries
  pub ignore_file : JsonFile

-- `index.d.ts` of one subpath
unfoldable pub find_dts : Text → List (Text × Text) → Option Text
find_dts name [] = none
find_dts name ((subpath, dts) ∷ subs) =
    let rest = find_dts name subs in if same_text subpath name then some dts else rest

-- The self-test: `client` is the text of the `index.d.ts` of `/client`.
unfoldable pub self_test_code : (client : Option Text) → Option Entries → ℕ
unfolding has_text is_used parse_exports ts_corpus
self_test_code none corpus_dir = 1
self_test_code (some dts) none = 1
self_test_code (some dts) (some es) =
    if not (has_text (parse_exports dts) (codes "createAuthClient"))
    then 1
    else if is_used (ts_corpus es) (codes "__definitely_not_exported__")
    then 1
    else 0

abbrev client_of : Option Entries → Option Text
client_of none = none
client_of (some es) = find_dts (codes "client") (subpaths es)

-- From `loadIgnore()` on
abbrev pub audit_with : Bool → Entries → Entries → Option (List Text) → Ended
audit_with report_mode web dist none = record { code = 1; missing = [] }
audit_with report_mode web dist (some ignore) =
    let missing = missing_by_subpath ignore (ts_corpus web) (subpaths dist) in
    record { code = code_of_missing report_mode missing; missing = missing }

-- The main audit: without `apps/web`, or without the package, there is nothing to audit yet.
abbrev pub main_audit : Bool → Option Entries → Option Entries → JsonFile → Ended
main_audit report_mode none dist ignore_file = record { code = 0; missing = [] }
main_audit report_mode (some web) none ignore_file = record { code = 0; missing = [] }
main_audit report_mode (some web) (some dist) ignore_file =
    audit_with report_mode web dist (load_ignore ignore_file)

unfoldable pub audit_exports : WebFiles → Ended
unfolding self_test_code load_ignore ts_corpus missing_by_subpath subpaths find_dts
audit_exports files =
    if files.self_test
    then record { code = self_test_code (client_of files.dist) files.corpus_dir; missing = [] }
    else main_audit files.report_mode files.corpus_dir files.dist files.ignore_file
