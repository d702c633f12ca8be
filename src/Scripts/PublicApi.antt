-- ===== src/Scripts/PublicApi.antt =====
-- scripts/check-public-api-usage.mjs
pub mod Names
pub mod Paths
pub mod Items
pub mod Laws
mod Tests
use rust_auth_example.Base.{
  ℕ, zero, suc, ◌+◌, ◌==◌, leb, Bool, true, false, not, ◌&&◌, ◌||◌, String, Option, none, some,
  List, [], ◌∷◌, ◌++◌, map, codes, or_else, if◌then◌else◌,
}
use rust_auth_example.Json.{
  Json, Elems, Fields, null, bool, num, str, arr, obj, nil, cons, end, field,
}
use rust_auth_example.Expiry.{decimal}
use rust_auth_example.Scripts.Words.{
  Text, is_word, starts_word, first_word, has_text, is_used, join_files,
}
use rust_auth_example.Scripts.Files.{
  Entries, walk_rs, JsonFile, absent, not_json, holds, field_names, list_entry, Ended,
  code_of_missing,
}
use rust_auth_example.Scripts.Patterns.{
  ◌>>=◌, eat, eat_word, eat_modifier, eat_keyword, trim, cons_head, split, add_found,
}

abbrev pub keywords : List Text
keywords = map codes (
    "fn" ∷ "struct" ∷ "enum" ∷ "trait" ∷ "type" ∷ "const" ∷ "static" ∷ "macro" ∷ "mod" ∷ "impl"
    ∷ "use" ∷ [])

-- `^pub\s+(?:unsafe\s+)?(?:async\s+)?(?:fn|…|use)\s+`: what follows the match
unfoldable pub strip_keyword : Text → Option Text
unfolding eat_word eat_modifier eat_keyword
strip_keyword line = do
  after_pub ← eat_word (codes "pub") line
  eat_keyword keywords (eat_modifier (codes "async") (eat_modifier (codes "unsafe") after_pub))

-- `^((?:[A-Za-z0-9_]+::)*[A-Za-z0-9_]+)` on a text that begins with a word character
unfoldable pub path_match : Text → Text
unfolding is_word
path_match [] = []
path_match (c ∷ []) = if is_word c then c ∷ [] else []
path_match (c ∷ d ∷ s) =
    let near = path_match (d ∷ s) in
    let far = path_match s in
    if is_word c
    then c ∷ near
    else if (c == b':') && (d == b':') && starts_word s
    then b':' ∷ b':' ∷ far
    else []

-- `text.split('::')`
unfoldable pub split_path : Text → List Text
split_path [] = [] ∷ []
split_path (c ∷ []) = (c ∷ []) ∷ []
split_path (c ∷ d ∷ s) =
    let near = split_path (d ∷ s) in
    let far = split_path s in if (c == b':') && (d == b':') then [] ∷ far else cons_head c near

-- `parts[parts.length - 1]`
unfoldable pub last_part : List Text → Text
last_part [] = []
last_part (p ∷ []) = p
last_part (p ∷ q ∷ ps) = last_part (q ∷ ps)

-- `pathMatch`, `parts` and `shortName`
unfoldable pub short_name : Text → Option Text
unfolding path_match split_path last_part
short_name s = if starts_word s then some (last_part (split_path (path_match s))) else none

-- The name that a trimmed line of a snapshot adds
unfoldable pub name_of : Text → Option Text
unfolding eat strip_keyword short_name
name_of line = do
  after_pub ← eat (codes "pub ") line
  short_name (or_else (strip_keyword line) after_pub)

-- The loop of `parseSnapshot`
unfoldable pub add_lines : List Text → List Text → List Text
unfolding trim name_of
add_lines names [] = names
add_lines names (line ∷ lines) = add_lines (add_found names (name_of (trim line))) lines

unfoldable pub parse_snapshot : Text → List Text
unfolding add_lines split
parse_snapshot snapshot = add_lines [] (split b'\n' snapshot)

-- The number of UTF-16 units of a string
utf16_length : Text → ℕ
utf16_length [] = 0
utf16_length (c ∷ s) = (if leb 65536 c then 2 else 1) + utf16_length s

elem_count : Elems → ℕ
elem_count nil = 0
elem_count (cons v vs) = suc (elem_count vs)

indices : ℕ → List Text
indices zero = []
indices (suc n) = indices n ++ (decimal (suc n) n ∷ [])

-- `Object.keys(value)`, which throws on `null`.
unfoldable pub object_keys : Json → Option (List Text)
unfolding utf16_length elem_count indices field_names
object_keys null = none
object_keys (bool b) = some []
object_keys (num n) = some []
object_keys (str s) = some (indices (utf16_length (codes s)))
object_keys (arr vs) = some (indices (elem_count vs))
object_keys (obj fs) = some (field_names fs)

-- `loadAllow`; without a result the process ends with the code 1.
unfoldable pub load_allow : JsonFile → Option (List Text)
unfolding object_keys
load_allow absent = some []
load_allow not_json = none
load_allow (holds value) = object_keys value

-- `buildCorpus`, of the directories of `SRC_DIRS` that exist
unfoldable pub rs_files : List Entries → List (List Text × Text)
unfolding walk_rs
rs_files [] = []
rs_files (es ∷ dirs) = walk_rs es ++ rs_files dirs

unfoldable pub rs_corpus : List Entries → Text
unfolding rs_files join_files
rs_corpus dirs = join_files (map (λ f. f.1) (rs_files dirs))

-- The inner loop of the main part: the names of one snapshot that are neither allowed nor used
unfoldable pub missing_names : List Text → Text → List Text → List Text
unfolding has_text is_used
missing_names allow corpus [] = []
missing_names allow corpus (name ∷ names) =
    let rest = missing_names allow corpus names in
    if has_text allow name then rest else if not (is_used corpus name) then name ∷ rest else rest

abbrev pub snapshots : List Text
snapshots = map codes ("bymax-auth-axum.txt" ∷ "bymax-auth-core.txt" ∷ "bymax-auth-redis.txt" ∷ [])

-- `snapshotFile.replace('.txt', '')`
unfoldable pub crate_of : Text → Text
unfolding eat
crate_of [] = []
crate_of (c ∷ s) = let rest = crate_of s in or_else (eat (codes ".txt") (c ∷ s)) (c ∷ rest)

-- A snapshot that is not there is skipped.
abbrev pub missing_of : List Text → Text → Option Text → List Text
missing_of allow corpus none = []
missing_of allow corpus (some text) = missing_names allow corpus (parse_snapshot text)

-- `missingByCrate`
unfoldable pub missing_by_crate :
    List Text → Text → (Text → Option Text) → List Text → List (Text × List Text)
unfolding parse_snapshot missing_names crate_of
missing_by_crate allow corpus read [] = []
missing_by_crate allow corpus read (file ∷ files) =
    list_entry (crate_of file) (missing_of allow corpus (read file))
      (missing_by_crate allow corpus read files)

-- What the script reads: its flag, the directories of the API, the snapshots and `allow.json`
pub record ApiFiles : Type 0 where
  pub report_mode : Bool
  pub dirs : List Entries
  pub read_snapshot : Text → Option Text
  pub allow_file : JsonFile

abbrev pub check_with : ApiFiles → Option (List Text) → Ended
check_with files none = record { code = 1; missing = [] }
check_with files (some allow) =
    let missing = missing_by_crate allow (rs_corpus files.dirs) files.read_snapshot snapshots in
    record { code = code_of_missing files.report_mode missing; missing = missing }

-- The main part
unfoldable pub check_public_api : ApiFiles → Ended
unfolding load_allow rs_corpus missing_by_crate
check_public_api files = check_with files (load_allow files.allow_file)
