-- ===== src/Scripts/Files.antt =====
-- `walkTs` of scripts/audit-library-exports.mjs and `walkRs` of scripts/check-public-api-usage.mjs.
pub mod Laws
use rust_auth_example.Json as J
use rust_auth_example.Base.{
  ℕ, Bool, true, false, not, ◌&&◌, ◌||◌, String, List, [], ◌∷◌, ◌++◌, map, codes, if◌then◌else◌,
}
use rust_auth_example.Json.{Json, Fields, field}
use rust_auth_example.Scripts.Words.{Text, same_text, has_text}

-- What `readdirSync` lists, in its order: `isDirectory()` tells the two kinds apart, and the text is
-- what `readFileSync` reads.
pub data Entries : Type 0 where
  end : Entries
  file : (name : Text) → (text : Text) → Entries → Entries
  dir : (name : Text) → (inner : Entries) → Entries → Entries

-- `name.endsWith(suffix)`
unfoldable pub ends_with : Text → Text → Bool
ends_with [] suffix = same_text suffix []
ends_with (c ∷ s) suffix = same_text suffix (c ∷ s) || ends_with s suffix

-- The files that are read, each with its path below the directory that the walk began in.
module _ (skip_dirs : List Text) (takes : Text → Bool) where
  unfoldable pub walk : List Text → Entries → List (List Text × Text)
  unfolding has_text
  walk base end = []
  walk base (file name text es) =
      let rest = walk base es in
      if has_text skip_dirs name
      then rest
      else if takes name
      then (base ++ (name ∷ []), text) ∷ rest
      else rest
  walk base (dir name inner es) =
      let rest = walk base es in
      let within = walk (base ++ (name ∷ [])) inner in
      if has_text skip_dirs name then rest else within ++ rest

abbrev pub ts_skip_dirs : List Text
ts_skip_dirs =
    map codes ("node_modules" ∷ ".next" ∷ "dist" ∷ "coverage" ∷ ".turbo" ∷ "out" ∷ "build" ∷ [])

-- The condition of `walkTs` on a file
unfoldable pub takes_ts : Text → Bool
unfolding ends_with
takes_ts name =
    (ends_with name (codes ".ts") || ends_with name (codes ".tsx"))
    && not (ends_with name (codes ".d.ts"))

unfoldable pub walk_ts : Entries → List (List Text × Text)
unfolding walk takes_ts
walk_ts es = walk ts_skip_dirs takes_ts [] es

abbrev pub rs_skip_dirs : List Text
rs_skip_dirs = map codes ("target" ∷ ".git" ∷ "node_modules" ∷ [])

-- `extname(entry.name) === '.rs'`: a name that is its extension has none.
unfoldable pub takes_rs : Text → Bool
unfolding ends_with
takes_rs name = ends_with name (codes ".rs") && not (same_text name (codes ".rs"))

-- `walkRs` of a directory that exists; one that does not has no entries.
unfoldable pub walk_rs : Entries → List (List Text × Text)
unfolding walk takes_rs
walk_rs es = walk rs_skip_dirs takes_rs [] es

-- A JSON file as a script finds it
pub data JsonFile : Type 0 where
  absent not_json : JsonFile
  holds : Json → JsonFile

-- `Object.keys` of an object
unfoldable pub field_names : Fields → List Text
field_names J.end = []
field_names (field key v fs) = codes key ∷ field_names fs

-- A list that is kept under its key once it has a member
abbrev pub list_entry : Text → List Text → List (Text × List Text) → List (Text × List Text)
list_entry key [] rest = rest
list_entry key (name ∷ names) rest = (key, name ∷ names) ∷ rest

-- How a script ends: the code of the process, and what it lists under each key, in the order in which
-- it was found.
pub record Ended : Type 0 where
  pub code : ℕ
  pub missing : List (Text × List Text)

-- The end of both scripts
abbrev pub code_of_missing : Bool → List (Text × List Text) → ℕ
code_of_missing report_mode [] = 0
code_of_missing report_mode (m ∷ ms) = if report_mode then 0 else 1
