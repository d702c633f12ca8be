-- ===== src/Scripts/Exports/Tests.antt =====
-- Runs of the audit of the exports.
use mathlib.Core.List.{flat_map}
use rust_auth_example.Base.{true, false, none, some, List, [], ◌∷◌, ◌++◌, ◌≡◌, ◌↔◌, refl, codes}
use rust_auth_example.Json as J
use rust_auth_example.Json.{str}
use rust_auth_example.Scripts.Words.{Text, is_word, matches, spells}
use rust_auth_example.Scripts.Patterns.{add_text}
use rust_auth_example.Scripts.Files.{Entries, end, file, dir, absent, holds}
use rust_auth_example.Scripts.Exports.{WebFiles, audit_exports, load_ignore}
use rust_auth_example.Scripts.Exports.Parser.{exported}
use rust_auth_example.Scripts.Exports.Parser.Names.{exported_const_enum}
use rust_auth_example.Scripts.Exports.Parser.Printed.{Export, plain, typed, renamed}
use rust_auth_example.Scripts.Exports.Parser.Clause.{print_clause, exported-print_clause}
use rust_auth_example.Scripts.Exports.Laws.{IsLost, audit_exports_fails_iff}

abbrev declarations : Text
declarations =
    codes "import { a } from 'react';\nexport declare function useSession(): void;\n"
    ++ codes
        "export { b } from 'next/server';\nexport { c as Used, type Gone, default } from './chunk';\n"

abbrev web : Entries
web = dir (codes "dist") (file (codes "x.ts") (codes "Gone") end) (
    file (codes "page.tsx") (codes "useSession(Used)")
      (file (codes "page.d.ts") (codes "Gone") end))

abbrev built : Entries
built = dir (codes "react") (file (codes "index.d.ts") declarations end) end

abbrev files : WebFiles
files = record {
  report_mode = false;
  self_test = false;
  corpus_dir = some web;
  dist = some built;
  ignore_file = absent;
}

audit_runs :
    (exported declarations ≡ codes "Used" ∷ codes "Gone" ∷ codes "useSession" ∷ [])
    × ((audit_exports files).missing ≡ (codes "react", codes "Gone" ∷ []) ∷ [])
    × ((audit_exports files).code ≡ 1)
    × ((audit_exports (record files { self_test = true })).code ≡ 1)
    × ((audit_exports (record files { ignore_file = holds (str "x") })).code ≡ 1)
    × ((audit_exports (record files { dist = none; ignore_file = holds (str "x") })).code ≡ 0)
    × ((audit_exports (record files {
      ignore_file = holds (J.obj (J.field "react.Gone" (str "not yet") J.end));
    })).code
        ≡ 0)
unfolding audit_exports exported add_text matches spells flat_map
audit_runs = (refl, refl, refl, refl, refl, refl, refl)

audit_exports_fails_iff_example : ((audit_exports files).code ≡ 1) ↔ IsLost web built []
unfolding load_ignore
audit_exports_fails_iff_example =
    audit_exports_fails_iff files web built [] refl refl refl refl refl

exported_const_enum_example :
    (exported (codes "export const enum " ++ codes "Level { low, high }") ≡ codes "enum" ∷ [])
    × (exported (codes "export declare const enum " ++ codes "Level { low, high }")
        ≡ codes "enum" ∷ [])
exported_const_enum_example = exported_const_enum (codes "Level { low, high }") refl

abbrev clause : List Export
clause = typed (codes "User") ∷ renamed (codes "b") (codes "useAuth") ∷ plain (codes "as") ∷ []

print_runs : print_clause clause ≡ codes "export { type User, b as useAuth, as };"
unfolding print_clause
print_runs = refl

exported-print_clause_example :
    exported (print_clause clause) ≡ codes "User" ∷ codes "useAuth" ∷ codes "as" ∷ []
unfolding is_word
exported-print_clause_example =
    exported-print_clause (typed (codes "User"))
      (renamed (codes "b") (codes "useAuth") ∷ plain (codes "as") ∷ [])
      (
        ((refl, λ n. cc), refl),
        ((((refl, λ n. cc), (refl, λ n. cc), refl, refl), refl), (((refl, λ n. cc), refl), tt)),
      )
