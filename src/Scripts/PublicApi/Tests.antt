-- ===== src/Scripts/PublicApi/Tests.antt =====
-- A run of the check of the snapshots.
use rust_auth_example.Base.{
  true, false, Option, none, some, [], ◌∷◌, ◌++◌, ◌≡◌, ◌↔◌, refl, codes, any, if◌then◌else◌,
}
use rust_auth_example.Json.{str}
use rust_auth_example.Json as J
use rust_auth_example.Scripts.Words.{
  matches, spells, is_word, Text, same_text, has_text, is_used, join_files,
}
use rust_auth_example.Scripts.Words.Laws.{words, is_used-join_files}
use rust_auth_example.Scripts.Files.{Entries, end, file, dir, walk, rs_skip_dirs, takes_rs, holds}
use rust_auth_example.Scripts.Files.Laws.{Found, walk_iff}
use rust_auth_example.Scripts.Patterns.{add_text, split, trim}
use rust_auth_example.Scripts.PublicApi.{ApiFiles, check_public_api, name_of, load_allow, snapshots}
use rust_auth_example.Scripts.PublicApi.Names.{name_of_const_fn}
use rust_auth_example.Scripts.PublicApi.Items.{Lists, item, fn_item}
use rust_auth_example.Scripts.PublicApi.Laws.{IsLost, IsReferenced, check_public_api_fails_iff}

abbrev tree : Entries
tree = dir (codes "target") (file (codes "old.rs") (codes "bar") end) (
    dir (codes "src")
      (file (codes "main.rs") (codes "use a::Foo;") (file (codes "notes.md") (codes "bar") end))
      end)

abbrev snapshot : Text
snapshot =
    codes "pub struct a::Foo\n pub async fn a::Foo::bar(&self)\nimpl a::Baz\npub a::Foo::qux: u8"

abbrev read : Text → Option Text
read name = if same_text name (codes "bymax-auth-core.txt") then some snapshot else none

abbrev api : ApiFiles
api = record {
  report_mode = false;
  dirs = tree ∷ [];
  read_snapshot = read;
  allow_file = holds (J.obj (J.field "qux" (str "unused") J.end));
}

api_runs :
    ((check_public_api api).missing ≡ (codes "bymax-auth-core", codes "bar" ∷ []) ∷ [])
    × ((check_public_api api).code ≡ 1)
    × ((check_public_api (record api { report_mode = true })).code ≡ 0)
    × ((check_public_api (record api { allow_file = holds J.null })).code ≡ 1)
unfolding check_public_api add_text matches spells
api_runs = (refl, refl, refl, refl)

check_public_api_fails_iff_example :
    (((check_public_api api).code ≡ 1) ↔ IsLost api (codes "qux" ∷ []))
    × ((file text line name : Text)
        → has_text snapshots file ≡ true
        → api.read_snapshot file ≡ some text
        → has_text (split b'\n' text) line ≡ true
        → Lists name (trim line)
        → has_text (codes "qux" ∷ []) name ≡ false
        → ¬ IsReferenced api.dirs name
        → (check_public_api api).code ≡ 1)
unfolding load_allow
check_public_api_fails_iff_example = check_public_api_fails_iff api (codes "qux" ∷ []) refl refl

-- The line of a method lists it.
method_run : Lists (codes "bar") (codes "pub async fn a::Foo::bar(&self)")
unfolding is_word
method_run =
    item false true fn_item (codes "a" ∷ codes "Foo" ∷ []) (codes "(&self)")
      ((refl, λ n. cc), ((refl, λ n. cc), tt)) (refl, λ n. cc) refl

walk_iff_example :
    (any (λ f. has_text (codes "bar" ∷ []) (f.1)) (walk rs_skip_dirs takes_rs [] tree) ≡ true) ↔ (
      (text : Text) × Found rs_skip_dirs takes_rs tree text
      × (has_text (codes "bar" ∷ []) text ≡ true))
walk_iff_example = walk_iff rs_skip_dirs takes_rs (has_text (codes "bar" ∷ [])) [] tree

is_used-join_files_example :
    is_used (join_files (codes "a.fo" ∷ codes "o_b" ∷ [])) (codes "foo")
    ≡ any (λ f. has_text (words false f) (codes "foo")) (codes "a.fo" ∷ codes "o_b" ∷ [])
unfolding is_word
is_used-join_files_example =
    is_used-join_files (codes "foo") (codes "a.fo" ∷ codes "o_b" ∷ []) (refl, λ n. cc)

name_of_const_fn_example :
    name_of (codes "pub const fn " ++ codes "a::RateLimit::new(u32, u64) -> Self")
    ≡ some (codes "fn")
name_of_const_fn_example = name_of_const_fn (codes "a::RateLimit::new(u32, u64) -> Self")
