-- ===== src/Json.antt =====
-- The values of `JSON.parse` and `JSON.stringify`, as apps/web/lib and apps/web/components use them.
use rust_auth_example.Base.{ℕ, Bool, String, Option, none, some, str_eq, if◌then◌else◌}

-- A finite double is given by its bit pattern: the console passes such numbers on and never
-- computes with them.
pub data Number : Type 0 where
  finite : ℕ → Number
  not_finite : Number

-- An object holds its own enumerable string keys, in the order of `Object.entries`.
mutual
  pub data Json : Type 0 where
    null : Json
    bool : Bool → Json
    num : Number → Json
    str : String → Json
    arr : Elems → Json
    obj : Fields → Json

  pub data Elems : Type 0 where
    nil : Elems
    cons : Json → Elems → Elems

  pub data Fields : Type 0 where
    end : Fields
    field : String → Json → Fields → Fields

-- `value[key]` of an object: `none` is `undefined`.
unfoldable pub lookup : String → Fields → Option Json
lookup key end = none
lookup key (field k v fs) = if str_eq k key then some v else lookup key fs

-- `typeof value === 'string'`, with the string.
abbrev pub as_string : Option Json → Option String
as_string (some (str s)) = some s
as_string _ = none

-- An object literal with one field.
abbrev pub single : String → Json → Json
single key v = obj (field key v end)
