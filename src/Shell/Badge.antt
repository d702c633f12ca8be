-- ===== src/Shell/Badge.antt =====
-- apps/web/components/controls/SessionBadge.tsx. A name is the list of its UTF-16 units.
pub mod Laws
use rust_auth_example.Base.{
  ℕ, Bool, true, false, Option, none, some, List, [], ◌∷◌, ◌++◌, codes, take, or_else, is_some,
  if◌then◌else◌,
}
use rust_auth_example.Scripts.Words.{Text}
use rust_auth_example.Scripts.Patterns.{split}

-- `name.split(' ').filter((segment) => segment.length > 0)`
unfoldable pub not_empty : List Text → List Text
not_empty [] = []
not_empty ([] ∷ parts) = not_empty parts
not_empty ((c ∷ s) ∷ parts) = (c ∷ s) ∷ not_empty parts

-- `.slice(0, 2).map((segment) => segment.charAt(0).toUpperCase()).join('')`, where `upper` is
-- `toUpperCase` of a string of one unit
unfoldable pub join_initials : (ℕ → Text) → List Text → Text
join_initials upper [] = []
join_initials upper ([] ∷ parts) = join_initials upper parts
join_initials upper ((c ∷ s) ∷ parts) = upper c ++ join_initials upper parts

unfoldable pub initials_of_parts : (ℕ → Text) → List Text → Text
unfolding join_initials
initials_of_parts upper [] = codes "?"
initials_of_parts upper (p ∷ ps) = join_initials upper (take 2 (p ∷ ps))

-- `initialsOf`
unfoldable pub initials_of : (ℕ → Text) → Text → Text
unfolding initials_of_parts not_empty split
initials_of upper name = initials_of_parts upper (not_empty (split 32 name))

-- What the badge reads of the user of the session
pub record User : Type 0 where
  pub email : Option Text
  pub name : Option Text
  pub role : Option Text

pub data Badge : Type 0 where
  skeleton sign_in : Badge
  menu : (initials name : Text) → (role : Option Text) → (email : Text) → Badge

-- The role is shown unless it is empty.
abbrev pub role_shown : Option Text → Option Text
role_shown none = none
role_shown (some []) = none
role_shown (some (c ∷ role)) = some (c ∷ role)

abbrev pub no_user : User
no_user = record { email = none; name = none; role = none }

-- `AuthenticatedBadge`
unfoldable pub authenticated_badge : (ℕ → Text) → Option User → Badge
unfolding initials_of
authenticated_badge upper user =
    let u = or_else user no_user in
    let email = or_else u.email (codes "Account") in
    let name = or_else u.name email in menu (initials_of upper name) name (role_shown u.role) email

-- `SessionBadge`
unfoldable pub session_badge :
    (ℕ → Text) → (is_loading is_authenticated : Bool) → Option User → Badge
unfolding authenticated_badge
session_badge upper is_loading is_authenticated user =
    if is_loading
    then skeleton
    else if is_authenticated
    then authenticated_badge upper user
    else sign_in
