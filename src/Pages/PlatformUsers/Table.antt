-- ===== src/Pages/PlatformUsers/Table.antt =====
-- The table of apps/web/app/platform/(protected)/users/page.tsx.
pub mod Laws
use rust_auth_example.Base.{
  ℕ, suc, ◌==◌, Bool, true, false, String, Option, none, some, List, [], ◌∷◌, ◌++◌, map, codes,
  length, if◌then◌else◌,
}
use rust_auth_example.Expiry.{decimal}
use rust_auth_example.Scripts.Words.{Text}

-- `PlatformUserRow`, as the table reads it; `last_login_at` is neither `null` nor `undefined` if it
-- is some text.
pub record UserRow : Type 0 where
  pub id : String
  pub email : String
  pub name : String
  pub role : String
  pub status : String
  pub last_login_at : Option String

-- `formatDate`: `format` is `toLocaleString` of a date, with none for one that is not valid.
unfoldable pub format_date : (String → Option String) → Option String → String
format_date format none = "—"
format_date format (some iso) = elim (format iso) [ none ↦ "—" | some date ↦ date ]

-- The description of the card
unfoldable pub accounts_text : ℕ → Text
accounts_text count =
    if count == 1
    then codes "1 admin account"
    else decimal (suc count) count ++ codes " admin accounts"

-- One row of the table
pub record Cells : Type 0 where
  pub key : String
  pub email : String
  pub name : String
  pub role : String
  pub status : String
  pub last_sign_in : String

unfoldable pub cells_of : (String → Option String) → UserRow → Cells
unfolding format_date
cells_of format user = record {
  key = user.id;
  email = user.email;
  name = user.name;
  role = user.role;
  status = user.status;
  last_sign_in = format_date format user.last_login_at;
}

pub data Body : Type 0 where
  no_accounts : Body
  rows : List Cells → Body

unfoldable pub users_body : (String → Option String) → List UserRow → Body
unfolding cells_of
users_body format [] = no_accounts
users_body format (user ∷ users) = rows (map (cells_of format) (user ∷ users))
