-- ===== src/Pages/PlatformUsers/Table/Laws.antt =====
-- The table shows every admin.
use rust_auth_example.Base.{String, Option, List, [], ◌∷◌, length, length-map, ◌≡◌, ◌↔◌, refl}
use rust_auth_example.Pages.PlatformUsers.Table.{
  UserRow, Cells, cells_of, Body, no_accounts, rows, users_body,
}

pub rows_of : Body → List Cells
rows_of no_accounts = []
rows_of (rows cells) = cells

-- A list of admins gives one row each, and the notice that there are none exactly if it is empty.
pub users_body-rows :
    (format : String → Option String) (users : List UserRow)
    → (length (rows_of (users_body format users)) ≡ length users)
      × ((users_body format users ≡ no_accounts) ↔ (users ≡ []))
unfolding users_body rows_of
users_body-rows format [] = (refl, (λ h. refl, λ h. refl))
users_body-rows format (user ∷ users) =
    (length-map (user ∷ users) (cells_of format), (λ h. cc, λ h. cc))
