-- ===== src/Otp/Tests.antt =====
-- Runs of the code input, with cells for two and for three digits.
use rust_auth_example.Base.{ℕ, true, none, some, List, [], ◌∷◌, ◌≡◌, refl, All, length, codes}
use rust_auth_example.Otp.{
  is_digit, Effect, handle_change, handle_paste, change, key_down, paste, handle, handle_key_down,
}
use rust_auth_example.Otp.Laws.{IsCells, complete-length}
use rust_auth_example.Otp.Typing.{type_from, type_from_reports}

-- The first of two cells is empty, the second holds a seven.
abbrev half : List (List ℕ)
half = [] ∷ codes "7" ∷ []

half-IsCells : IsCells 2 half
unfolding is_digit
half-IsCells = record { count = refl; cells = (tt, (refl, tt)) }

abbrev unfocused : List (List ℕ) → Effect
unfocused values = record { values = values; focus = none; complete = none }

handle_runs :
    (handle 2 (change 0 (codes "x4")) half ≡ record {
      values = codes "4" ∷ codes "7" ∷ [];
      focus = some 1;
      complete = some (codes "47");
    })
    × (handle 2 (key_down 1 "Backspace") half ≡ unfocused ([] ∷ [] ∷ []))
    × ((handle 3 (paste (codes "1-2")) half).values ≡ codes "1" ∷ codes "2" ∷ [] ∷ [])
unfolding handle handle_change handle_key_down handle_paste
handle_runs = (refl, refl, refl)

complete-length_example : (length (codes "47") ≡ 2) × All (λ c. is_digit c ≡ true) (codes "47")
unfolding handle handle_change
complete-length_example = complete-length 2 (change 0 (codes "4")) half half-IsCells refl

type_from_reports_example :
    (type_from 2 0 (codes "59") (unfocused half)).complete ≡ some (codes "59")
unfolding is_digit
type_from_reports_example =
    type_from_reports 2 b'5' (codes "9") (unfocused half) refl (refl, (refl, tt))
