-- ===== src/Otp.antt =====
-- apps/web/components/auth/otp-input.tsx: the segmented code input. A cell's text is a list of
-- UTF-16 code units; `size` is the prop `length`.
pub mod Laws
pub mod Typing
mod Tests
use rust_auth_example.Base.{
  ℕ, zero, suc, ◌+◌, ◌-◌, Bool, true, false, ◌&&◌, String, Option, none, some, List, [], ◌∷◌, ◌++◌,
  length, get_elem?, take, replicate, every, leb, ltb, ◌==◌, min, str_eq, if◌then◌else◌, or_else,
}

-- `[0-9]`
pub is_digit : ℕ → Bool
is_digit c = leb b'0' c && leb c b'9'

-- `text.replace(/\D/g, '')`
pub only_digits : List ℕ → List ℕ
only_digits [] = []
only_digits (c ∷ s) = if is_digit c then c ∷ only_digits s else only_digits s

-- `text.slice(-1)`
pub last_unit : List ℕ → List ℕ
last_unit [] = []
last_unit (c ∷ []) = c ∷ []
last_unit (c ∷ d ∷ s) = last_unit (d ∷ s)

-- `values.map((v, i) => (i === index ? cell : v))`
pub put : ℕ → List ℕ → List (List ℕ) → List (List ℕ)
put index cell [] = []
put zero cell (v ∷ vs) = cell ∷ vs
put (suc index) cell (v ∷ vs) = v ∷ put index cell vs

-- `Array.from({ length }, (_, i) => chars[i] ?? '')`
pub spread : ℕ → List ℕ → List (List ℕ)
spread zero chars = []
spread (suc n) [] = [] ∷ spread n []
spread (suc n) (c ∷ chars) = (c ∷ []) ∷ spread n chars

-- `next.join('')`
pub join : List (List ℕ) → List ℕ
join [] = []
join (v ∷ vs) = v ++ join vs

abbrev pub is_filled : List ℕ → Bool
is_filled [] = false
is_filled (c ∷ s) = true

-- What a handler does: the new values, the cell that takes the focus, the code that `onComplete`
-- receives.
pub record Effect : Type 0 where
  pub values : List (List ℕ)
  pub focus : Option ℕ
  pub complete : Option (List ℕ)

-- `notifyIfComplete`
pub notify_if_complete : List (List ℕ) → Option (List ℕ)
unfolding join
notify_if_complete next = if every is_filled next then some (join next) else none

-- The initial state of `values`
pub blank : ℕ → List (List ℕ)
blank size = replicate size []

module _ (size : ℕ) where
  -- `handleChange`
  pub handle_change : ℕ → List ℕ → List (List ℕ) → Effect
  unfolding only_digits is_digit last_unit put notify_if_complete
  handle_change index raw values =
      let digit = last_unit (only_digits raw) in
      let next = put index digit values in
      record {
        values = next;
        focus = if is_filled digit && ltb index (size - 1) then some (index + 1) else none;
        complete = notify_if_complete next;
      }

  -- The branch of `handleKeyDown` for `Backspace`; the cell's text is `e.currentTarget.value`.
  pub backspace : ℕ → List (List ℕ) → Effect
  unfolding put
  backspace index values =
      if leb 1 index && (length (or_else (get_elem? values index) []) == 0)
      then record { values = put (index - 1) [] values; focus = some (index - 1); complete = none }
      else record { values = put index [] values; focus = none; complete = none }

  -- `handleKeyDown`
  pub handle_key_down : ℕ → String → List (List ℕ) → Effect
  unfolding backspace
  handle_key_down index key values =
      if str_eq key "Backspace"
      then backspace index values
      else (if str_eq key "ArrowLeft" && leb 1 index
          then record { values = values; focus = some (index - 1); complete = none }
          else (if str_eq key "ArrowRight" && ltb index (size - 1)
              then record { values = values; focus = some (index + 1); complete = none }
              else record { values = values; focus = none; complete = none }))

  -- `handlePaste`
  pub handle_paste : List ℕ → Effect
  unfolding only_digits is_digit spread notify_if_complete
  handle_paste text =
      let chars = take size (only_digits text) in
      let next = spread size chars in
      record {
        values = next;
        focus = some (min (length chars) (size - 1));
        complete = notify_if_complete next;
      }

  -- The events of the cells: a paste is handled on the first cell only.
  pub data Event : Type 0 where
    change : (index : ℕ) → List ℕ → Event
    key_down : (index : ℕ) → String → Event
    paste : List ℕ → Event

  pub handle : Event → List (List ℕ) → Effect
  handle (change index raw) values = handle_change index raw values
  handle (key_down index key) values = handle_key_down index key values
  handle (paste text) values = handle_paste text
