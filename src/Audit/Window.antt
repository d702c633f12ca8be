-- ===== src/Audit/Window.antt =====
-- The window of rows that are rendered.
use rust_auth_example.Base.{
  ℕ, zero, suc, ◌+◌, ◌-◌, ◌*◌, ◌≤◌, ◌<◌, true, List, [], ◌∷◌, ◌≡◌, refl, ◌∙◌, arith, length,
  get_elem?, take, drop, length-take, ◌↔◌,
}
use native.Mathlib.Nat.{zero-add, suc-add}
use rust_auth_example.Audit.{
  row_h, viewport, max_top, effective_top, start_of, window_count, end_of, window_rows,
  handle_scroll,
}

-- Row `i`, which stands at `i * row_h`, shows in the viewport that is scrolled to `top`.
abbrev pub Shows : ℕ → ℕ → Type 0
Shows top i = (i * row_h < top + viewport) × (top < (i + 1) * row_h)

get_elem?-take {ℓ} :
    {A : Type ℓ} (n i : ℕ) (xs : List A) → i < n → get_elem? (take n xs) i ≡ get_elem? xs i
get_elem?-take zero i xs h = absurd (omega arith)
get_elem?-take (suc n) i [] h = refl
get_elem?-take (suc n) zero (x ∷ xs) h = refl
get_elem?-take (suc n) (suc i) (x ∷ xs) h = get_elem?-take n i xs (omega arith)

get_elem?-drop {ℓ} :
    {A : Type ℓ} (n i : ℕ) (xs : List A) → get_elem? (drop n xs) i ≡ get_elem? xs (n + i)
get_elem?-drop zero i xs = rw zero-add refl
get_elem?-drop (suc n) i [] = refl
get_elem?-drop (suc n) i (x ∷ xs) = get_elem?-drop n i xs ∙ rw suc-add refl

start_add : (top i : ℕ) → top < (i + 1) * row_h → start_of top + (i - start_of top) ≡ i
unfolding start_of
start_add top i h = omega arith

-- Every row that shows in the viewport is rendered, at its own place: the window's row `i - start`
-- is the row `i` of the table.
pub window_rows-Shows {ℓ} :
    {A : Type ℓ} (top i : ℕ) (rows : List A)
    → Shows top i
    → i < length rows
    → (start_of top ≤ i) × (get_elem? (window_rows top rows) (i - start_of top) ≡ get_elem? rows i)
unfolding window_rows end_of start_of window_count
window_rows-Shows top i rows (below, above) h = (
  omega arith,
  get_elem?-take (end_of (length rows) top - start_of top) (i - start_of top) _ (omega arith)
      ∙ get_elem?-drop (start_of top) (i - start_of top) rows
      ∙ rw (start_add top i above) refl,
)

-- However long the table is, at most 18 rows are rendered.
length-window_rows {ℓ} : {A : Type ℓ} (top : ℕ) (rows : List A) → length (window_rows top rows) ≤ 18
unfolding window_rows end_of window_count
length-window_rows top rows =
    omega (arith, length-take (end_of (length rows) top - start_of top) (drop (start_of top) rows))

-- While the table follows, its newest row is the last one rendered, and it shows in the viewport.
effective_top-Shows :
    (scroll_top count : ℕ)
    → 0 < count
    → (end_of count (effective_top true scroll_top count) ≡ count)
      × Shows (effective_top true scroll_top count) (count - 1)
unfolding end_of start_of window_count effective_top max_top
effective_top-Shows scroll_top count h = omega arith

-- For a table that is not empty, a scroll goes on to follow exactly if the upper edge of the newest
-- row has come up to the lower edge of the viewport.
handle_scroll_follows_iff :
    (count top : ℕ)
    → 0 < count
    → ((handle_scroll count top).1 ≡ true) ↔ ((count - 1) * row_h ≤ top + viewport)
unfolding handle_scroll max_top
handle_scroll_follows_iff count top h = (λ e. ground arith, λ l. ground arith)
