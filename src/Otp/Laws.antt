-- ===== src/Otp/Laws.antt =====
-- The cells hold one digit each at most, and only a full code is ever reported.
use rust_auth_example.Base.{
  ℕ, zero, suc, ◌-◌, ◌<◌, true, String, some, List, [], ◌∷◌, ◌≡◌, refl, length, replicate, inl, inr,
  get_elem?, take, every, All, arith, length-replicate, Bool-cases, leb, ◌⊎◌, or_else, ◌==◌, ◌&&◌,
  ◌∙◌,
}
use rust_auth_example.Otp.{
  is_digit, only_digits, last_unit, put, spread, join, is_filled, notify_if_complete, blank,
  handle_change, backspace, handle_key_down, handle_paste, Event, change, key_down, paste, handle,
}

-- A cell is empty or holds one digit.
abbrev IsCell : List ℕ → Type 0
IsCell [] = Unit
IsCell (c ∷ []) = is_digit c ≡ true
IsCell (c ∷ d ∷ s) = ⊥

pub record IsCells (size : ℕ) (values : List (List ℕ)) : Type 0 where
  pub count : length values ≡ size
  pub cells : All IsCell values

blank-IsCells : (size : ℕ) → IsCells size (blank size)
unfolding blank
blank-IsCells size = record { count = length-replicate size []; cells = cells size }
  where
    cells : (n : ℕ) → All IsCell (replicate n [])
    cells zero = tt
    cells (suc n) = (tt, cells n)

length-put : (i : ℕ) (c : List ℕ) (vs : List (List ℕ)) → length (put i c vs) ≡ length vs
unfolding put
length-put i c [] = refl
length-put zero c (v ∷ vs) = refl
length-put (suc i) c (v ∷ vs) = omega (arith, length-put i c vs)

put-All :
    (i : ℕ) (c : List ℕ) (vs : List (List ℕ)) → IsCell c → All IsCell vs → All IsCell (put i c vs)
unfolding put
put-All i c [] h a = tt
put-All zero c (v ∷ vs) h (_, a) = (h, a)
put-All (suc i) c (v ∷ vs) h (x, a) = (x, put-All i c vs h a)

put-IsCells :
    {size : ℕ} {vs : List (List ℕ)} (i : ℕ) (c : List ℕ)
    → IsCell c
    → IsCells size vs
    → IsCells size (put i c vs)
put-IsCells {vs} i c h s = record {
  count = omega (arith, length-put i c vs, s.count);
  cells = put-All i c vs h s.cells;
}

only_digits-All : (s : List ℕ) → All (λ c. is_digit c ≡ true) (only_digits s)
unfolding only_digits
only_digits-All [] = tt
only_digits-All (c ∷ s) = elim (Bool-cases (is_digit c)) [
  | inl e ↦ rw e (e, only_digits-All s)
  | inr e ↦ rw e (only_digits-All s)
]

last_unit-IsCell : (s : List ℕ) → All (λ c. is_digit c ≡ true) s → IsCell (last_unit s)
unfolding last_unit
last_unit-IsCell [] h = tt
last_unit-IsCell (c ∷ []) h = h.0
last_unit-IsCell (c ∷ d ∷ s) h = last_unit-IsCell (d ∷ s) h.1

length-spread : (n : ℕ) (s : List ℕ) → length (spread n s) ≡ n
unfolding spread
length-spread zero s = refl
length-spread (suc n) [] = omega (arith, length-spread n [])
length-spread (suc n) (c ∷ s) = omega (arith, length-spread n s)

spread-All : (n : ℕ) (s : List ℕ) → All (λ c. is_digit c ≡ true) s → All IsCell (spread n s)
unfolding spread
spread-All zero s h = tt
spread-All (suc n) [] h = (tt, spread-All n [] tt)
spread-All (suc n) (c ∷ s) h = (h.0, spread-All n s h.1)

take-All :
    (n : ℕ) (s : List ℕ) → All (λ c. is_digit c ≡ true) s → All (λ c. is_digit c ≡ true) (take n s)
take-All zero s h = tt
take-All (suc n) [] h = tt
take-All (suc n) (c ∷ s) h = (h.0, take-All n s h.1)

key_down-values :
    (size i : ℕ) (key : String) (vs : List (List ℕ))
    → ((handle_key_down size i key vs).values ≡ (backspace size i vs).values)
      ⊎ ((handle_key_down size i key vs).values ≡ vs)
unfolding handle_key_down
key_down-values size i key vs = ground arith

backspace-IsCells :
    (size i : ℕ) (vs : List (List ℕ)) → IsCells size vs → IsCells size (backspace size i vs).values
unfolding backspace
backspace-IsCells size i vs h =
    elim (Bool-cases (leb 1 i && (length (or_else (get_elem? vs i) []) == 0))) [
      | inl e ↦ rw e (put-IsCells (i - 1) [] tt h)
      | inr e ↦ rw e (put-IsCells i [] tt h)
    ]

-- Every event keeps the cells well formed: `size` of them, each empty or with one digit.
handle-IsCells :
    (size : ℕ) (e : Event size) (vs : List (List ℕ))
    → IsCells size vs
    → IsCells size (handle size e vs).values
unfolding handle handle_change handle_paste
handle-IsCells size (change i raw) vs h =
    put-IsCells i _ (last_unit-IsCell (only_digits raw) (only_digits-All raw)) h
handle-IsCells size (key_down i key) vs h = elim (key_down-values size i key vs) [
  | inl e ↦ rw e (backspace-IsCells size i vs h)
  | inr e ↦ rw e h
]
handle-IsCells size (paste text) vs h = record {
  count = length-spread size _;
  cells = spread-All size _ (take-All size _ (only_digits-All text));
}

join_full :
    (vs : List (List ℕ))
    → All IsCell vs
    → every is_filled vs ≡ true
    → (length (join vs) ≡ length vs) × All (λ c. is_digit c ≡ true) (join vs)
unfolding join
join_full [] h e = (refl, tt)
join_full ([] ∷ vs) h e = cc
join_full ((c ∷ []) ∷ vs) h e = let (n, a) = join_full vs h.1 e in (omega (arith, n), (h.0, a))
join_full ((c ∷ d ∷ s) ∷ vs) h e = absurd h.0

handle-complete :
    (size : ℕ) (e : Event size) (vs : List (List ℕ)) {code : List ℕ}
    → (handle size e vs).complete ≡ some code
    → notify_if_complete (handle size e vs).values ≡ some code
unfolding handle handle_change handle_key_down backspace handle_paste
handle-complete size (change i raw) vs h = h
handle-complete size (key_down i key) vs h = ground arith
handle-complete size (paste text) vs h = h

notify_full :
    (vs : List (List ℕ)) {code : List ℕ}
    → notify_if_complete vs ≡ some code
    → (every is_filled vs ≡ true) × (join vs ≡ code)
unfolding notify_if_complete
notify_full vs h = elim (Bool-cases (every is_filled vs)) [
  | inl e ↦ (e, ground arith)
  | inr e ↦ cc (rw e at h)
]

-- From well-formed cells, `onComplete` is only ever called with a code of exactly `size` digits.
pub complete-length :
    (size : ℕ) (e : Event size) (vs : List (List ℕ)) {code : List ℕ}
    → IsCells size vs
    → (handle size e vs).complete ≡ some code
    → (length code ≡ size) × All (λ c. is_digit c ≡ true) code
complete-length size e vs h k =
    let s = handle-IsCells size e vs h in
    let (full, same) = notify_full _ (handle-complete size e vs k) in
    let (n, a) = join_full _ s.cells full in rw (← same) (n ∙ s.count, a)

-- The event comes from one of the `size` cells.
abbrev IsFrom : (size : ℕ) → Event size → Type 0
IsFrom size (change i raw) = i < size
IsFrom size (key_down i key) = i < size
IsFrom size (paste text) = 0 < size

-- An event of one of the cells never moves the focus out of the cells.
focus_bounds :
    (size : ℕ) (e : Event size) (vs : List (List ℕ)) {j : ℕ}
    → IsFrom size e
    → (handle size e vs).focus ≡ some j
    → j < size
unfolding handle handle_change handle_key_down backspace handle_paste
focus_bounds size (change i raw) vs h k = ground arith
focus_bounds size (key_down i key) vs h k = ground arith
focus_bounds size (paste text) vs h k = ground arith
