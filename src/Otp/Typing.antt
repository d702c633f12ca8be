-- ===== src/Otp/Typing.antt =====
-- Pasting a code and typing it digit by digit.
use rust_auth_example.Base.{
  ℕ, zero, suc, true, none, some, List, [], ◌∷◌, ◌++◌, ◌≡◌, refl, sym, ap, ap₂, ◌∙◌, length, take,
  every, All, map, arith, length-append, leb, append_assoc, if◌then◌else◌,
}
use rust_auth_example.Otp.{
  is_digit, only_digits, last_unit, put, spread, join, is_filled, Effect, notify_if_complete,
  handle_change, handle_paste,
}

every-spread : (n : ℕ) (s : List ℕ) → every is_filled (spread n s) ≡ leb n (length s)
unfolding spread
every-spread zero s = ground arith
every-spread (suc n) [] = ground arith
every-spread (suc n) (c ∷ s) = ground (arith, every-spread n s)

join-spread_nil : (n : ℕ) → join (spread n []) ≡ []
unfolding join spread
join-spread_nil zero = refl
join-spread_nil (suc n) = join-spread_nil n

join-spread : (n : ℕ) (s : List ℕ) → join (spread n s) ≡ take n s
unfolding join spread
join-spread zero s = refl
join-spread (suc n) [] = join-spread_nil n
join-spread (suc n) (c ∷ s) = ap (λ t. c ∷ t) (join-spread n s)

take-take {ℓ} : {A : Type ℓ} (n : ℕ) (s : List A) → take n (take n s) ≡ take n s
take-take zero s = refl
take-take (suc n) [] = refl
take-take (suc n) (c ∷ s) = ap (λ t. c ∷ t) (take-take n s)

leb-take {ℓ} : {A : Type ℓ} (n : ℕ) (s : List A) → leb n (length (take n s)) ≡ leb n (length s)
leb-take zero s = ground arith
leb-take (suc n) [] = refl
leb-take (suc n) (c ∷ s) = ground (arith, leb-take n s)

-- A paste completes exactly if it has `size` digits at least, and then with its first `size` digits,
-- whatever other characters stand between them.
paste-complete :
    (size : ℕ) (text : List ℕ)
    → (handle_paste size text).complete
      ≡ (if leb size (length (only_digits text)) then some (take size (only_digits text)) else none)
unfolding handle_paste notify_if_complete
paste-complete size text = rw (
  every-spread size (take size (only_digits text)),
  leb-take size (only_digits text),
  join-spread size (take size (only_digits text)),
  take-take size (only_digits text),
)

-- The digits are typed one after the other, from the cell at `index` on.
pub type_from : ℕ → ℕ → List ℕ → Effect → Effect
type_from size index [] e = e
type_from size index (d ∷ ds) e =
    type_from size (suc index) ds (handle_change size index (d ∷ []) e.values)

abbrev cells_of : List ℕ → List (List ℕ)
cells_of = map (λ d. d ∷ [])

put-append :
    (done : List (List ℕ)) (c v : List ℕ) (rest : List (List ℕ))
    → put (length done) c (done ++ v ∷ rest) ≡ done ++ c ∷ rest
unfolding put
put-append [] c v rest = refl
put-append (w ∷ done) c v rest = ap (λ t. w ∷ t) (put-append done c v rest)

change-values :
    (size : ℕ) (done rest : List (List ℕ)) (d : ℕ) (v : List ℕ)
    → is_digit d ≡ true
    → (handle_change size (length done) (d ∷ []) (done ++ v ∷ rest)).values
      ≡ (done ++ (d ∷ []) ∷ []) ++ rest
unfolding handle_change only_digits last_unit
change-values size done rest d v h =
    rw h (put-append done (d ∷ []) v rest ∙ sym (append_assoc done ((d ∷ []) ∷ []) rest))

type_from-values :
    (size i : ℕ) (done rest : List (List ℕ)) (ds : List ℕ) (e : Effect)
    → i ≡ length done
    → e.values ≡ done ++ rest
    → length rest ≡ length ds
    → All (λ d. is_digit d ≡ true) ds
    → (type_from size i ds e).values ≡ done ++ cells_of ds
unfolding type_from
type_from-values size i done [] [] e p h n a = h
type_from-values size i done [] (d ∷ ds) e p h n a = absurd (omega arith)
type_from-values size i done (v ∷ rest) [] e p h n a = absurd (omega arith)
type_from-values size i done (v ∷ rest) (d ∷ ds) e p h n (x, a) =
    type_from-values size (suc i) (done ++ (d ∷ []) ∷ []) rest ds
      (handle_change size i (d ∷ []) e.values) (omega (arith, length-append done ((d ∷ []) ∷ [])))
      (ap₂ (λ j w. (handle_change size j (d ∷ []) w).values) p h
        ∙ change-values size done rest d v x)
      (omega arith) a
    ∙ append_assoc done ((d ∷ []) ∷ []) (cells_of ds)

type_from-complete :
    (size i d : ℕ) (ds : List ℕ) (e : Effect)
    → (type_from size i (d ∷ ds) e).complete
      ≡ notify_if_complete (type_from size i (d ∷ ds) e).values
unfolding type_from handle_change
type_from-complete size i d [] e = refl
type_from-complete size i d (d' ∷ ds) e =
    type_from-complete size (suc i) d' ds (handle_change size i (d ∷ []) e.values)

notify-cells_of : (ds : List ℕ) → notify_if_complete (cells_of ds) ≡ some ds
unfolding notify_if_complete
notify-cells_of ds = rw (every_cells ds, join_cells ds)
  where
    every_cells : (s : List ℕ) → every is_filled (cells_of s) ≡ true
    every_cells [] = refl
    every_cells (c ∷ s) = every_cells s

    join_cells : (s : List ℕ) → join (cells_of s) ≡ s
    join_cells [] = refl
    join_cells (c ∷ s) = ap (λ t. c ∷ t) (join_cells s)

-- Typing `size` digits into the cells one after the other, whatever the cells held before, reports
-- exactly these digits after the last of them.
pub type_from_reports :
    (size d : ℕ) (ds : List ℕ) (e : Effect)
    → length e.values ≡ length (d ∷ ds)
    → All (λ c. is_digit c ≡ true) (d ∷ ds)
    → (type_from size 0 (d ∷ ds) e).complete ≡ some (d ∷ ds)
type_from_reports size d ds e n a =
    type_from-complete size 0 d ds e
    ∙ ap notify_if_complete (type_from-values size 0 [] e.values (d ∷ ds) e refl refl n a)
    ∙ notify-cells_of (d ∷ ds)
