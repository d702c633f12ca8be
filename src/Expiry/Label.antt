-- ===== src/Expiry/Label.antt =====
-- The label `MM:SS` of the countdown.
use rust_auth_example.Base.{
  ℕ, zero, suc, ◌+◌, ◌-◌, ◌*◌, ◌/◌, ◌%◌, ◌≤◌, ◌<◌, List, [], ◌∷◌, ◌++◌, ◌≡◌, refl, ◌∙◌, length,
  length-append, leb, ltb, arith, Bool, true, ◌&&◌, Bool-cases, inl, inr, every, every-append,
}
use rust_auth_example.Expiry.{decimal, pad_start, two_digits, label}

-- The number that a text of digits stands for, after the digits of `acc`.
pub value_from : ℕ → List ℕ → ℕ
value_from acc [] = acc
value_from acc (c ∷ s) = value_from (acc * 10 + (c - b'0')) s

value_from-append :
    (acc c : ℕ) (s : List ℕ) → value_from acc (s ++ c ∷ []) ≡ value_from acc s * 10 + (c - b'0')
unfolding value_from
value_from-append acc c [] = refl
value_from-append acc c (d ∷ s) = value_from-append (acc * 10 + (d - b'0')) c s

value-decimal : (rounds n : ℕ) → n < rounds → value_from 0 (decimal rounds n) ≡ n
unfolding decimal
value-decimal zero n h = absurd (omega arith)
value-decimal (suc rounds) n h = elim (Bool-cases (ltb n 10)) [
  | inl small ↦ rw small (unfold value_from in (omega arith))
  | inr large ↦ rw large (
      value_from-append 0 (n % 10 + b'0') (decimal rounds (n / 10))
      ∙ ground (arith, value-decimal rounds (n / 10) (ground arith)))
]

value-pad_start : (s : List ℕ) → value_from 0 (pad_start s) ≡ value_from 0 s
unfolding value_from pad_start
value-pad_start [] = refl
value-pad_start (c ∷ []) = refl
value-pad_start (c ∷ d ∷ s) = refl

value-two_digits : (n : ℕ) → value_from 0 (two_digits n) ≡ n
unfolding two_digits
value-two_digits n = value-pad_start (decimal (suc n) n) ∙ value-decimal (suc n) n (omega arith)

length-pad_start : (s : List ℕ) → 2 ≤ length (pad_start s)
unfolding pad_start
length-pad_start [] = omega arith
length-pad_start (c ∷ []) = omega arith
length-pad_start (c ∷ d ∷ s) = omega arith

length-two_digits : (n : ℕ) → 2 ≤ length (two_digits n)
unfolding two_digits
length-two_digits n = length-pad_start (decimal (suc n) n)

length-decimal_digit : (rounds n : ℕ) → n < 10 → length (decimal (suc rounds) n) ≡ 1
unfolding decimal
length-decimal_digit rounds n h = ground arith

length-decimal-le : (n : ℕ) → n < 100 → length (decimal (suc n) n) ≤ 2
unfolding decimal
length-decimal-le zero h = omega arith
length-decimal-le (suc n) h = elim (Bool-cases (ltb (suc n) 10)) [
  | inl small ↦ rw small (omega arith)
  | inr large ↦ rw large (
      omega (
        arith,
        length-append (decimal (suc n) (suc n / 10)) ((suc n % 10 + b'0') ∷ []),
        length-decimal_digit n (suc n / 10) (omega arith),
      ))
]

length-pad_start_le : (s : List ℕ) → length s ≤ 2 → length (pad_start s) ≡ 2
unfolding pad_start
length-pad_start_le [] h = refl
length-pad_start_le (c ∷ []) h = refl
length-pad_start_le (c ∷ d ∷ s) h = omega arith

length-two_digits_lt : (n : ℕ) → n < 100 → length (two_digits n) ≡ 2
unfolding two_digits
length-two_digits_lt n h = length-pad_start_le (decimal (suc n) n) (length-decimal-le n h)

-- A text of decimal digits
abbrev pub is_digit : ℕ → Bool
is_digit c = leb b'0' c && leb c b'9'

abbrev pub AreDigits : List ℕ → Type 0
AreDigits s = every is_digit s ≡ true

decimal-AreDigits : (rounds n : ℕ) → AreDigits (decimal rounds n)
unfolding decimal
decimal-AreDigits zero n = refl
decimal-AreDigits (suc rounds) n = elim (Bool-cases (ltb n 10)) [
  | inl small ↦ rw small (ground arith)
  | inr large ↦
      rw (large, every-append is_digit (decimal rounds (n / 10)) ((n % 10 + b'0') ∷ []))
        (ground (arith, decimal-AreDigits rounds (n / 10)))
]

pad_start-AreDigits : (s : List ℕ) → AreDigits s → AreDigits (pad_start s)
unfolding pad_start
pad_start-AreDigits [] h = refl
pad_start-AreDigits (c ∷ []) h = h
pad_start-AreDigits (c ∷ d ∷ s) h = h

two_digits-AreDigits : (n : ℕ) → AreDigits (two_digits n)
unfolding two_digits
two_digits-AreDigits n = pad_start-AreDigits (decimal (suc n) n) (decimal-AreDigits (suc n) n)

-- Before the expiry the label is the minutes, with two characters at least, a colon and the
-- seconds, with two; both are decimal digits only, and read as numbers they give back the seconds
-- left.
pub label_reads :
    (seconds_left : ℕ)
    → 0 < seconds_left
    → (minutes : List ℕ) × (seconds : List ℕ) × (label seconds_left ≡ minutes ++ b':' ∷ seconds)
      × AreDigits minutes
      × AreDigits seconds
      × (value_from 0 minutes * 60 + value_from 0 seconds ≡ seconds_left)
      × (value_from 0 seconds < 60)
      × (2 ≤ length minutes)
      × (length seconds ≡ 2)
unfolding label
label_reads s h = (
  two_digits (s / 60),
  two_digits (s % 60),
  ground arith,
  two_digits-AreDigits (s / 60),
  two_digits-AreDigits (s % 60),
  omega (arith, value-two_digits (s / 60), value-two_digits (s % 60)),
  omega (arith, value-two_digits (s % 60)),
  length-two_digits (s / 60),
  length-two_digits_lt (s % 60) (omega arith),
)
