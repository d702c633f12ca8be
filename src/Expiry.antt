-- ===== src/Expiry.antt =====
-- apps/web/components/auth/expiry-pill.tsx: the countdown of a time-limited code. Times are
-- milliseconds since the epoch.
pub mod Laws
pub mod Label
mod Tests
use rust_auth_example.Base.{
  ℕ, zero, suc, ◌+◌, ◌-◌, ◌/◌, ◌%◌, Bool, true, false, not, ◌&&◌, ◌||◌, List, [], ◌∷◌, ◌++◌, leb,
  ltb, ◌==◌, length, codes, if◌then◌else◌,
}

-- `Math.max(0, Math.floor((expiresAt.getTime() - Date.now()) / 1000))`; past the expiry the
-- difference is negative, and the truncated one is 0, as the maximum is.
pub remaining : ℕ → ℕ → ℕ
remaining expires_at now = (expires_at - now) / 1000

-- The state of the component: `secondsLeft`, whether the interval is live, and how often
-- `onExpired` was called.
pub record Pill : Type 0 where
  pub seconds_left : ℕ
  pub ticking : Bool
  pub calls : ℕ

module _ (expires_at : ℕ) where
  -- The effect that runs when the pill is mounted with this expiry.
  pub start : ℕ → Pill
  unfolding remaining
  start now =
      let initial = remaining expires_at now in
      if initial == 0
      then record { seconds_left = initial; ticking = false; calls = 1 }
      else record { seconds_left = initial; ticking = true; calls = 0 }

  -- The callback of the interval, which a cleared interval does not run.
  pub tick : ℕ → Pill → Pill
  unfolding remaining
  tick now p =
      let left = remaining expires_at now in
      let expired : Pill = record { seconds_left = left; ticking = false; calls = p.calls + 1 } in
      if not p.ticking then p else (if left == 0 then expired else record p { seconds_left = left })

  -- The callbacks run at these times.
  pub run : List ℕ → Pill → Pill
  run [] p = p
  run (now ∷ later) p = run later (tick now p)

-- `String(n)`, with one round for each digit
pub decimal : ℕ → ℕ → List ℕ
decimal zero n = []
decimal (suc rounds) n =
    let front = decimal rounds (n / 10) in
    if ltb n 10 then (n + b'0') ∷ [] else front ++ (n % 10 + b'0') ∷ []

-- `.padStart(2, '0')`
pub pad_start : List ℕ → List ℕ
pad_start [] = b'0' ∷ b'0' ∷ []
pad_start (c ∷ []) = b'0' ∷ c ∷ []
pad_start (c ∷ d ∷ s) = c ∷ d ∷ s

pub two_digits : ℕ → List ℕ
unfolding decimal pad_start
two_digits n = pad_start (decimal (suc n) n)

-- `label`
pub label : ℕ → List ℕ
label seconds_left =
    if seconds_left == 0
    then codes "Expired"
    else (two_digits (seconds_left / 60) ++ b':' ∷ two_digits (seconds_left % 60))

-- `isExpired || isWarning`, which turns the pill destructive
pub is_destructive : ℕ → Bool
is_destructive seconds_left =
    let is_expired = seconds_left == 0 in
    let is_warning = not is_expired && leb seconds_left 30 in is_expired || is_warning
