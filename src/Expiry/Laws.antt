-- ===== src/Expiry/Laws.antt =====
-- The expiry is reported once, and exactly if the countdown was seen at zero.
use rust_auth_example.Base.{
  ℕ, ◌+◌, ◌<◌, Bool, true, false, List, [], ◌∷◌, ◌≡◌, inl, inr, any, ltb, leb, arith, Bool-cases,
}
use rust_auth_example.Expiry.{remaining, Pill, start, tick, run, is_destructive}

-- The countdown shows zero at this time: less than a second is left.
abbrev is_over : ℕ → ℕ → Bool
is_over expires_at now = ltb expires_at (now + 1000)

-- Between two callbacks, either the interval is live and nothing was reported, or the interval is
-- cleared, one report was made and the pill shows zero.
pub record IsLive (p : Pill) : Type 0 where
  pub live : p.ticking ≡ true
  silent : p.calls ≡ 0
  pub left : 0 < p.seconds_left

pub record IsDone (p : Pill) : Type 0 where
  cleared : p.ticking ≡ false
  reported : p.calls ≡ 1
  none_left : p.seconds_left ≡ 0

module _ (expires_at : ℕ) where
  remaining_over : (now : ℕ) → is_over expires_at now ≡ true → remaining expires_at now ≡ 0
  unfolding remaining
  remaining_over now h = ground arith

  remaining_left : (now : ℕ) → is_over expires_at now ≡ false → 0 < remaining expires_at now
  unfolding remaining
  remaining_left now h = ground arith

  tick-IsDone : (now : ℕ) {p : Pill} → IsDone p → IsDone (tick expires_at now p)
  unfolding tick
  tick-IsDone now d = ground arith

  tick_over :
      (now : ℕ) {p : Pill}
      → IsLive p
      → is_over expires_at now ≡ true
      → IsDone (tick expires_at now p)
  unfolding tick
  tick_over now l h = ground (arith, remaining_over now h)

  tick-IsLive :
      (now : ℕ) {p : Pill}
      → IsLive p
      → is_over expires_at now ≡ false
      → IsLive (tick expires_at now p)
  unfolding tick
  tick-IsLive now l h = ground (arith, remaining_left now h)

  run-IsDone : (times : List ℕ) (p : Pill) → IsDone p → IsDone (run expires_at times p)
  unfolding run
  run-IsDone [] p d = d
  run-IsDone (now ∷ later) p d = run-IsDone later (tick expires_at now p) (tick-IsDone now d)

  run-IsLive :
      (times : List ℕ) (p : Pill)
      → IsLive p
      → (any (is_over expires_at) times ≡ true → IsDone (run expires_at times p))
        × (any (is_over expires_at) times ≡ false → IsLive (run expires_at times p))
  unfolding run
  run-IsLive [] p l = (λ h. cc, λ h. l)
  run-IsLive (now ∷ later) p l = elim (Bool-cases (is_over expires_at now)) [
    | inl over ↦ (
      λ h. run-IsDone later (tick expires_at now p) (tick_over now l over),
      λ h. cc (rw over at h),
    )
    | inr before ↦ rw before (run-IsLive later (tick expires_at now p) (tick-IsLive now l before))
  ]

  start_over : (now : ℕ) → is_over expires_at now ≡ true → IsDone (start expires_at now)
  unfolding start
  start_over now h = ground (arith, remaining_over now h)

  start-IsLive : (now : ℕ) → is_over expires_at now ≡ false → IsLive (start expires_at now)
  unfolding start
  start-IsLive now h = ground (arith, remaining_left now h)

  -- Mounted at `now`, with callbacks at the times `later`, the pill has called `onExpired` once if
  -- less than a second was left at one of these times, and else not at all; in the first case its
  -- interval is cleared and it shows zero, in the second the interval is live and it shows more.
  run-start :
      (now : ℕ) (later : List ℕ)
      → (any (is_over expires_at) (now ∷ later) ≡ true
          → IsDone (run expires_at later (start expires_at now)))
        × (any (is_over expires_at) (now ∷ later) ≡ false
            → IsLive (run expires_at later (start expires_at now)))
  run-start now later = elim (Bool-cases (is_over expires_at now)) [
    | inl over ↦
        (λ h. run-IsDone later (start expires_at now) (start_over now over), λ h. cc (rw over at h))
    | inr before ↦ rw before (run-IsLive later (start expires_at now) (start-IsLive now before))
  ]

-- The pill is destructive at 30 seconds and below, and at nothing else.
is_destructive-eq-leb : (seconds_left : ℕ) → is_destructive seconds_left ≡ leb seconds_left 30
unfolding is_destructive
is_destructive-eq-leb seconds_left = ground arith
