-- ===== src/Mfa/Copy/Laws.antt =====
-- The label of the copy button goes back.
use rust_auth_example.Base.{
  ℕ, zero, suc, true, false, ◌==◌, Option, none, some, List, [], ◌∷◌, ◌≡◌, ◌≢◌, refl, arith, ◌<◌,
  Option-cases, Bool-cases, is_some, ◌||◌, ◌⊎◌, inl, inr, if◌then◌else◌,
}
use rust_auth_example.Http.{Outcome, resolved, rejected, Failure}
use rust_auth_example.Mfa.Copy.{
  CopyButton, initial, clear_timeout, clear_reset, schedule_reset, Event, copy, write_settled,
  timer_fired, unmount, on_write_settled, on_timer, is_pending, step, run, copied_label,
  failed_label, copy_label, label,
}

abbrev one : Option ℕ → List ℕ
one none = []
one (some id) = id ∷ []

-- While it is mounted, the component has the timer of its ref pending and no other, and a label other
-- than the first one only with such a timer. Afterwards it has that timer at most.
pub record IsTimed (s : CopyButton) : Type 0 where
  timed : s.is_mounted ≡ true → s.timers ≡ one s.reset_timer
  pub left : (s.timers ≡ []) ⊎ (s.timers ≡ one s.reset_timer)
  reverts : s.is_mounted ≡ true → (s.copied || s.copy_failed) ≡ true → is_some s.reset_timer ≡ true

clear_reset_own :
    (ref : Option ℕ) (ts : List ℕ) → (ts ≡ []) ⊎ (ts ≡ one ref) → clear_reset ref ts ≡ []
unfolding clear_reset clear_timeout
clear_reset_own none ts h = ground arith
clear_reset_own (some id) [] h = refl
clear_reset_own (some id) (t ∷ []) h = ground arith
clear_reset_own (some id) (t ∷ u ∷ us) h = ground arith

schedule_reset-IsTimed :
    (s : CopyButton) → (s.timers ≡ []) ⊎ (s.timers ≡ one s.reset_timer) → IsTimed (schedule_reset s)
unfolding schedule_reset
schedule_reset-IsTimed s h =
    let c : clear_reset s.reset_timer s.timers ≡ [] = clear_reset_own s.reset_timer s.timers h in
    record { timed = λ m. rw c refl; left = inr (rw c refl); reverts = λ m k. refl }

on_write_settled-IsTimed :
    (outcome : Outcome (Unit {0})) (writes : ℕ) (s : CopyButton)
    → IsTimed s
    → IsTimed (on_write_settled outcome writes s)
unfolding on_write_settled
on_write_settled-IsTimed outcome zero s h = h
on_write_settled-IsTimed (resolved x) (suc others) s h = schedule_reset-IsTimed _ h.left
on_write_settled-IsTimed (rejected err) (suc others) s h = schedule_reset-IsTimed _ h.left

clear_timeout_own :
    (id : ℕ) (ref : Option ℕ) (ts : List ℕ)
    → (ts ≡ []) ⊎ (ts ≡ one ref)
    → is_pending id ts ≡ true
    → clear_timeout id ts ≡ []
unfolding clear_timeout is_pending
clear_timeout_own id ref [] h k = refl
clear_timeout_own id none (t ∷ ts) h k = ground arith
clear_timeout_own id (some x) (t ∷ []) h k = ground arith
clear_timeout_own id (some x) (t ∷ u ∷ us) h k = ground arith

on_timer-IsTimed :
    (id : ℕ) (s : CopyButton) → IsTimed s → is_pending id s.timers ≡ true → IsTimed (on_timer id s)
unfolding on_timer
on_timer-IsTimed id s h k =
    let c : clear_timeout id s.timers ≡ [] = clear_timeout_own id s.reset_timer s.timers h.left k in
    record { timed = λ m. rw c refl; left = inl c; reverts = λ m l. ground arith }

step-IsTimed : (e : Event) (s : CopyButton) → IsTimed s → IsTimed (step e s)
unfolding step
step-IsTimed copy s h = ground arith
step-IsTimed (write_settled outcome) s h = on_write_settled-IsTimed outcome s.writes s h
step-IsTimed (timer_fired id) s h = elim (Bool-cases (is_pending id s.timers)) [
  | inl fires ↦ rw fires (on_timer-IsTimed id s h fires)
  | inr stale ↦ rw stale h
]
step-IsTimed unmount s h = ground (arith, clear_reset_own s.reset_timer s.timers h.left)

run-IsTimed : (es : List Event) (s : CopyButton) → IsTimed s → IsTimed (run es s)
unfolding run
run-IsTimed [] s h = h
run-IsTimed (e ∷ es) s h = run-IsTimed es (step e s) (step-IsTimed e s h)

initial-IsTimed : IsTimed initial
unfolding initial
initial-IsTimed = record { timed = λ m. refl; left = inl refl; reverts = λ m k. ground arith }

label_lem : (s : CopyButton) → label s ≢ copy_label → (s.copied || s.copy_failed) ≡ true
unfolding label
label_lem s h = elim (Bool-cases s.copied) [
  | inl shown ↦ rw shown refl
  | inr unshown ↦ elim (Bool-cases s.copy_failed) [
    | inl failed ↦ ground arith
    | inr fine ↦ absurd (h (rw (unshown, fine) refl))
  ]
]

timer_fired_reverts :
    (id : ℕ) (s : CopyButton)
    → s.is_mounted ≡ true
    → s.timers ≡ id ∷ []
    → (label (step (timer_fired id) s) ≡ copy_label) × ((step (timer_fired id) s).timers ≡ [])
unfolding label step on_timer is_pending clear_timeout
timer_fired_reverts id s m k =
    let same : (id == id) ≡ true = ground arith in (rw (k, same, m) refl, rw (k, same) refl)

-- Over any events, rapid copies included, if the button of a mounted component shows another label
-- than its first one, then exactly one timer is pending, and when it fires the first label is back
-- and no timer is pending.
pub run-initial_reverts :
    (es : List Event)
    → (run es initial).is_mounted ≡ true
    → label (run es initial) ≢ copy_label
    → (id : ℕ) × ((run es initial).timers ≡ id ∷ [])
      × (label (step (timer_fired id) (run es initial)) ≡ copy_label)
      × ((step (timer_fired id) (run es initial)).timers ≡ [])
run-initial_reverts es m l =
    let h : IsTimed (run es initial) = run-IsTimed es initial initial-IsTimed in
    let some_timer : is_some (run es initial).reset_timer ≡ true =
      h.reverts m (label_lem (run es initial) l) in
    elim (Option-cases (run es initial).reset_timer) [
      | inl missing ↦ cc (rw missing at some_timer)
      | inr (id, there) ↦
          let k : (run es initial).timers ≡ id ∷ [] = rw there at (h.timed m) in
          (
            id,
            k,
            (timer_fired_reverts id (run es initial) m k).0,
            (timer_fired_reverts id (run es initial) m k).1,
          )
    ]

-- A write that settles after the component is unmounted sets a timer that outlives it, in whatever
-- way it settles.
unmounted_write_sets_timer :
    (outcome : Outcome (Unit {0})) (s : CopyButton)
    → s.is_mounted ≡ false
    → 0 < s.writes
    → s.timers ≡ []
    → (step (write_settled outcome) s).timers ≡ s.next_timer ∷ []
unfolding step on_write_settled schedule_reset
unmounted_write_sets_timer (resolved x) s m w k =
    ground (arith, clear_reset_own s.reset_timer s.timers (inl k))
unmounted_write_sets_timer (rejected err) s m w k =
    ground (arith, clear_reset_own s.reset_timer s.timers (inl k))

-- A refused copy shows its failure unless the label of an earlier copy is still there, which stays.
refused_write_label :
    (err : Failure) (s : CopyButton)
    → s.is_mounted ≡ true
    → 0 < s.writes
    → label (step (write_settled (rejected err)) s)
      ≡ (if s.copied then copied_label else failed_label)
unfolding label step on_write_settled schedule_reset
refused_write_label err s m w = ground arith
