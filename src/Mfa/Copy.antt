-- ===== src/Mfa/Copy.antt =====
-- `copy` of apps/web/components/mfa/RecoveryCodeGrid.tsx and `copySecret` of QrEnrollmentCard.tsx,
-- which are the same code over another text, with the timers of the browser.
pub mod Laws
mod Tests
use rust_auth_example.Base.{
  ℕ, zero, suc, Bool, true, false, not, ◌==◌, Option, none, some, List, [], ◌∷◌, if◌then◌else◌,
}
use rust_auth_example.Http.{Outcome, resolved, rejected}

-- The state and the ref of the component, the writes to the clipboard in flight, and the timers of
-- the browser that it set and that are still to fire. Timers are numbered in the order of `setTimeout`.
pub record CopyButton : Type 0 where
  pub copied : Bool
  pub copy_failed : Bool
  pub reset_timer : Option ℕ
  pub is_mounted : Bool
  pub writes : ℕ
  pub timers : List ℕ
  pub next_timer : ℕ

pub initial : CopyButton
initial = record {
  copied = false;
  copy_failed = false;
  reset_timer = none;
  is_mounted = true;
  writes = 0;
  timers = [];
  next_timer = 0;
}

-- `clearTimeout`
pub clear_timeout : ℕ → List ℕ → List ℕ
clear_timeout id [] = []
clear_timeout id (t ∷ ts) = if t == id then ts else t ∷ clear_timeout id ts

-- `if (resetTimer.current !== null) clearTimeout(resetTimer.current);`
pub clear_reset : Option ℕ → List ℕ → List ℕ
unfolding clear_timeout
clear_reset none ts = ts
clear_reset (some id) ts = clear_timeout id ts

-- `scheduleReset`
pub schedule_reset : CopyButton → CopyButton
unfolding clear_reset
schedule_reset s = record s {
  reset_timer = some s.next_timer;
  timers = s.next_timer ∷ clear_reset s.reset_timer s.timers;
  next_timer = suc s.next_timer;
}

pub data Event : Type 0 where
  copy : Event
  write_settled : Outcome (Unit {0}) → Event
  timer_fired : ℕ → Event
  unmount : Event

-- `copy`, after its `await`. React ignores a change of the state of an unmounted component.
pub on_write_settled : Outcome (Unit {0}) → ℕ → CopyButton → CopyButton
unfolding schedule_reset
on_write_settled outcome zero s = s
on_write_settled (resolved _) (suc others) s = schedule_reset (record s {
  copy_failed = if s.is_mounted then false else s.copy_failed;
  copied = if s.is_mounted then true else s.copied;
  writes = others;
})
on_write_settled (rejected err) (suc others) s =
    schedule_reset
      (record s { copy_failed = if s.is_mounted then true else s.copy_failed; writes = others })

pub is_pending : ℕ → List ℕ → Bool
is_pending id [] = false
is_pending id (t ∷ ts) = if t == id then true else is_pending id ts

-- The callback of the timer
pub on_timer : ℕ → CopyButton → CopyButton
unfolding clear_timeout
on_timer id s = record s {
  copied = if s.is_mounted then false else s.copied;
  copy_failed = if s.is_mounted then false else s.copy_failed;
  reset_timer = none;
  timers = clear_timeout id s.timers;
}

pub step : Event → CopyButton → CopyButton
unfolding on_write_settled is_pending on_timer clear_reset
step copy s = if s.is_mounted then record s { writes = suc s.writes } else s
step (write_settled outcome) s = on_write_settled outcome s.writes s
step (timer_fired id) s = if is_pending id s.timers then on_timer id s else s
step unmount s =
    if s.is_mounted
    then record s { is_mounted = false; timers = clear_reset s.reset_timer s.timers }
    else s

pub run : List Event → CopyButton → CopyButton
run [] s = s
run (e ∷ es) s = run es (step e s)

-- The label of the button, `copied ? … : copyFailed ? … : …`
pub data Label : Type 0 where
  copied_label failed_label copy_label : Label

pub label : CopyButton → Label
label s = if s.copied then copied_label else (if s.copy_failed then failed_label else copy_label)
