-- ===== src/Audit/Tail/Laws.antt =====
-- The count of pending rows is exactly what arrived while the view was paused.
use rust_auth_example.Base.{
  ◌+◌, ◌≤◌, Bool, true, false, Option, none, some, List, [], ◌∷◌, ◌++◌, ◌≡◌, refl, sym, ◌∙◌, arith,
  length, append-nil, append_assoc, length-append, map,
}
use rust_auth_example.Audit.{AuditLogRow}
use rust_auth_example.Audit.Tail.{
  TailState, TailEvent, set_following, set_enabled, message, initial, step, run,
}

pub record IsSynced (s : TailState) : Type 0 where
  pub same : s.following_ref ≡ s.following
  none_pending : s.following ≡ true → s.pending_count ≡ 0
  bounded : s.pending_count ≤ length s.rows

step-IsSynced : (e : TailEvent) {s : TailState} → IsSynced s → IsSynced (step e s)
unfolding step
step-IsSynced (set_following next) h = ground arith
step-IsSynced (set_enabled enabled) h = ground arith
step-IsSynced (message none) h = ground arith
step-IsSynced (message (some row)) {s} h = ground (arith, length-append s.rows (row ∷ []))

run-IsSynced : (es : List TailEvent) {s : TailState} → IsSynced s → IsSynced (run es s)
unfolding run
run-IsSynced [] h = h
run-IsSynced (e ∷ es) h = run-IsSynced es (step-IsSynced e h)

-- After any events, the ref and the state of the follow mode agree, nothing is pending while the
-- view follows, and never more rows are pending than were received.
run-initial-IsSynced : (enabled : Bool) (es : List TailEvent) → IsSynced (run es (initial enabled))
unfolding initial
run-initial-IsSynced enabled es =
    run-IsSynced es (record { same = refl; none_pending = λ h. refl; bounded = omega arith })

-- The rows among the messages, without the malformed ones.
abbrev delivered : List (Option AuditLogRow) → List AuditLogRow
delivered [] = []
delivered (none ∷ ms) = delivered ms
delivered (some row ∷ ms) = row ∷ delivered ms

step-malformed : (s : TailState) → step (message none) s ≡ s
unfolding step
step-malformed s = ground arith

abbrev with_pending : AuditLogRow → TailState → TailState
with_pending row s = record s { rows = s.rows ++ row ∷ []; pending_count = s.pending_count + 1 }

step_paused :
    (row : AuditLogRow) (s : TailState)
    → s.is_open ≡ true
    → s.following_ref ≡ false
    → step (message (some row)) s ≡ with_pending row s
unfolding step
step_paused row s o f = ground arith

run_message :
    (ms : List (Option AuditLogRow)) (s : TailState)
    → s.is_open ≡ true
    → s.following_ref ≡ false
    → ((run (map message ms) s).rows ≡ s.rows ++ delivered ms)
      × ((run (map message ms) s).pending_count ≡ s.pending_count + length (delivered ms))
unfolding run
run_message [] s o f = (sym (append-nil s.rows), omega arith)
run_message (none ∷ ms) s o f = rw (run, step-malformed s) (run_message ms s o f)
run_message (some row ∷ ms) s o f =
    let (rows, pending) = run_message ms (with_pending row s) o f in
    rw (run, step_paused row s o f)
      (rows ∙ append_assoc s.rows (row ∷ []) (delivered ms), omega (arith, pending))

-- While an open stream is paused, its messages append their rows in the order of arrival, and the
-- pending count grows by the number of these rows; malformed messages change nothing.
paused_run :
    (ms : List (Option AuditLogRow)) (s : TailState)
    → IsSynced s
    → s.is_open ≡ true
    → s.following ≡ false
    → ((run (map message ms) s).rows ≡ s.rows ++ delivered ms)
      × ((run (map message ms) s).pending_count ≡ s.pending_count + length (delivered ms))
paused_run ms s h o f = run_message ms s o (h.same ∙ f)
