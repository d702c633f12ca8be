-- ===== src/Pages/Oauth/Laws.antt =====
-- Which callbacks have a trace.
use rust_auth_example.Base.{
  true, ◌||◌, String, Option, none, some, List, [], ◌∷◌, ◌≡◌, ◌↔◌, inl, inr, refl, sym, ap, arith,
  has, has-every, every, str_eq, eq_iff, Bool-cases, is_some,
}
use mathlib.Core.List.{Memᴰ}
use rust_auth_example.Pages.Oauth.{
  CallbackTrace, decisions, branches, decision_labels, branch_labels, parse_callback_trace,
  decision_trace, label_in,
}

has_iff : (ks : List String) (key : String) → (has ks key ≡ true) ↔ Memᴰ key ks
unfolding has
has_iff [] key = (λ h. cc, λ m. elim m [ ])
has_iff (k ∷ ks) key = (to (has_iff ks key).0, from (has_iff ks key).1)
  where
    to : (has ks key ≡ true → Memᴰ key ks) → str_eq k key || has ks key ≡ true → Memᴰ key (k ∷ ks)
    to ih h = elim (Bool-cases (str_eq k key)) [
      | inl same ↦ Memᴰ.head (sym ((eq_iff k key).0 same))
      | inr other ↦ Memᴰ.tail (ih (rw other at h))
    ]

    from : (Memᴰ key ks → has ks key ≡ true) → Memᴰ key (k ∷ ks) → str_eq k key || has ks key ≡ true
    from ih (Memᴰ.head same) = rw ((eq_iff k key).1 (sym same)) refl
    from ih (Memᴰ.tail m) = ground (arith, ih m)

labels_known :
    (every (λ d. is_some (label_in decision_labels d)) decisions ≡ true)
    × (every (λ b. is_some (label_in branch_labels b)) branches ≡ true)
unfolding label_in
labels_known = (refl, refl)

known_trace :
    (d b : String) (trace : CallbackTrace)
    → parse_callback_trace (some d) (some b) ≡ some trace
    → (d ≡ trace.decision) × (b ≡ trace.branch) × (has decisions d ≡ true) × (has branches b ≡ true)
unfolding parse_callback_trace
known_trace d b trace e = (ground arith, ground arith, ground arith, ground arith)

made_trace :
    (d b : String)
    → has decisions d ≡ true
    → has branches b ≡ true
    → parse_callback_trace (some d) (some b) ≡ some (record { decision = d; branch = b })
unfolding parse_callback_trace
made_trace d b p q = ground arith

-- A callback has a trace exactly if its `decision` is one of the two decisions and its `branch` one of
-- the three branches, and then the trace is of these.
pub parse_callback_trace_iff :
    (decision branch : Option String) (trace : CallbackTrace)
    → (parse_callback_trace decision branch ≡ some trace) ↔ (
        (decision ≡ some trace.decision)
        × (branch ≡ some trace.branch)
        × Memᴰ trace.decision decisions
        × Memᴰ trace.branch branches)
unfolding parse_callback_trace
parse_callback_trace_iff none branch trace = (λ e. cc, λ w. cc (w.0))
parse_callback_trace_iff (some d) none trace = (λ e. cc, λ w. cc (w.1))
parse_callback_trace_iff (some d) (some b) trace = (
  λ e.
      (let (x, y, p, q) = known_trace d b trace e in
        (
          ap some x,
          ap some y,
          (has_iff decisions trace.decision).0 (rw x at p),
          (has_iff branches trace.branch).0 (rw y at q),
        )),
  λ w.
      (let x : d ≡ trace.decision = ground arith in
        let y : b ≡ trace.branch = ground arith in
        rw (x, y)
          (made_trace trace.decision trace.branch ((has_iff decisions trace.decision).1 w.2)
            ((has_iff branches trace.branch).1 w.3))),
)

trace_labels :
    (trace : CallbackTrace)
    → has decisions trace.decision ≡ true
    → has branches trace.branch ≡ true
    → (is_some (decision_trace trace).0 ≡ true) × (is_some (decision_trace trace).1 ≡ true)
unfolding decision_trace
trace_labels trace d b = (
  has-every (λ t. is_some (label_in decision_labels t)) decisions trace.decision d labels_known.0,
  has-every (λ t. is_some (label_in branch_labels t)) branches trace.branch b labels_known.1,
)

-- Whatever the address of the page says, both texts of the trace that the panel shows are there: no
-- label is looked up that the tables lack.
trace_of_labelled :
    (decision branch : Option String) (trace : CallbackTrace)
    → parse_callback_trace decision branch ≡ some trace
    → (is_some (decision_trace trace).0 ≡ true) × (is_some (decision_trace trace).1 ≡ true)
trace_of_labelled decision branch trace e =
    let w = (parse_callback_trace_iff decision branch trace).0 e in
    trace_labels trace ((has_iff decisions trace.decision).1 w.2)
      ((has_iff branches trace.branch).1 w.3)
