-- ===== src/Alerts/Laws.antt =====
-- No socket outlives its run of the effect.
use rust_auth_example.Base.{
  ℕ, zero, suc, ◌+◌, ◌≤◌, true, false, String, List, [], ◌∷◌, map, ◌≡◌, refl, arith, All,
  if◌then◌else◌,
}
use rust_auth_example.Http.{Outcome, resolved, rejected}
use rust_auth_example.Alerts.{
  Connection, Alerts, mount, Event, rerun, unmount, ticket_settled, message, close, clean_up,
  on_ticket, settle_at, is_open, step, run,
}

-- How many sockets are opened
abbrev pub open_count : List Connection → ℕ
open_count [] = 0
open_count (c ∷ cs) = (if is_open c.phase then 1 else 0) + open_count cs

abbrev live_count : List Connection → ℕ
live_count [] = 0
live_count (c ∷ cs) = (if c.cancelled then 0 else 1) + live_count cs

-- An open socket belongs to a run that is not cancelled, and one run is not, while it is mounted.
record IsOwned (s : Alerts) : Type 0 where
  owned : All (λ (c : Connection). is_open c.phase ≡ true → c.cancelled ≡ false) s.connections
  live : live_count s.connections ≤ (if s.is_mounted then 1 else 0)

abbrev AllOwned : List Connection → Type 0
AllOwned cs = All (λ (c : Connection). is_open c.phase ≡ true → c.cancelled ≡ false) cs

clean_up-owned : (cs : List Connection) → AllOwned (map clean_up cs)
unfolding clean_up close is_open
clean_up-owned [] = tt
clean_up-owned (c ∷ cs) = (λ k. ground arith, clean_up-owned cs)

clean_up-live : (cs : List Connection) → live_count (map clean_up cs) ≡ 0
unfolding clean_up
clean_up-live [] = refl
clean_up-live (c ∷ cs) = omega (arith, clean_up-live cs)

on_ticket-owned :
    (outcome : Outcome String) (c : Connection)
    → (is_open c.phase ≡ true → c.cancelled ≡ false)
    → is_open (on_ticket outcome c).phase ≡ true
    → (on_ticket outcome c).cancelled ≡ false
unfolding on_ticket is_open
on_ticket-owned (resolved ticket) c h k = ground arith
on_ticket-owned (rejected err) c h k = ground arith

settle_at-owned :
    (index : ℕ) (outcome : Outcome String) (cs : List Connection)
    → AllOwned cs
    → AllOwned (settle_at index outcome cs)
unfolding settle_at
settle_at-owned index outcome [] h = tt
settle_at-owned zero outcome (c ∷ cs) h = (on_ticket-owned outcome c h.0, h.1)
settle_at-owned (suc index) outcome (c ∷ cs) h = (h.0, settle_at-owned index outcome cs h.1)

settle_at-live :
    (index : ℕ) (outcome : Outcome String) (cs : List Connection)
    → live_count (settle_at index outcome cs) ≡ live_count cs
unfolding settle_at on_ticket
settle_at-live index outcome [] = refl
settle_at-live zero (resolved ticket) (c ∷ cs) = refl
settle_at-live zero (rejected err) (c ∷ cs) = refl
settle_at-live (suc index) outcome (c ∷ cs) = omega (arith, settle_at-live index outcome cs)

step-IsOwned : (e : Event) (s : Alerts) → IsOwned s → IsOwned (step e s)
unfolding step is_open
step-IsOwned rerun s h = ground (arith, clean_up-owned s.connections, clean_up-live s.connections)
step-IsOwned unmount s h = record {
  owned = clean_up-owned s.connections;
  live = omega (arith, clean_up-live s.connections);
}
step-IsOwned (ticket_settled index outcome) s h = record {
  owned = settle_at-owned index outcome s.connections h.owned;
  live = ground (arith, settle_at-live index outcome s.connections, h.live);
}
step-IsOwned (message index frame) s h = ground arith

run-IsOwned : (es : List Event) (s : Alerts) → IsOwned s → IsOwned (run es s)
unfolding run
run-IsOwned [] s h = h
run-IsOwned (e ∷ es) s h = run-IsOwned es (step e s) (step-IsOwned e s h)

open_live : (cs : List Connection) → AllOwned cs → open_count cs ≤ live_count cs
open_live [] h = omega arith
open_live (c ∷ cs) h = ground (arith, h.0, open_live cs h.1)

-- Over any renders, tickets and messages in any order, at most one socket is open while the component
-- is mounted and none afterwards, also if a ticket arrives only after the cleanup.
pub run-mount_open :
    (es : List Event)
    → open_count (run es mount).connections ≤ (if (run es mount).is_mounted then 1 else 0)
unfolding mount is_open
run-mount_open es =
    let h : IsOwned (run es mount) =
      run-IsOwned es mount (record { owned = (λ k. refl, tt); live = omega arith }) in
    ground (arith, h.live, open_live (run es mount).connections h.owned)
