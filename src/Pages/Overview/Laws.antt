-- ===== src/Pages/Overview/Laws.antt =====
-- The overview never waits for nothing.
use rust_auth_example.Base.{◌<◌, List, [], ◌∷◌, ◌≡◌, ◌≢◌, refl, arith}
use rust_auth_example.Json.{Json}
use rust_auth_example.Http.{Outcome, resolved, rejected}
use rust_auth_example.Pages.Overview.{
  loading_session, unauthenticated, authenticated, LoadState, loading, error, ready, Overview,
  initial, Event, status_changed, retry, load_settled, step, run, skeleton, screen, screen_of,
}

-- While an authenticated visitor sees the skeleton, a load is in flight.
abbrev IsWaiting : Overview → Type 0
IsWaiting s = s.status ≡ authenticated → s.state ≡ loading → 0 < s.loads

step-IsWaiting : (e : Event) (s : Overview) → IsWaiting s → IsWaiting (step e s)
unfolding step
step-IsWaiting (status_changed loading_session) s h = λ a l. ground arith
step-IsWaiting (status_changed unauthenticated) s h = λ a l. ground arith
step-IsWaiting (status_changed authenticated) s h = λ a l. ground arith
step-IsWaiting retry s h = λ a l. ground arith
step-IsWaiting (load_settled (resolved x)) s h = λ a l. ground arith
step-IsWaiting (load_settled (rejected x)) s h = λ a l. ground arith

run-IsWaiting : (es : List Event) (s : Overview) → IsWaiting s → IsWaiting (run es s)
unfolding run
run-IsWaiting [] s h = h
run-IsWaiting (e ∷ es) s h = run-IsWaiting es (step e s) (step-IsWaiting e s h)

skeleton_loading : (state : LoadState) → screen_of authenticated state ≡ skeleton → state ≡ loading
unfolding screen_of
skeleton_loading loading k = refl
skeleton_loading error k = cc
skeleton_loading (ready aggregate) k = cc

settled_shows :
    (outcome : Outcome Json) (s : Overview)
    → s.status ≡ authenticated
    → 0 < s.loads
    → screen (step (load_settled outcome) s) ≢ skeleton
unfolding step screen
settled_shows (resolved aggregate) s a p = λ k. ground arith
settled_shows (rejected err) s a p = λ k. ground arith

-- Over any changes of the session, retries and answers, an authenticated visitor who sees the skeleton
-- has a load in flight, and whatever it settles with takes the skeleton away.
pub run-initial_waits :
    (es : List Event) (outcome : Outcome Json)
    → (run es initial).status ≡ authenticated
    → screen (run es initial) ≡ skeleton
    → (0 < (run es initial).loads)
      × (screen (step (load_settled outcome) (run es initial)) ≢ skeleton)
unfolding initial screen
run-initial_waits es outcome a k =
    let state_loading : (run es initial).state ≡ loading =
      skeleton_loading (run es initial).state (rw a at k) in
    let waits : 0 < (run es initial).loads =
      run-IsWaiting es initial (λ u v. ground arith) a state_loading in
    (waits, settled_shows outcome (run es initial) a waits)
