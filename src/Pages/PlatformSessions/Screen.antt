-- ===== src/Pages/PlatformSessions/Screen.antt =====
-- What the page of the platform's sessions renders.
use mathlib.Core.Option.{some-injective}
use rust_auth_example.Base.{
  Bool, true, false, String, Option, none, some, List, ◌≡◌, ◌⊎◌, inl, inr, sym, ap, arith,
  Bool-cases, if◌then◌else◌,
}
use rust_auth_example.Json.{Json}
use rust_auth_example.Pages.PlatformSessions.{
  PlatformSessions, LoadState, loading, error, ready, Event, revoke_all, on_revoke_all, initial,
  step, run,
}
use rust_auth_example.Pages.PlatformSessions.Laws.{run-initial-IsSingle}

-- The part of the page below its header; `button` opens the dialog, whose action is `action`, and
-- both are disabled alike.
pub data Panel : Type 0 where
  skeleton load_failed : Panel
  admin : (me : Json) → (button action : String) → (is_disabled : Bool) → Panel

unfoldable pub panel_of : LoadState → Bool → Panel
panel_of loading revoking = skeleton
panel_of error revoking = load_failed
panel_of (ready me) revoking =
    admin me (if revoking then "Revoking…" else "Revoke all sessions")
      (if revoking then "Revoking…" else "Revoke all") revoking

-- The banner of the error, and the panel
unfoldable pub screen : PlatformSessions → Option String × Panel
unfolding panel_of
screen s = (s.error_code, panel_of s.state s.revoking)

disabled_in : Panel → Option Bool
disabled_in (admin me button action is_disabled) = some is_disabled
disabled_in other = none

panel-revoking :
    (state : LoadState) (revoking : Bool) (me : Json) (button action : String) (is_disabled : Bool)
    → panel_of state revoking ≡ admin me button action is_disabled
    → is_disabled ≡ revoking
unfolding panel_of disabled_in
panel-revoking loading revoking me button action is_disabled h = cc
panel-revoking error revoking me button action is_disabled h = cc
panel-revoking (ready you) revoking me button action is_disabled h =
    sym (some-injective revoking is_disabled (ap disabled_in h))

-- A click while no revocation is in flight starts one.
revoke_all-starts :
    (s : PlatformSessions)
    → s.revocations ≡ (if s.revoking then 1 else 0)
    → ((s.revoking ≡ true) × (s.revocations ≡ 1))
      ⊎ ((s.revoking ≡ false) × (s.revocations ≡ 0) × ((step revoke_all s).revocations ≡ 1))
unfolding step on_revoke_all
revoke_all-starts s h = elim (Bool-cases s.revoking) [
  | inl is_on ↦ inl (is_on, ground arith)
  | inr is_off ↦ inr (is_off, ground arith, ground arith)
]

-- After any events, the buttons of a shown admin are disabled exactly while one revocation is in
-- flight; otherwise none is, and a click starts one.
pub run-screen_disabled :
    (es : List Event) (me : Json) (button action : String) (is_disabled : Bool)
    → (screen (run es initial)).1 ≡ admin me button action is_disabled
    → ((is_disabled ≡ true) × ((run es initial).revocations ≡ 1))
      ⊎ ((is_disabled ≡ false)
          × ((run es initial).revocations ≡ 0)
          × ((step revoke_all (run es initial)).revocations ≡ 1))
unfolding screen
run-screen_disabled es me button action is_disabled h =
    let s = run es initial in
    let starts = revoke_all-starts s (run-initial-IsSingle es) in
    rw (panel-revoking s.state s.revoking me button action is_disabled h) starts
