-- ===== src/Pages/PlatformSecurity/Laws.antt =====
-- The page of the platform does what the page of the dashboard does, and forgets what it showed.
use rust_auth_example.Base.{
  true, false, Option, none, some, List, [], ◌∷◌, ◌++◌, ◌≡◌, refl, ap, arith, Option-cases, is_some,
  ◌⊎◌, inl, inr, Bool-cases,
}
use rust_auth_example.Http.{resolved, rejected}
use rust_auth_example.Pages.Security.{Mode, off, enrolling, on, Security}
use rust_auth_example.Pages.Security as Dashboard
use rust_auth_example.Pages.PlatformSecurity.{
  PlatformSecurity, initial, Event, me_settled, begin_enroll, setup_settled, verify_enable,
  enable_settled, cancel, disable, disable_settled, regenerate, regenerate_settled,
  toggle_regenerating, open_disable, step, run, card, card_of,
}

-- The events of the dashboard's page that an event of this page stands for: its first mode comes
-- from `getMe` in place of the session, and a refresh of the session settles at once.
pub dashboard_events : Option Mode → Event → List Dashboard.Event
dashboard_events none (me_settled (resolved enabled)) = Dashboard.user_known enabled ∷ []
dashboard_events none (me_settled (rejected err)) = Dashboard.user_known false ∷ []
dashboard_events none e = []
dashboard_events (some mode) (me_settled outcome) = []
dashboard_events (some mode) begin_enroll = Dashboard.begin_enroll ∷ []
dashboard_events (some mode) (setup_settled outcome) = Dashboard.setup_settled outcome ∷ []
dashboard_events (some mode) (verify_enable code) = Dashboard.verify_enable code ∷ []
dashboard_events (some mode) (enable_settled outcome) =
    Dashboard.enable_settled outcome ∷ Dashboard.refresh_settled (resolved tt) ∷ []
dashboard_events (some mode) cancel = Dashboard.cancel ∷ []
dashboard_events (some mode) (disable code) = Dashboard.disable code ∷ []
dashboard_events (some mode) (disable_settled outcome) =
    Dashboard.disable_settled outcome ∷ Dashboard.refresh_settled (resolved tt) ∷ []
dashboard_events (some mode) (regenerate code) = Dashboard.regenerate code ∷ []
dashboard_events (some mode) (regenerate_settled outcome) =
    Dashboard.regenerate_settled outcome ∷ []
dashboard_events (some mode) toggle_regenerating = Dashboard.toggle_regenerating ∷ []
dashboard_events (some mode) (open_disable next) = Dashboard.open_disable next ∷ []

pub replay : List Event → PlatformSecurity → List Dashboard.Event
unfolding dashboard_events
replay [] p = []
replay (e ∷ es) p = dashboard_events p.mode e ++ replay es (step e p)

-- The two pages show the same and wait for the same calls. A setup need only agree while it is shown.
pub record Agrees (p : PlatformSecurity) (s : Security) : Type 0 where
  mode_agrees : p.mode ≡ s.mode
  setup_agrees : p.mode ≡ some enrolling → p.setup ≡ s.setup
  busy_agrees : p.busy ≡ s.busy
  disable_open_agrees : p.disable_open ≡ s.disable_open
  regenerating_agrees : p.regenerating ≡ s.regenerating
  new_codes_agree : p.new_codes ≡ s.new_codes
  setups_agree : p.setups ≡ s.setups
  enables_agree : p.enables ≡ s.enables
  disables_agree : p.disables ≡ s.disables
  regenerations_agree : p.regenerations ≡ s.regenerations
  no_refresh : s.refreshes ≡ 0

step-Agrees :
    (e : Event) (p : PlatformSecurity) (s : Security)
    → Agrees p s
    → Agrees (step e p) (Dashboard.run (dashboard_events p.mode e) s)
unfolding step dashboard_events Dashboard.run Dashboard.step
step-Agrees (me_settled (resolved enabled)) p s h = ground arith
step-Agrees (me_settled (rejected err)) p s h = ground arith
step-Agrees begin_enroll p s h = ground arith
step-Agrees (setup_settled (resolved r)) p s h = ground arith
step-Agrees (setup_settled (rejected err)) p s h = ground arith
step-Agrees (verify_enable code) p s h = ground arith
step-Agrees (enable_settled (resolved tt)) p s h = ground arith
step-Agrees (enable_settled (rejected err)) p s h = ground arith
step-Agrees cancel p s h = ground arith
step-Agrees (disable code) p s h = ground arith
step-Agrees (disable_settled (resolved tt)) p s h = ground arith
step-Agrees (disable_settled (rejected err)) p s h = ground arith
step-Agrees (regenerate code) p s h = ground arith
step-Agrees (regenerate_settled (resolved codes)) p s h = ground arith
step-Agrees (regenerate_settled (rejected err)) p s h = ground arith
step-Agrees toggle_regenerating p s h = ground arith
step-Agrees (open_disable next) p s h = ground arith

dashboard_run-append :
    (ds es : List Dashboard.Event) (s : Security)
    → Dashboard.run (ds ++ es) s ≡ Dashboard.run es (Dashboard.run ds s)
unfolding Dashboard.run
dashboard_run-append [] es s = refl
dashboard_run-append (d ∷ ds) es s = dashboard_run-append ds es (Dashboard.step d s)

run-Agrees :
    (es : List Event) (p : PlatformSecurity) (s : Security)
    → Agrees p s
    → Agrees (run es p) (Dashboard.run (replay es p) s)
unfolding run replay Dashboard.run
run-Agrees [] p s h = h
run-Agrees (e ∷ es) p s h =
    rw (dashboard_run-append (dashboard_events p.mode e) (replay es (step e p)) s)
      (run-Agrees es (step e p) (Dashboard.run (dashboard_events p.mode e) s) (step-Agrees e p s h))

card_of-Agrees :
    (mode : Mode) (p : PlatformSecurity) (s : Security)
    → p.mode ≡ some mode
    → Agrees p s
    → card_of mode p ≡ Dashboard.card_of mode s
unfolding card_of Dashboard.card_of
card_of-Agrees off p s k h = ap Dashboard.Card.off_card h.busy_agrees
card_of-Agrees enrolling p s k h = rw (h.setup_agrees k) refl
card_of-Agrees on p s k h =
    rw (h.disable_open_agrees, h.regenerating_agrees, h.new_codes_agree) refl

card-Agrees : (p : PlatformSecurity) (s : Security) → Agrees p s → card p ≡ Dashboard.card false s
unfolding card Dashboard.card
card-Agrees p s h = elim (Option-cases p.mode) [
  | inl unknown ↦ ground arith
  | inr (mode, known) ↦ ground (arith, card_of-Agrees mode p s known h)
]

-- The page of the platform refines the page of the dashboard: over any events it renders the card
-- that the dashboard's page renders over the events that these stand for, and has as many setups,
-- enablings, disablings and regenerations in flight.
pub run_refines :
    (es : List Event)
    → (card (run es initial)
        ≡ Dashboard.card false (Dashboard.run (replay es initial) Dashboard.initial))
      × ((run es initial).setups ≡ (Dashboard.run (replay es initial) Dashboard.initial).setups)
      × ((run es initial).enables ≡ (Dashboard.run (replay es initial) Dashboard.initial).enables)
      × ((run es initial).disables ≡ (Dashboard.run (replay es initial) Dashboard.initial).disables)
      × ((run es initial).regenerations
          ≡ (Dashboard.run (replay es initial) Dashboard.initial).regenerations)
unfolding initial Dashboard.initial
run_refines es =
    let agreed : Agrees (run es initial) (Dashboard.run (replay es initial) Dashboard.initial) =
      run-Agrees es initial Dashboard.initial (ground arith) in
    (
      card-Agrees (run es initial) (Dashboard.run (replay es initial) Dashboard.initial) agreed,
      agreed.setups_agree,
      agreed.enables_agree,
      agreed.disables_agree,
      agreed.regenerations_agree,
    )

-- A setup is held only while the page is enrolling.
abbrev Forgets : PlatformSecurity → Type 0
Forgets p = is_some p.setup ≡ true → p.mode ≡ some enrolling

step-Forgets :
    (e : Event) (p : PlatformSecurity)
    → Forgets p
    → Forgets (step e p) ⊎ ((e ≡ disable_settled (resolved tt)) × (p.mode ≡ some enrolling))
unfolding step
step-Forgets (me_settled (resolved enabled)) p h = inl (λ k. ground arith)
step-Forgets (me_settled (rejected err)) p h = inl (λ k. ground arith)
step-Forgets begin_enroll p h = inl (λ k. ground arith)
step-Forgets (setup_settled (resolved r)) p h = inl (λ k. ground arith)
step-Forgets (setup_settled (rejected err)) p h = inl (λ k. ground arith)
step-Forgets (verify_enable code) p h = inl (λ k. ground arith)
step-Forgets (enable_settled (resolved tt)) p h = inl (λ k. ground arith)
step-Forgets (enable_settled (rejected err)) p h = inl (λ k. ground arith)
step-Forgets cancel p h = inl (λ k. ground arith)
step-Forgets (disable code) p h = inl (λ k. ground arith)
step-Forgets (disable_settled (resolved tt)) p h = elim (Bool-cases (is_some p.setup)) [
  | inl held ↦ inr (refl, h held)
  | inr free ↦ inl (λ k. ground arith)
]
step-Forgets (disable_settled (rejected err)) p h = inl (λ k. ground arith)
step-Forgets (regenerate code) p h = inl (λ k. ground arith)
step-Forgets (regenerate_settled (resolved codes)) p h = inl (λ k. ground arith)
step-Forgets (regenerate_settled (rejected err)) p h = inl (λ k. ground arith)
step-Forgets toggle_regenerating p h = inl (λ k. ground arith)
step-Forgets (open_disable next) p h = inl (λ k. ground arith)

-- A disabling that had been in flight succeeds while the page is enrolling.
pub DisabledWhileEnrolling : List Event → PlatformSecurity → Type 0
unfolding run
DisabledWhileEnrolling es p =
    (before : List Event) × (after : List Event) × (es
      ≡ before ++ (disable_settled (resolved tt) ∷ after))
    × ((run before p).mode ≡ some enrolling)

run-Forgets_from :
    (es : List Event) (p : PlatformSecurity)
    → Forgets p
    → Forgets (run es p) ⊎ DisabledWhileEnrolling es p
unfolding run DisabledWhileEnrolling
run-Forgets_from [] p h = inl h
run-Forgets_from (e ∷ es) p h = elim (step-Forgets e p h) [
  | inr (late, enrols) ↦ inr ([], es, ap (λ (d : Event). d ∷ es) late, enrols)
  | inl kept ↦ elim (run-Forgets_from es (step e p) kept) [
    | inl forgets ↦ inl forgets
    | inr (before, after, same, enrols) ↦
        inr (e ∷ before, after, ap (λ (ds : List Event). e ∷ ds) same, enrols)
  ]
]

-- Over any events, if the page holds the secret and the recovery codes of a setup, then it is
-- enrolling and so shows them, or a disabling that was in flight succeeded while it was enrolling:
-- cancelling and enabling forget them.
pub run_forgets :
    (es : List Event)
    → is_some (run es initial).setup ≡ true
    → ((run es initial).mode ≡ some enrolling) ⊎ DisabledWhileEnrolling es initial
unfolding initial
run_forgets es held = elim (run-Forgets_from es initial (λ k. ground arith)) [
  | inl forgets ↦ inl (forgets held)
  | inr late ↦ inr late
]
