-- ===== src/Trigger/Card/Laws.antt =====
-- A fired card leads to its rows, and the countdown of a card.
use rust_auth_example.Base.{
  ℕ, zero, suc, ◌-◌, true, false, ◌==◌, String, Option, none, some, List, [], ◌∷◌, ◌≡◌, ◌↔◌, ◌⊎◌,
  inl, inr, refl, sym, arith, ◌∙◌, subst, Bool-cases,
}
use mathlib.Core.List.{Memᴰ}
use mathlib.Core.Option.{some-injective}
use rust_auth_example.Http.{Outcome, resolved, rejected, Failure}
use rust_auth_example.Audit.{AuditLogRow}
use rust_auth_example.Audit.Facets.{Admits}
use rust_auth_example.Audit.Page.{AuditPage, Facets, table_rows, pivot_to}
use rust_auth_example.Audit.Page.Laws.{mem-table_rows_iff}
use rust_auth_example.Trigger.{TriggerResult}
use rust_auth_example.Trigger.Card.{
  Card, register_card, login_card, force_mfa_card, rotate_card, hammer_card, lockout_card,
  verify_email_card, password_reset_card, provoke_card, index_of, is_same, event_of, Firing,
  TriggerCenter, initial, Event, type_email, fire, settled, update, get_firing, without, on_settled,
  on_fire, step, run, tick, countdown,
}
use rust_auth_example.Trigger.Card.Single.{count, run-initial_count}

countdown_lem : (seconds ticks : ℕ) → countdown seconds ticks ≡ seconds - ticks
unfolding countdown tick
countdown_lem seconds zero = omega arith
countdown_lem seconds (suc ticks) = ground (arith, countdown_lem seconds ticks)

-- The rows of the audit page behind the pivot of a firing, and its card
settled-pivot :
    (index : ℕ) (f : Firing) (result : TriggerResult) (s : TriggerCenter) (row : AuditLogRow)
    (p : AuditPage)
    → get_firing s.firings index ≡ some f
    → p.facets ≡ (step (settled index (resolved result)) s).facets
    → (Memᴰ row (table_rows p) ↔ (
        (Memᴰ row p.page_rows ⊎ Memᴰ row p.tail.rows)
        × (row.actor ≡ f.email)
        × Admits (event_of f.card) row.event))
      × ((step (settled index (resolved result)) s).cards f.card
          ≡ record { result = some result; pending = false })
unfolding step on_settled pivot_to update is_same
settled-pivot index f result s row p k e =
    let same : (index_of f.card == index_of f.card) ≡ true = ground arith in
    let pivoted : p.facets ≡ record { actor = some f.email; event = event_of f.card } =
      e ∙ rw k refl in
    (
      subst
          (λ (facets : Facets). Memᴰ row (table_rows p) ↔ (
            (Memᴰ row p.page_rows ⊎ Memᴰ row p.tail.rows)
            × Admits facets.actor row.actor
            × Admits facets.event row.event))
          pivoted (mem-table_rows_iff row p),
      rw (k, same) refl,
    )

-- A rejected action leaves the facets and the card's last result, and enables the card.
settled_rejected :
    (index : ℕ) (f : Firing) (err : Failure) (s : TriggerCenter)
    → get_firing s.firings index ≡ some f
    → ((step (settled index (rejected err)) s).facets ≡ s.facets)
      × ((step (settled index (rejected err)) s).cards f.card
          ≡ record (s.cards f.card) { pending = false })
unfolding step on_settled update is_same
settled_rejected index f err s k =
    let same : (index_of f.card == index_of f.card) ≡ true = ground arith in
    (rw k refl, rw (k, same) refl)

-- Only a registration and a login are audited: their rows are those of the event that the API writes.
abbrev pub IsAudited : Card → AuditLogRow → Type 0
IsAudited c row =
    (c ≡ register_card → row.event ≡ "after_register")
    × (c ≡ login_card → row.event ≡ "after_login")

Admits-IsAudited : (c : Card) (row : AuditLogRow) → Admits (event_of c) row.event ↔ IsAudited c row
unfolding event_of
Admits-IsAudited register_card row = (λ h. (λ _. h, λ e. cc), λ w. w.0 refl)
Admits-IsAudited login_card row = (λ h. (λ e. cc, λ _. h), λ w. w.1 refl)
Admits-IsAudited force_mfa_card row = (λ h. (λ e. cc, λ e. cc), λ w. tt)
Admits-IsAudited rotate_card row = (λ h. (λ e. cc, λ e. cc), λ w. tt)
Admits-IsAudited hammer_card row = (λ h. (λ e. cc, λ e. cc), λ w. tt)
Admits-IsAudited lockout_card row = (λ h. (λ e. cc, λ e. cc), λ w. tt)
Admits-IsAudited verify_email_card row = (λ h. (λ e. cc, λ e. cc), λ w. tt)
Admits-IsAudited password_reset_card row = (λ h. (λ e. cc, λ e. cc), λ w. tt)
Admits-IsAudited provoke_card row = (λ h. (λ e. cc, λ e. cc), λ w. tt)

-- The card says "Firing…" before each of the events.
abbrev pub StaysPending : Card → List Event → TriggerCenter → Type 0
StaysPending c [] s = Unit
StaysPending c (e ∷ es) s = ((s.cards c).pending ≡ true) × StaysPending c es (step e s)

-- The actions of a card that are in flight were fired with this email.
abbrev AreFrom : Card → String → List Firing → Type 0
AreFrom c email [] = Unit
AreFrom c email (f ∷ fs) = (f.card ≡ c → f.email ≡ email) × AreFrom c email fs

is_same_refl : (c : Card) → is_same c c ≡ true
unfolding is_same
is_same_refl c = ground arith

none-AreFrom : (c : Card) (email : String) (fs : List Firing) → count c fs ≡ 0 → AreFrom c email fs
none-AreFrom c email [] h = tt
none-AreFrom c email (f ∷ fs) h = (
  λ same.
      let here : is_same f.card c ≡ true =
        subst (λ d. is_same d c ≡ true) (sym same) (is_same_refl c) in
      absurd (ground arith),
  none-AreFrom c email fs (omega arith),
)

without-AreFrom :
    (c : Card) (email : String) (index : ℕ) (fs : List Firing)
    → AreFrom c email fs
    → AreFrom c email (without index fs)
unfolding without
without-AreFrom c email index [] h = tt
without-AreFrom c email zero (f ∷ fs) h = h.1
without-AreFrom c email (suc index) (f ∷ fs) h = (h.0, without-AreFrom c email index fs h.1)

get_firing-AreFrom :
    (c : Card) (email : String) (index : ℕ) (fs : List Firing) (f : Firing)
    → AreFrom c email fs
    → get_firing fs index ≡ some f
    → f.card ≡ c
    → f.email ≡ email
unfolding get_firing
get_firing-AreFrom c email index [] f h k same = cc
get_firing-AreFrom c email zero (g ∷ fs) f h k same =
    subst (λ (x : Firing). x.card ≡ c → x.email ≡ email) (some-injective g f k) h.0 same
get_firing-AreFrom c email (suc index) (g ∷ fs) f h k same =
    get_firing-AreFrom c email index fs f h.1 k same

on_settled-firings :
    (outcome : Outcome TriggerResult) (f : Option Firing) (s : TriggerCenter)
    → (on_settled outcome f s).firings ≡ s.firings
unfolding on_settled
on_settled-firings outcome none s = refl
on_settled-firings (resolved result) (some f) s = refl
on_settled-firings (rejected err) (some f) s = refl

step-AreFrom :
    (c : Card) (email : String) (e : Event) (s : TriggerCenter)
    → (s.cards c).pending ≡ true
    → AreFrom c email s.firings
    → AreFrom c email (step e s).firings
unfolding step on_fire
step-AreFrom c email (type_email text) s busy h = h
step-AreFrom c email (fire d) s busy h = elim (Bool-cases (s.cards d).pending) [
  | inl other ↦ rw other h
  | inr free ↦ rw free (λ same. cc (subst (λ (x : Card). (s.cards x).pending ≡ false) same free), h)
]
step-AreFrom c email (settled index outcome) s busy h =
    subst (AreFrom c email)
      (sym (
        on_settled-firings outcome (get_firing s.firings index)
          (record s { firings = without index s.firings })))
      (without-AreFrom c email index s.firings h)

run-AreFrom :
    (c : Card) (email : String) (es : List Event) (s : TriggerCenter)
    → StaysPending c es s
    → AreFrom c email s.firings
    → AreFrom c email (run es s).firings
unfolding run
run-AreFrom c email [] s w h = h
run-AreFrom c email (e ∷ es) s w h =
    run-AreFrom c email es (step e s) w.1 (step-AreFrom c email e s w.0 h)

fired-AreFrom :
    (facets : Facets) (before : List Event) (c : Card)
    → ((run before (initial facets)).cards c).pending ≡ false
    → AreFrom c
        (run before (initial facets)).email
        (step (fire c) (run before (initial facets))).firings
unfolding step on_fire
fired-AreFrom facets before c free =
    let s = run before (initial facets) in
    let single = run-initial_count facets before c in
    rw free (λ _. refl, none-AreFrom c s.email s.firings (rw free at single))

-- A card that is not pending, in a state that any events led to, is fired, and while it is pending
-- anything is typed, fired or settled. When its action resolves, an audit page that opens on the
-- facets of the URL lists, of the rows it loads, exactly those of the email that stood in the form
-- when the card was fired and, if the card is the one that registers or the one that logs in, of the
-- event `after_register` or `after_login`. The card shows the result and can be fired again.
pub settled_pivots :
    (facets : Facets) (before : List Event) (c : Card) (meanwhile : List Event) (index : ℕ)
    (f : Firing) (result : TriggerResult) (row : AuditLogRow) (p : AuditPage)
    → ((run before (initial facets)).cards c).pending ≡ false
    → StaysPending c meanwhile (step (fire c) (run before (initial facets)))
    → get_firing (run meanwhile (step (fire c) (run before (initial facets)))).firings index
      ≡ some f
    → f.card ≡ c
    → p.facets
      ≡ (step
          (settled index (resolved result))
          (run meanwhile (step (fire c) (run before (initial facets))))).facets
    → (Memᴰ row (table_rows p) ↔ (
        (Memᴰ row p.page_rows ⊎ Memᴰ row p.tail.rows)
        × (row.actor ≡ (run before (initial facets)).email)
        × IsAudited c row))
      × ((step
              (settled index (resolved result))
              (run meanwhile (step (fire c) (run before (initial facets))))).cards
            c
          ≡ record { result = some result; pending = false })
settled_pivots facets before c meanwhile index f result row p free busy k same e =
    let s = run before (initial facets) in
    let now = run meanwhile (step (fire c) s) in
    let email : f.email ≡ s.email =
      get_firing-AreFrom c s.email index now.firings f
        (run-AreFrom c s.email meanwhile (step (fire c) s) busy
          (fired-AreFrom facets before c free))
        k same in
    let ((to, from), shown) = settled-pivot index f result now row p k e in
    let (audited, admitted) = Admits-IsAudited f.card row in
    (
      (
        λ m.
            let (loaded, actor, event) = to m in
            (loaded, actor ∙ email, subst (λ d. IsAudited d row) same (audited event)),
        λ (loaded, actor, w).
            from (loaded, actor ∙ sym email, admitted (subst (λ d. IsAudited d row) (sym same) w)),
      ),
      subst
          (λ d.
            (step (settled index (resolved result)) now).cards d
            ≡ record { result = some result; pending = false })
          same shown,
    )
