-- ===== src/Trigger/Card/Wiring/Laws.antt =====
-- No card shows a secret, in whatever order the cards are fired and answered.
use mathlib.Core.Option.{some-injective, some-ne-none}
use rust_auth_example.Base.{
  ℕ, String, Option, none, some, List, [], ◌∷◌, ◌≡◌, sym, subst, ap, inl, inr, Bool-cases,
}
use rust_auth_example.Json.{Number}
use rust_auth_example.Http.{Outcome, resolved, rejected}
use rust_auth_example.Audit.Page.{Facets}
use rust_auth_example.Trigger.{TriggerResult}
use rust_auth_example.Trigger.Laws.{
  HidesSecrets, client_actions-HidesSecrets, fetch_actions-HidesSecrets,
}
use rust_auth_example.Trigger.Card.{
  Card, register_card, login_card, force_mfa_card, rotate_card, hammer_card, lockout_card,
  verify_email_card, password_reset_card, provoke_card, CardState, Firing, TriggerCenter, Event,
  type_email, fire, settled, initial, update, get_firing, on_settled, on_fire, step, run, is_same,
}
use rust_auth_example.Trigger.Card.Wiring.{
  Answers, action, default_attempts, identifier_of, local_part, card_shown,
}

abbrev result_in : Outcome TriggerResult → Option TriggerResult
result_in (resolved r) = some r
result_in (rejected err) = none

result_in-eq :
    (o : Outcome TriggerResult) (r : TriggerResult) → result_in o ≡ some r → o ≡ resolved r
result_in-eq (resolved q) r h = ap resolved (some-injective q r h)
result_in-eq (rejected err) r h = cc

-- What a card would show of an outcome hides the secrets.
abbrev Hides : Option TriggerResult → Type 0
Hides shown = (r : TriggerResult) → shown ≡ some r → HidesSecrets r

some-Hides : (r : TriggerResult) → HidesSecrets r → Hides (some r)
some-Hides r h q same = subst HidesSecrets (some-injective r q same) h

AllHide : (Card → CardState) → Type 0
AllHide cards = (c : Card) → Hides (cards c).result

update-AllHide :
    (c : Card) (next : CardState) (cards : Card → CardState)
    → Hides next.result
    → AllHide cards
    → AllHide (update c next cards)
unfolding update AllHide
update-AllHide c next cards h all d = elim (Bool-cases (is_same c d)) [
  | inl same ↦ rw same h
  | inr other ↦ rw other (all d)
]

on_fire-AllHide : (c : Card) (s : TriggerCenter) → AllHide s.cards → AllHide (on_fire c s).cards
unfolding on_fire AllHide
on_fire-AllHide c s all = elim (Bool-cases (s.cards c).pending) [
  | inl is_on ↦ rw is_on all
  | inr is_off ↦ rw is_off (update-AllHide c _ s.cards (all c) all)
]

on_settled-AllHide :
    (outcome : Outcome TriggerResult) (f : Option Firing) (s : TriggerCenter)
    → Hides (result_in outcome)
    → AllHide s.cards
    → AllHide (on_settled outcome f s).cards
unfolding on_settled AllHide
on_settled-AllHide outcome none s h all = all
on_settled-AllHide (resolved result) (some f) s h all = update-AllHide f.card _ s.cards h all
on_settled-AllHide (rejected err) (some f) s h all =
    update-AllHide f.card _ s.cards (all f.card) all

module _ (number : ℕ → Number) (to_number : String → Number) where
  -- Whatever its calls settle with, what an action of a card returns hides the secrets.
  pub action-Hides :
      (c : Card) (email tenant : String) (a : Answers)
      → Hides (result_in (action number to_number c email tenant a))
  unfolding action
  action-Hides register_card email tenant a =
      some-Hides _ ((client_actions-HidesSecrets email (local_part email) tenant a.client).0)
  action-Hides login_card email tenant a =
      some-Hides _ ((client_actions-HidesSecrets email "" tenant a.client).1)
  action-Hides force_mfa_card email tenant a =
      some-Hides _ ((client_actions-HidesSecrets email "" tenant a.client).1)
  action-Hides rotate_card email tenant a =
      some-Hides _ ((client_actions-HidesSecrets email "" tenant a.client).2)
  action-Hides password_reset_card email tenant a =
      some-Hides _ ((client_actions-HidesSecrets email "" tenant a.client).3)
  action-Hides provoke_card email tenant a =
      some-Hides _ ((client_actions-HidesSecrets email "" tenant a.client).4)
  action-Hides hammer_card email tenant a = λ r h.
      (fetch_actions-HidesSecrets number to_number email tenant "" a.fetched default_attempts
          a.logins).2
        r (result_in-eq _ r h)
  action-Hides lockout_card email tenant a = some-Hides _ (
      (fetch_actions-HidesSecrets number to_number email tenant (identifier_of email tenant)
        a.fetched 0 a.logins).0)
  action-Hides verify_email_card email tenant a =
      some-Hides _
        ((fetch_actions-HidesSecrets number to_number email tenant "" a.fetched 0 a.logins).1)

  -- An answer to a card is what an action of a card returned.
  abbrev pub IsAnswer : Event → Type 0
  IsAnswer (type_email email) = Unit
  IsAnswer (fire c) = Unit
  IsAnswer (settled index outcome) =
      (c : Card) × (email : String) × (tenant : String) × (a : Answers) × (outcome
        ≡ action number to_number c email tenant a)

  abbrev pub AreAnswers : List Event → Type 0
  AreAnswers [] = Unit
  AreAnswers (e ∷ es) = IsAnswer e × AreAnswers es

  step-AllHide :
      (e : Event) (s : TriggerCenter) → IsAnswer e → AllHide s.cards → AllHide (step e s).cards
  unfolding step
  step-AllHide (type_email email) s w all = all
  step-AllHide (fire c) s w all = on_fire-AllHide c s all
  step-AllHide (settled index outcome) s (c, email, tenant, a, same) all =
      on_settled-AllHide outcome (get_firing s.firings index) _
        (rw same (action-Hides c email tenant a)) all

  run-AllHide :
      (es : List Event) (s : TriggerCenter)
      → AreAnswers es
      → AllHide s.cards
      → AllHide (run es s).cards
  unfolding run
  run-AllHide [] s w all = all
  run-AllHide (e ∷ es) s (w, ws) all = run-AllHide es (step e s) ws (step-AllHide e s w all)

  -- Whichever cards are fired, over whatever inputs of the email, and whatever the calls of their
  -- actions settle with, in whatever order: in the request and in the response of a result that a
  -- card shows, a field with a secret key, at whatever depth, holds the redaction marker.
  pub run-HidesSecrets :
      (es : List Event) (facets : Facets) (c : Card) (r : TriggerResult)
      → AreAnswers es
      → (card_shown c ((run es (initial facets)).cards c)).result ≡ some r
      → HidesSecrets r
  unfolding card_shown initial AllHide
  run-HidesSecrets es facets c r ws shown =
      run-AllHide es (initial facets) ws (λ d q none_yet. absurd (some-ne-none q (sym none_yet))) c
        r shown
