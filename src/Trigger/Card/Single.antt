-- ===== src/Trigger/Card/Single.antt =====
-- One action of a card is in flight at a time.
use rust_auth_example.Base.{
  ℕ, zero, suc, ◌+◌, true, false, ◌==◌, ==_iff, Option, none, some, List, [], ◌∷◌, ◌≡◌, inl, inr,
  refl, sym, ap, arith, ◌∙◌, subst, Bool-cases, if◌then◌else◌,
}
use rust_auth_example.Http.{Outcome, resolved, rejected}
use rust_auth_example.Audit.Page.{Facets}
use rust_auth_example.Trigger.{TriggerResult}
use rust_auth_example.Trigger.Card.{
  Card, register_card, login_card, force_mfa_card, rotate_card, hammer_card, lockout_card,
  verify_email_card, password_reset_card, provoke_card, index_of, is_same, Firing, TriggerCenter,
  initial, Event, type_email, fire, settled, update, get_firing, without, on_settled, on_fire, step,
  run,
}

-- How many actions of a card are in flight
abbrev pub count : Card → List Firing → ℕ
count c [] = 0
count c (f ∷ fs) = (if is_same f.card c then 1 else 0) + count c fs

abbrev IsSingle : TriggerCenter → Type 0
IsSingle s = (c : Card) → count c s.firings ≡ (if (s.cards c).pending then 1 else 0)

abbrev card_at : ℕ → Card
card_at n =
    if n == 0
    then register_card
    else (if n == 1
        then login_card
        else (if n == 2
            then force_mfa_card
            else (if n == 3
                then rotate_card
                else (if n == 4
                    then hammer_card
                    else (if n == 5
                        then lockout_card
                        else (if n == 6
                            then verify_email_card
                            else (if n == 7 then password_reset_card else provoke_card)))))))

card_at-index_of : (c : Card) → card_at (index_of c) ≡ c
unfolding index_of
card_at-index_of register_card = refl
card_at-index_of login_card = refl
card_at-index_of force_mfa_card = refl
card_at-index_of rotate_card = refl
card_at-index_of hammer_card = refl
card_at-index_of lockout_card = refl
card_at-index_of verify_email_card = refl
card_at-index_of password_reset_card = refl
card_at-index_of provoke_card = refl

is_same-true : (c d : Card) → is_same c d ≡ true → c ≡ d
unfolding is_same
is_same-true c d h =
    sym (card_at-index_of c)
    ∙ ap card_at ((==_iff (index_of c) (index_of d)).0 h)
    ∙ card_at-index_of d

count_without :
    (c : Card) (index : ℕ) (f : Firing) (fs : List Firing)
    → get_firing fs index ≡ some f
    → count c (without index fs) + (if is_same f.card c then 1 else 0) ≡ count c fs
unfolding get_firing without
count_without c index f [] k = ground arith
count_without c zero f (g ∷ fs) k = ground arith
count_without c (suc index) f (g ∷ fs) k = ground (arith, count_without c index f fs k)

without-none : (index : ℕ) (fs : List Firing) → get_firing fs index ≡ none → without index fs ≡ fs
unfolding get_firing without
without-none index [] k = refl
without-none zero (f ∷ fs) k = ground arith
without-none (suc index) (f ∷ fs) k = ap (λ (gs : List Firing). f ∷ gs) (without-none index fs k)

fire-IsSingle : (c : Card) (s : TriggerCenter) → IsSingle s → IsSingle (on_fire c s)
unfolding on_fire update
fire-IsSingle c s h d = elim (Bool-cases (s.cards c).pending) [
  | inl busy ↦ rw busy (h d)
  | inr free ↦ elim (Bool-cases (is_same c d)) [
    | inl same ↦
        let idle : (s.cards d).pending ≡ false =
          subst (λ (x : Card). (s.cards x).pending ≡ false) (is_same-true c d same) free in
        ground (arith, h d)
    | inr other ↦ ground (arith, h d)
  ]
]

settled-IsSingle :
    (index : ℕ) (outcome : Outcome TriggerResult) (f : Option Firing) (s : TriggerCenter)
    → get_firing s.firings index ≡ f
    → IsSingle s
    → IsSingle (on_settled outcome f (record s { firings = without index s.firings }))
unfolding on_settled update
settled-IsSingle index outcome none s k h d = rw (without-none index s.firings k) (h d)
settled-IsSingle index (resolved result) (some f) s k h d =
    ground (arith, h d, count_without d index f s.firings k)
settled-IsSingle index (rejected err) (some f) s k h d =
    ground (arith, h d, count_without d index f s.firings k)

step-IsSingle : (e : Event) (s : TriggerCenter) → IsSingle s → IsSingle (step e s)
unfolding step
step-IsSingle (type_email email) s h = h
step-IsSingle (fire c) s h = fire-IsSingle c s h
step-IsSingle (settled index outcome) s h =
    settled-IsSingle index outcome (get_firing s.firings index) s refl h

run-IsSingle : (es : List Event) (s : TriggerCenter) → IsSingle s → IsSingle (run es s)
unfolding run
run-IsSingle [] s h = h
run-IsSingle (e ∷ es) s h = run-IsSingle es (step e s) (step-IsSingle e s h)

-- Over any events, a card has one action in flight while it says "Firing…", and none otherwise.
pub run-initial_count :
    (facets : Facets) (es : List Event) (c : Card)
    → count c (run es (initial facets)).firings
      ≡ (if ((run es (initial facets)).cards c).pending then 1 else 0)
unfolding initial
run-initial_count facets es c = run-IsSingle es (initial facets) (λ d. refl) c
