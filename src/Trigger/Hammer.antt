-- ===== src/Trigger/Hammer.antt =====
-- When `hammerLogin` stops.
use rust_auth_example.Base.{
  ℕ, zero, suc, ◌+◌, ◌<◌, true, false, ◌==◌, ==_iff, String, none, some, ◌≡◌, ◌∙◌, refl, arith, ◌≢◌,
  inl, inr, Bool-cases, subst, ap₂, ap, sym, ◌-◌, if◌then◌else◌,
}
use rust_auth_example.Json.{Json, Number}
use rust_auth_example.Http.{Response, Outcome, resolved}
use rust_auth_example.Trigger.{
  TriggerResult, limited, refused, hammering, turn, hammer, hammer_login,
}

module _ (number : ℕ → Number) (to_number : String → Number) where
  -- The attempt lets the loop go on: an ok response.
  abbrev pub GoesOn : Outcome Response → Type 0
  GoesOn o = (res : Response) × (o ≡ resolved res) × (res.is_ok ≡ true) × (res.status ≢ 429)

  turn-GoesOn :
      (request : Json) (o : Outcome Response) (rest : Outcome TriggerResult)
      → GoesOn o
      → turn number to_number request o rest ≡ rest
  unfolding turn
  turn-GoesOn request o rest (res, e, good, other) = rw e (ground (arith, ==_iff res.status 429))

  -- `skipped` attempts go on from `i`.
  hammer_skips :
      (request : Json) (login : ℕ → Outcome Response) (skipped left i : ℕ)
      → ((j : ℕ) → j < skipped → GoesOn (login (i + j)))
      → hammer number to_number request login (skipped + left) i
        ≡ hammer number to_number request login left (i + skipped)
  unfolding hammer
  hammer_skips request login zero left i h =
      ap₂ (hammer number to_number request login) (omega arith) (omega arith)
  hammer_skips request login (suc skipped) left i h =
      let one : suc skipped + left ≡ suc (skipped + left) = omega arith in
      let next : suc i + skipped ≡ i + suc skipped = omega arith in
      ap (λ n. hammer number to_number request login n i) one
      ∙ turn-GoesOn request (login i)
          (hammer number to_number request login (skipped + left) (suc i))
          (subst (λ k. GoesOn (login k)) (omega arith) (h 0 (omega arith)))
      ∙ hammer_skips request login skipped left (suc i)
          (λ j l. subst (λ k. GoesOn (login k)) (omega arith) (h (suc j) (omega arith)))
      ∙ ap (hammer number to_number request login left) next

  turn_refused :
      (request : Json) (res : Response) (rest : Outcome TriggerResult)
      → res.is_ok ≡ false
      → (r : TriggerResult) × (turn number to_number request (resolved res) rest ≡ resolved r)
        × (r.status ≡ some res.status)
  unfolding turn limited refused
  turn_refused request res rest bad = elim (Bool-cases (res.status == 429)) [
    | inl e ↦ (
      limited number to_number request res,
      rw e refl,
      ap some (sym ((==_iff res.status 429).0 e)),
    )
    | inr e ↦ (refused number to_number request res, rw (e, bad) refl, refl)
  ]

  hammer_refused :
      (request : Json) (login : ℕ → Outcome Response) (res : Response) (later i : ℕ)
      → login i ≡ resolved res
      → res.is_ok ≡ false
      → (r : TriggerResult) × (hammer number to_number request login (suc later) i ≡ resolved r)
        × (r.status ≡ some res.status)
  unfolding hammer
  hammer_refused request login res later i e bad =
      rw e (turn_refused request res (hammer number to_number request login later (suc i)) bad)

  -- If the attempts before it were answered by ok responses other than 429, then a response that is
  -- not ok ends `hammerLogin`, which returns a result with the status of that response, whatever the
  -- later attempts would have settled with.
  pub hammer_login_stops :
      (email tenant : String) (login : ℕ → Outcome Response) (skipped later : ℕ) (res : Response)
      → ((j : ℕ) → j < skipped → GoesOn (login j))
      → login skipped ≡ resolved res
      → res.is_ok ≡ false
      → (r : TriggerResult) × (hammer_login number to_number email tenant
            (skipped + suc later)
            login
          ≡ resolved r)
        × (r.status ≡ some res.status)
  unfolding hammer_login
  hammer_login_stops email tenant login skipped later res before e bad =
      let request = hammering number to_number email tenant (skipped + suc later) in
      let (r, h, k) =
        hammer_refused request login res later (0 + skipped)
          (subst (λ n. login n ≡ resolved res) (omega arith) e) bad in
      (
        r,
        hammer_skips request login skipped (suc later) 0
              (λ j l. subst (λ n. GoesOn (login n)) (omega arith) (before j l))
            ∙ h,
        k,
      )

  GoesOn-hammer_login :
      (email tenant : String) (login : ℕ → Outcome Response) (attempts : ℕ)
      → ((j : ℕ) → j < attempts → GoesOn (login j))
      → (r : TriggerResult) × (hammer_login number to_number email tenant attempts login
          ≡ resolved r)
        × (r.status ≡ some 200)
        × (r.code ≡ none)
        × (r.retry_after_seconds ≡ none)
  unfolding hammer_login hammer
  GoesOn-hammer_login email tenant login attempts all = (
    _,
    ap (λ n. hammer number to_number (hammering number to_number email tenant attempts) login n 0)
          (omega arith)
        ∙ hammer_skips (hammering number to_number email tenant attempts) login attempts 0 0
            (λ j l. subst (λ n. GoesOn (login n)) (omega arith) (all j l)),
    refl,
    refl,
    refl,
  )

  -- The attempts with the one at `k` answered by `res`
  abbrev pub answered_at : ℕ → Response → (ℕ → Outcome Response) → ℕ → Outcome Response
  answered_at k res login j = if j == k then resolved res else login j

  answered_at-GoesOn :
      (k : ℕ) (res : Response) (login : ℕ → Outcome Response) (j : ℕ)
      → j < k
      → GoesOn (login j)
      → GoesOn (answered_at k res login j)
  answered_at-GoesOn k res login j l h =
      let other : (j == k) ≡ false = ground (arith, ==_iff j k) in rw other h

  -- If every attempt is answered by an ok response other than 429, `hammerLogin` returns a result
  -- with the status 200, no code and no window, whatever an attempt after them would have settled
  -- with. It makes them all: with any single one of them answered by a response that is not ok
  -- instead, it returns a result with the status of that response.
  pub hammer_login_exhausts :
      (email tenant : String) (login : ℕ → Outcome Response) (attempts : ℕ)
      → ((j : ℕ) → j < attempts → GoesOn (login j))
      → ((r : TriggerResult) × (hammer_login number to_number email tenant attempts login
            ≡ resolved r)
          × (r.status ≡ some 200)
          × (r.code ≡ none)
          × (r.retry_after_seconds ≡ none))
        × ((k : ℕ) (res : Response)
            → k < attempts
            → res.is_ok ≡ false
            → (r : TriggerResult) × (hammer_login number to_number email tenant attempts
                  (answered_at k res login)
                ≡ resolved r)
              × (r.status ≡ some res.status))
  hammer_login_exhausts email tenant login attempts all = (
    GoesOn-hammer_login email tenant login attempts all,
    λ k res l bad.
        let changed = answered_at k res login in
        let same : (k == k) ≡ true = ground (arith, ==_iff k k) in
        let split : k + suc (attempts - suc k) ≡ attempts = omega arith in
        subst
          (λ n.
            (r : TriggerResult) × (hammer_login number to_number email tenant n changed
              ≡ resolved r)
            × (r.status ≡ some res.status))
          split
          (hammer_login_stops email tenant changed k (attempts - suc k) res
            (λ j m. answered_at-GoesOn k res login j m (all j (omega arith))) (rw same refl) bad),
  )
