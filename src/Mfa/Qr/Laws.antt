-- ===== src/Mfa/Qr/Laws.antt =====
-- The drawn code is that of the URI, however the conversions overtake each other.
use rust_auth_example.Base.{
  ℕ, zero, suc, Bool, true, not, String, Option, List, [], ◌∷◌, ◌≡◌, refl, arith, All, any, map,
  ◌⊎◌, inl, inr, Bool-cases,
}
use rust_auth_example.Http.{Outcome}
use rust_auth_example.Mfa.Qr.{
  Conversion, Qr, Event, uri_changed, settled, cancel, url_of, mount, without, shown_after, step,
  run,
}

abbrev is_live : Conversion → Bool
is_live c = not c.cancelled

module _ (to_data_url : String → Outcome String) where
  -- Whatever conversion is live is of the URI shown, and without one the URI is drawn.
  abbrev AllLive : String → List Conversion → Type 0
  AllLive uri cs = All (λ c. is_live c ≡ true → c.uri ≡ uri) cs

  record IsCurrent (s : Qr) : Type 0 where
    live : AllLive s.uri s.conversions
    drawn : (any is_live s.conversions ≡ true) ⊎ (s.qr_data_url ≡ url_of (to_data_url s.uri))

  cancelled-AllLive : (uri : String) (cs : List Conversion) → AllLive uri (map cancel cs)
  unfolding cancel
  cancelled-AllLive uri [] = tt
  cancelled-AllLive uri (c ∷ cs) = (λ k. ground arith, cancelled-AllLive uri cs)

  without-AllLive :
      (index : ℕ) (uri : String) (cs : List Conversion)
      → AllLive uri cs
      → AllLive uri (without index cs)
  unfolding without
  without-AllLive index uri [] h = tt
  without-AllLive zero uri (c ∷ cs) h = h.1
  without-AllLive (suc index) uri (c ∷ cs) h = (h.0, without-AllLive index uri cs h.1)

  -- A settled conversion that was live draws the URI, and any other leaves what is shown.
  shown_after_lem :
      (index : ℕ) (uri : String) (cs : List Conversion) (old : Option String)
      → AllLive uri cs
      → (any is_live cs ≡ true) ⊎ (old ≡ url_of (to_data_url uri))
      → (any is_live (without index cs) ≡ true)
        ⊎ (shown_after to_data_url index cs old ≡ url_of (to_data_url uri))
  unfolding without shown_after
  shown_after_lem index uri [] old h d = d
  shown_after_lem zero uri (c ∷ cs) old h d = elim (Bool-cases c.cancelled) [
    | inl gone ↦ ground arith
    | inr live ↦ let same : c.uri ≡ uri = h.0 (ground arith) in inr (rw (live, same) refl)
  ]
  shown_after_lem (suc index) uri (c ∷ cs) old h d = elim (Bool-cases c.cancelled) [
    | inl gone ↦
        let rest : (any is_live cs ≡ true) ⊎ (old ≡ url_of (to_data_url uri)) = ground arith in
        ground (arith, shown_after_lem index uri cs old h.1 rest)
    | inr live ↦ inl (rw live refl)
  ]

  step-IsCurrent : (e : Event) (s : Qr) → IsCurrent s → IsCurrent (step to_data_url e s)
  unfolding step
  step-IsCurrent (uri_changed uri) s h = record {
    live = (λ k. refl, cancelled-AllLive uri s.conversions);
    drawn = inl refl;
  }
  step-IsCurrent (settled index) s h = record {
    live = without-AllLive index s.uri s.conversions h.live;
    drawn = shown_after_lem index s.uri s.conversions s.qr_data_url h.live h.drawn;
  }

  run-IsCurrent : (es : List Event) (s : Qr) → IsCurrent s → IsCurrent (run to_data_url es s)
  unfolding run
  run-IsCurrent [] s h = h
  run-IsCurrent (e ∷ es) s h = run-IsCurrent es (step to_data_url e s) (step-IsCurrent e s h)

  mount-IsCurrent : (uri : String) → IsCurrent (mount uri)
  unfolding mount
  mount-IsCurrent uri = record { live = (λ k. refl, tt); drawn = inl refl }

  -- Whatever changes of the enrolment there were and in whatever order the conversions settled: once
  -- none is in flight, the card shows the drawing of its current URI, or none if that failed. A
  -- late conversion of an earlier URI never replaces it.
  run-mount_drawn :
      (es : List Event) (uri : String)
      → (run to_data_url es (mount uri)).conversions ≡ []
      → (run to_data_url es (mount uri)).qr_data_url
        ≡ url_of (to_data_url (run to_data_url es (mount uri)).uri)
  run-mount_drawn es uri e =
      let h : IsCurrent (run to_data_url es (mount uri)) =
        run-IsCurrent es (mount uri) (mount-IsCurrent uri) in
      elim h.drawn [ inl live ↦ cc (rw e at live) | inr drawn ↦ drawn ]
