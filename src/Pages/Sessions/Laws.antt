-- ===== src/Pages/Sessions/Laws.antt =====
-- The optimistic removal of a session, its rollback, and what a second one loses.
use rust_auth_example.Base.{
  false, String, List, [], ◌∷◌, ◌≡◌, ◌≢◌, ◌↔◌, arith, inl, inr, Bool-cases, str_eq, eq_iff,
}
use mathlib.Core.List.{Memᴰ}
use rust_auth_example.Http.{Failure, resolved, rejected}
use rust_auth_example.Pages.Sessions.{
  SessionInfo, ready, Sessions, without, revoke, revoke_settled, step, run,
}

without_sound :
    (id : String) (x : SessionInfo) (ss : List SessionInfo)
    → Memᴰ x (without id ss)
    → Memᴰ x ss × (x.id ≢ id)
unfolding without
without_sound id x [] m = elim m [ ]
without_sound id x (s ∷ ss) m = elim (Bool-cases (str_eq s.id id)) [
  | inl e ↦ (let (listed, other) = without_sound id x ss (rw e at m) in (Memᴰ.tail listed, other))
  | inr e ↦ kept (rw e at m) e (without_sound id x ss)
]
  where
    kept :
        Memᴰ x (s ∷ without id ss)
        → str_eq s.id id ≡ false
        → (Memᴰ x (without id ss) → Memᴰ x ss × (x.id ≢ id))
        → Memᴰ x (s ∷ ss) × (x.id ≢ id)
    kept (Memᴰ.head same) e ih =
        let other : str_eq x.id id ≡ false = rw same e in
        (Memᴰ.head same, λ k. ground (arith, eq_iff x.id id))
    kept (Memᴰ.tail later) e ih = let (listed, other) = ih later in (Memᴰ.tail listed, other)

without_complete :
    (id : String) (x : SessionInfo) {ss : List SessionInfo}
    → Memᴰ x ss
    → x.id ≢ id
    → Memᴰ x (without id ss)
unfolding without
without_complete id x {ss = []} m n = elim m [ ]
without_complete id x {ss = s ∷ ss} (Memᴰ.head same) n = elim (Bool-cases (str_eq s.id id)) [
  | inl e ↦ absurd (n ((eq_iff x.id id).0 (rw same e)))
  | inr e ↦ rw e (Memᴰ.head same)
]
without_complete id x {ss = s ∷ ss} (Memᴰ.tail later) n = elim (Bool-cases (str_eq s.id id)) [
  | inl e ↦ rw e (without_complete id x later n)
  | inr e ↦ rw e (Memᴰ.tail (without_complete id x later n))
]

-- While a revocation is in flight, the list shows exactly the sessions with another id.
revoke_shows_iff :
    (id : String) (x : SessionInfo) (ss : List SessionInfo) (s : Sessions)
    → s.state ≡ ready ss
    → ((step (revoke id) s).state ≡ ready (without id ss))
      × (Memᴰ x (without id ss) ↔ (Memᴰ x ss × (x.id ≢ id)))
unfolding step
revoke_shows_iff id x ss s h =
    (ground arith, (without_sound id x ss, λ m. without_complete id x m.0 m.1))

-- A revocation that is refused while no other event came between leaves the list, and the
-- revocations in flight, as they were; one that succeeds leaves the list without the session.
revoke_alone :
    (id : String) (ss : List SessionInfo) (err : Failure) (s : Sessions)
    → s.state ≡ ready ss
    → ((step (revoke_settled 0 (rejected err)) (step (revoke id) s)).state ≡ ready ss)
      × ((step (revoke_settled 0 (rejected err)) (step (revoke id) s)).revocations ≡ s.revocations)
      × ((step (revoke_settled 0 (resolved tt)) (step (revoke id) s)).state ≡ ready (without id ss))
      × ((step (revoke_settled 0 (resolved tt)) (step (revoke id) s)).revocations ≡ s.revocations)
unfolding step
revoke_alone id ss err s h = ground arith

-- Two revocations in flight at once lose the second: if it succeeds and the first is refused after
-- it, the list is again the one before both, with every session that the second had revoked.
pub revoke_loses :
    (first second : String) (ss : List SessionInfo) (err : Failure) (s : Sessions)
    → s.state ≡ ready ss
    → (run
        (revoke first
          ∷ revoke second
          ∷ revoke_settled 0 (resolved tt)
          ∷ revoke_settled 0 (rejected err)
          ∷ [])
        s).state
      ≡ ready ss
unfolding step run
revoke_loses first second ss err s h = ground arith
