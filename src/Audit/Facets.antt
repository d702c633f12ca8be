-- ===== src/Audit/Facets.antt =====
-- The rows that the facets let through.
use rust_auth_example.Base.{
  true, String, Option, none, some, List, [], ◌∷◌, ◌≡◌, refl, ◌↔◌, inl, inr, arith, eq_iff,
  Bool-cases,
}
use mathlib.Core.List.{Memᴰ}
use rust_auth_example.Audit.{AuditLogRow, facet_admits, row_matches, filtered}

-- A facet that is set names the value.
abbrev pub Admits : Option String → String → Type 0
Admits none value = Unit
Admits (some facet) value = value ≡ facet

facet_admits_iff : (o : Option String) (v : String) → (facet_admits o v ≡ true) ↔ Admits o v
unfolding facet_admits
facet_admits_iff none v = (λ h. tt, λ h. refl)
facet_admits_iff (some facet) v = eq_iff v facet

module _ (actor event : Option String) where
  row_matches_iff :
      (row : AuditLogRow)
      → (row_matches actor event row ≡ true) ↔ (Admits actor row.actor × Admits event row.event)
  unfolding row_matches
  row_matches_iff row =
      let (to_actor, from_actor) = facet_admits_iff actor row.actor in
      let (to_event, from_event) = facet_admits_iff event row.event in
      (
        λ h. (to_actor (ground arith), to_event (ground arith)),
        λ h. ground (arith, from_actor h.0, from_event h.1),
      )

  filtered_sound :
      (row : AuditLogRow) (rows : List AuditLogRow)
      → Memᴰ row (filtered actor event rows)
      → Memᴰ row rows × (row_matches actor event row ≡ true)
  unfolding filtered
  filtered_sound row [] m = elim m [ ]
  filtered_sound row (r ∷ rows) m = elim (Bool-cases (row_matches actor event r)) [
    | inl e ↦ first (rw e at m) e (filtered_sound row rows)
    | inr e ↦ (let (later, match) = filtered_sound row rows (rw e at m) in (Memᴰ.tail later, match))
  ]
    where
      first :
          Memᴰ row (r ∷ filtered actor event rows)
          → row_matches actor event r ≡ true
          → (Memᴰ row (filtered actor event rows)
              → Memᴰ row rows × (row_matches actor event row ≡ true))
          → Memᴰ row (r ∷ rows) × (row_matches actor event row ≡ true)
      first (Memᴰ.head same) e ih = (Memᴰ.head same, rw same e)
      first (Memᴰ.tail later) e ih = let (m', match) = ih later in (Memᴰ.tail m', match)

  filtered_complete :
      (row : AuditLogRow) {rows : List AuditLogRow}
      → Memᴰ row rows
      → row_matches actor event row ≡ true
      → Memᴰ row (filtered actor event rows)
  unfolding filtered
  filtered_complete row (Memᴰ.head {xs = rs} same) h = rw (← same, h) (Memᴰ.head refl)
  filtered_complete row (Memᴰ.tail {x = r} later) h =
      elim (Bool-cases (row_matches actor event r)) [
        | inl e ↦ rw e (Memᴰ.tail (filtered_complete row later h))
        | inr e ↦ rw e (filtered_complete row later h)
      ]

  -- A row is listed exactly if it was received and each facet that is set names its value.
  pub mem-filtered_iff :
      (row : AuditLogRow) (rows : List AuditLogRow)
      → Memᴰ row (filtered actor event rows)
        ↔ (Memᴰ row rows × Admits actor row.actor × Admits event row.event)
  mem-filtered_iff row rows =
      let (to, from) = row_matches_iff row in
      (
        λ m.
            (let (listed, match) = filtered_sound row rows m in
              (listed, (to match).0, (to match).1)),
        λ m. filtered_complete row m.0 (from (m.1, m.2)),
      )
