-- ===== src/Pages/Sessions/Table/Laws.antt =====
-- The order of the rows.
use rust_auth_example.Base.{
  Bool, true, false, List, [], ◌∷◌, ◌++◌, ◌≡◌, refl, ap, arith, Bool-cases, inl, inr, if◌then◌else◌,
}
use rust_auth_example.Pages.Sessions.{SessionInfo}
use rust_auth_example.Pages.Sessions.Table.{insert, ordered, goes_behind}

-- The sessions that are this device, and the others, in the order in which they came
abbrev select : Bool → List SessionInfo → List SessionInfo
select current [] = []
select true (s ∷ ss) = let rest = select true ss in if s.is_current then s ∷ rest else rest
select false (s ∷ ss) = let rest = select false ss in if s.is_current then rest else s ∷ rest

insert_current :
    (s : SessionInfo) (ss : List SessionInfo) → s.is_current ≡ true → insert s ss ≡ s ∷ ss
unfolding insert goes_behind
insert_current s [] h = refl
insert_current s (t ∷ ts) h = ground arith

insert_first :
    (s : SessionInfo) (ys : List SessionInfo)
    → s.is_current ≡ false
    → insert s (select false ys) ≡ s ∷ select false ys
unfolding insert goes_behind
insert_first s [] h = refl
insert_first s (y ∷ ys) h = ground (arith, insert_first s ys h)

insert_other :
    (s : SessionInfo) (xs ys : List SessionInfo)
    → s.is_current ≡ false
    → insert s (select true xs ++ select false ys) ≡ select true xs ++ (s ∷ select false ys)
unfolding insert goes_behind
insert_other s [] ys h = insert_first s ys h
insert_other s (x ∷ xs) ys h = elim (Bool-cases x.is_current) [
  | inl here ↦ simp (here, h) (ap (λ (l : List SessionInfo). x ∷ l) (insert_other s xs ys h))
  | inr other ↦ simp other (insert_other s xs ys h)
]

-- The table lists the sessions of this device first and then the others, each in the order in which the
-- API listed them.
ordered-eq-select : (ss : List SessionInfo) → ordered ss ≡ select true ss ++ select false ss
unfolding ordered
ordered-eq-select [] = refl
ordered-eq-select (s ∷ ss) = elim (Bool-cases s.is_current) [
  | inl here ↦ simp (here, ordered-eq-select ss) (insert_current s _ here)
  | inr other ↦ simp (other, ordered-eq-select ss) (insert_other s ss ss other)
]
