-- ===== src/Config/Sources.antt =====
-- What a page may connect to.
use mathlib.Core.Option.{some-injective}
use rust_auth_example.Base.{
  ◌==◌, none, some, Option-cases, List, [], ◌∷◌, ◌++◌, ◌≡◌, ◌≢◌, refl, sym, subst, arith, inl, inr,
  ◌⊎◌, codes, ap₂, ==_iff, Bool-cases,
}
use rust_auth_example.Scripts.Words.{Text}
use rust_auth_example.Scripts.Patterns.{eat}
use rust_auth_example.Config.{ws_origin}

-- The sources that a page may connect to, as the code has them
abbrev pub connect_sources : Text → List Text
connect_sources [] = codes "'self'" ∷ []
connect_sources (c ∷ origin) = codes "'self'" ∷ (c ∷ origin) ∷ ws_origin (c ∷ origin) ∷ []

abbrev pub HasScheme : Text → Type 0
HasScheme origin = (rest : Text) × (origin ≡ codes "http" ++ rest)

-- The sources that a page is meant to connect to: itself, and if there is an API its origin and that
-- of its sockets, which has `ws` where the origin begins with `http`.
abbrev pub ConnectsTo : (origin : Text) → (connect : List Text) → Type 0
ConnectsTo origin connect =
    ((origin ≡ []) × (connect ≡ codes "'self'" ∷ []))
    ⊎ ((origin ≢ [])
        × ((sockets : Text) × (connect ≡ codes "'self'" ∷ origin ∷ sockets ∷ [])
            × ((rest : Text) → origin ≡ codes "http" ++ rest → sockets ≡ codes "ws" ++ rest)
            × (¬ HasScheme origin → sockets ≡ origin)))

pub eat-append : (p s rest : Text) → eat p s ≡ some rest → s ≡ p ++ rest
unfolding eat
eat-append [] s rest h = some-injective s rest h
eat-append (c ∷ p) [] rest h = cc
eat-append (c ∷ p) (d ∷ s) rest h = elim (Bool-cases (c == d)) [
  | inl same ↦ ap₂ (λ x l. x ∷ l) (sym ((==_iff c d).0 same)) (eat-append p s rest (rw same at h))
  | inr other ↦ let no : none ≡ some rest = rw other at h in cc
]

eat-codes : (p rest : Text) → eat p (p ++ rest) ≡ some rest
unfolding eat
eat-codes [] rest = refl
eat-codes (c ∷ p) rest = ground (arith, eat-codes p rest)

ws_origin-none : (o : Text) → eat (codes "http") o ≡ none → ws_origin o ≡ o
unfolding ws_origin
ws_origin-none o e = rw (ws_origin, e) refl

ws_origin-some :
    (o rest : Text) → eat (codes "http") o ≡ some rest → ws_origin o ≡ codes "ws" ++ rest
unfolding ws_origin
ws_origin-some o rest e = rw (ws_origin, e) refl

sockets_of : (o rest : Text) → o ≡ codes "http" ++ rest → ws_origin o ≡ codes "ws" ++ rest
sockets_of o rest there =
    ws_origin-some o rest
      (subst (λ t. eat (codes "http") t ≡ some rest) (sym there) (eat-codes (codes "http") rest))

pub connect_sources-ConnectsTo : (origin : Text) → ConnectsTo origin (connect_sources origin)
connect_sources-ConnectsTo [] = inl (refl, refl)
connect_sources-ConnectsTo (c ∷ origin) = inr (
  λ n. cc,
  (
    ws_origin (c ∷ origin),
    refl,
    sockets_of (c ∷ origin),
    λ none_there. elim (Option-cases (eat (codes "http") (c ∷ origin))) [
      | inl other ↦ ws_origin-none (c ∷ origin) other
      | inr (rest, there) ↦
          absurd (none_there (rest, eat-append (codes "http") (c ∷ origin) rest there))
    ],
  ),
)
