-- ===== src/Pages/Invitations/Email.antt =====
-- The matcher is the regular expression.
use rust_auth_example.Base.{
  ℕ, ◌==◌, ==_iff, true, false, ◌&&◌, &&_iff, List, [], ◌∷◌, ◌++◌, ◌≡◌, ◌≢◌, ◌↔◌, refl, ap, ◌∙◌,
  arith, every, Bool-cases, inl, inr, String, codes,
}
use rust_auth_example.Pages.Invitations.{
  is_plain, has_dot, is_domain, is_after_first, is_email, email_re,
}

-- `[^\s@]+`
abbrev pub IsPlainPart : List ℕ → Type 0
IsPlainPart part = (every is_plain part ≡ true) × (part ≢ [])

-- `^[^\s@]+@[^\s@]+\.[^\s@]+$`, read as it stands
abbrev pub IsEmail : List ℕ → Type 0
IsEmail text =
    (local : List ℕ) × (host : List ℕ) × (top : List ℕ) × (text
      ≡ local ++ (64 ∷ (host ++ (46 ∷ top))))
    × IsPlainPart local
    × IsPlainPart host
    × IsPlainPart top

every-append :
    (xs ys : List ℕ) → every is_plain (xs ++ ys) ≡ (every is_plain xs && every is_plain ys)
every-append [] ys = refl
every-append (x ∷ xs) ys = ground (arith, every-append xs ys)

dot_splits :
    (c : ℕ) (rest : List ℕ)
    → has_dot rest ≡ true
    → every is_plain rest ≡ true
    → (host : List ℕ) × (top : List ℕ) × (rest ≡ host ++ (46 ∷ top))
      × (every is_plain host ≡ true)
      × IsPlainPart top
unfolding has_dot
dot_splits c [] h k = cc
dot_splits c (d ∷ []) h k = cc
dot_splits c (d ∷ e ∷ rest) h k = elim (Bool-cases (d == 46)) [
  | inl dot ↦ (
    [],
    e ∷ rest,
    ap (λ (x : ℕ). x ∷ e ∷ rest) ((==_iff d 46).0 dot),
    refl,
    (((&&_iff (is_plain d) (every is_plain (e ∷ rest))).0 k).1, λ n. cc),
  )
  | inr other ↦
      let parts = (&&_iff (is_plain d) (every is_plain (e ∷ rest))).0 k in
      let (host, top, same, plain, last) = dot_splits d (e ∷ rest) (rw other at h) parts.1 in
      (
        d ∷ host,
        top,
        ap (λ (l : List ℕ). d ∷ l) same,
        (&&_iff (is_plain d) (every is_plain host)).1 (parts.0, plain),
        last,
      )
]

dot_inside : (host top : List ℕ) → top ≢ [] → has_dot (host ++ (46 ∷ top)) ≡ true
unfolding has_dot
dot_inside [] [] n = absurd (n refl)
dot_inside [] (t ∷ top) n = refl
dot_inside (h ∷ []) top n = ground (arith, dot_inside [] top n)
dot_inside (h ∷ g ∷ host) top n = ground (arith, dot_inside (g ∷ host) top n)

domain_splits :
    (text : List ℕ)
    → is_domain text ≡ true
    → (host : List ℕ) × (top : List ℕ) × (text ≡ host ++ (46 ∷ top))
      × IsPlainPart host
      × IsPlainPart top
unfolding is_domain
domain_splits [] h = cc
domain_splits (c ∷ rest) h =
    let dotted = (&&_iff (is_plain c && every is_plain rest) (has_dot rest)).0 h in
    let parts = (&&_iff (is_plain c) (every is_plain rest)).0 dotted.0 in
    let (host, top, same, part, last) = dot_splits c rest dotted.1 parts.1 in
    (
      c ∷ host,
      top,
      ap (λ (l : List ℕ). c ∷ l) same,
      ((&&_iff (is_plain c) (every is_plain host)).1 (parts.0, part), λ n. cc),
      last,
    )

dot_plain : is_plain 46 ≡ true
unfolding is_plain
dot_plain = refl

domain_joins :
    (host top : List ℕ) → IsPlainPart host → IsPlainPart top → is_domain (host ++ (46 ∷ top)) ≡ true
unfolding is_domain
domain_joins [] top h t = absurd (h.1 refl)
domain_joins (c ∷ host) top h t =
    ground (arith, h.0, t.0, dot_plain, dot_inside host top t.1, every-append host (46 ∷ top))

after_splits :
    (text : List ℕ)
    → is_after_first text ≡ true
    → (local : List ℕ) × (domain : List ℕ) × (text ≡ local ++ (64 ∷ domain))
      × (every is_plain local ≡ true)
      × (is_domain domain ≡ true)
unfolding is_after_first
after_splits [] h = cc
after_splits (c ∷ rest) h = elim (Bool-cases (c == 64)) [
  | inl at_sign ↦
      ([], rest, ap (λ (x : ℕ). x ∷ rest) ((==_iff c 64).0 at_sign), refl, rw at_sign at h)
  | inr other ↦
      let parts = (&&_iff (is_plain c) (is_after_first rest)).0 (rw other at h) in
      let (local, domain, same, plain, good) = after_splits rest parts.1 in
      (
        c ∷ local,
        domain,
        ap (λ (l : List ℕ). c ∷ l) same,
        (&&_iff (is_plain c) (every is_plain local)).1 (parts.0, plain),
        good,
      )
]

plain_not_at : (c : ℕ) → is_plain c ≡ true → (c == 64) ≡ false
unfolding is_plain
plain_not_at c h = ground arith

after_joins :
    (local domain : List ℕ)
    → every is_plain local ≡ true
    → is_domain domain ≡ true
    → is_after_first (local ++ (64 ∷ domain)) ≡ true
unfolding is_after_first
after_joins [] domain h d = d
after_joins (c ∷ local) domain h d =
    let parts = (&&_iff (is_plain c) (every is_plain local)).0 h in
    rw (plain_not_at c parts.0, parts.0) (after_joins local domain parts.1 d)

is_email_split : (text : List ℕ) → is_email text ≡ true → IsEmail text
unfolding is_email
is_email_split [] h = cc
is_email_split (c ∷ rest) h =
    let first = (&&_iff (is_plain c) (is_after_first rest)).0 h in
    let (local, domain, same, plain, good) = after_splits rest first.1 in
    let (host, top, parts, host_part, top_part) = domain_splits domain good in
    (
      c ∷ local,
      host,
      top,
      ap (λ (l : List ℕ). c ∷ l) (same ∙ ap (λ (d : List ℕ). local ++ (64 ∷ d)) parts),
      ((&&_iff (is_plain c) (every is_plain local)).1 (first.0, plain), λ n. cc),
      host_part,
      top_part,
    )

is_email_join : (text : List ℕ) → IsEmail text → is_email text ≡ true
unfolding is_email
is_email_join text ([], host, top, same, local_part, host_part, top_part) =
    absurd (local_part.1 refl)
is_email_join text (c ∷ local, host, top, same, local_part, host_part, top_part) =
    let parts = (&&_iff (is_plain c) (every is_plain local)).0 local_part.0 in
    rw (same, parts.0)
      (after_joins local (host ++ (46 ∷ top)) parts.1 (domain_joins host top host_part top_part))

-- `EMAIL_RE` accepts an address exactly if it is a part, an `@`, a part, a dot and a part, each of
-- them not empty and without white space or `@`: the matcher, which makes one pass, finds a split
-- whenever there is one.
pub email_re_iff : (email : String) → (email_re email ≡ true) ↔ IsEmail (codes email)
unfolding email_re
email_re_iff email = (is_email_split (codes email), is_email_join (codes email))
