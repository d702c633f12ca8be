-- ===== src/Shell/Laws.antt =====
-- Which items of the navigation are there, and which is the current one.
use rust_auth_example.Base.{
  ℕ, ◌+◌, ◌≤◌, Bool, true, false, not, ◌&&◌, ◌||◌, String, Option, none, some, List, [], ◌∷◌, ◌≡◌,
  ◌↔◌, ◌⊎◌, inl, inr, refl, sym, ap, arith, Bool-cases, has, str_eq, eq_iff, drop, starts_with,
  starts_with_comparable, every, map, if◌then◌else◌, subst,
}
use mathlib.Core.List.{Memᴰ}
use rust_auth_example.Shell.{
  NavItem, overview, dashboard_nav, is_item_active, is_admin, visible, dashboard_items, Link,
  nav_link, sidebar,
}

-- How many links are marked as the current page
abbrev pub active_count : List Link → ℕ
active_count [] = 0
active_count (link ∷ links) = (if link.active then 1 else 0) + active_count links

abbrev items_active : String → List NavItem → ℕ
items_active pathname items = active_count (map (nav_link pathname) items)

-- No address of two items is a prefix of the other.
abbrev are_apart : NavItem → NavItem → Bool
are_apart a b =
    not a.exact && not b.exact && not (starts_with a.href b.href) && not (starts_with b.href a.href)

abbrev are_distinct : List NavItem → Bool
are_distinct [] = true
are_distinct (item ∷ items) = every (are_apart item) items && are_distinct items

apart_active :
    (a b : NavItem) (pathname : String)
    → are_apart a b ≡ true
    → is_item_active a pathname ≡ true
    → is_item_active b pathname ≡ false
unfolding is_item_active
apart_active a b pathname d h = elim (Bool-cases (starts_with pathname b.href)) [
  | inr other ↦ ground arith
  | inl same ↦
      let first : starts_with pathname a.href ≡ true = ground arith in
      elim (starts_with_comparable pathname a.href b.href first same) [
        | inl p ↦ ground arith
        | inr p ↦ ground arith
      ]
]

none_active :
    (a : NavItem) (items : List NavItem) (pathname : String)
    → every (are_apart a) items ≡ true
    → is_item_active a pathname ≡ true
    → items_active pathname items ≡ 0
unfolding nav_link
none_active a [] pathname d h = refl
none_active a (b ∷ items) pathname d h = ground (
  arith,
  apart_active a b pathname (ground arith) h,
  none_active a items pathname (ground arith) h,
)

one_active :
    (items : List NavItem) (pathname : String)
    → are_distinct items ≡ true
    → items_active pathname items ≤ 1
unfolding nav_link
one_active [] pathname d = omega arith
one_active (a ∷ items) pathname d = elim (Bool-cases (is_item_active a pathname)) [
  | inl e ↦ ground (arith, none_active a items pathname (ground arith) e)
  | inr e ↦ ground (arith, one_active items pathname (ground arith))
]

overview_active :
    (rest : List NavItem) (pathname : String)
    → are_distinct rest ≡ true
    → items_active "/" rest ≡ 0
    → items_active pathname (overview ∷ rest) ≤ 1
unfolding nav_link is_item_active
overview_active rest pathname d z = elim (Bool-cases (str_eq pathname "/")) [
  | inl root ↦
      let here : items_active pathname rest ≡ 0 =
        subst (λ t. items_active t rest ≡ 0) (sym ((eq_iff pathname "/").0 root)) z in
      rw root (omega (arith, here))
  | inr other ↦ rw other (omega (arith, one_active rest pathname d))
]

visible_active :
    (admin : Bool) (pathname : String) → items_active pathname (visible admin dashboard_nav) ≤ 1
unfolding visible nav_link is_item_active
visible_active true pathname =
    overview_active (visible true (drop 1 dashboard_nav)) pathname refl refl
visible_active false pathname =
    overview_active (visible false (drop 1 dashboard_nav)) pathname refl refl

-- At most one link of the dashboard's section is marked as the current page, whatever the path and
-- the role of the user.
pub sidebar_active :
    (role : Option String) (pathname : String) → active_count (sidebar role pathname).0 ≤ 1
unfolding sidebar dashboard_items
sidebar_active role pathname = visible_active (is_admin role) pathname

mem-visible_iff :
    (item : NavItem) (admin : Bool) (items : List NavItem)
    → Memᴰ item (visible admin items)
      ↔ (Memᴰ item items × ((item.admin_only ≡ false) ⊎ (admin ≡ true)))
unfolding visible
mem-visible_iff item admin [] = (λ m. elim m [ ], λ w. elim (w.0) [ ])
mem-visible_iff item admin (x ∷ items) = elim (Bool-cases (not x.admin_only || admin)) [
  | inl shown ↦
      rw shown
        (to (mem-visible_iff item admin items).0 shown, from (mem-visible_iff item admin items).1)
  | inr hidden ↦ rw hidden (
    λ m. (
      Memᴰ.tail ((mem-visible_iff item admin items).0 m).0,
      ((mem-visible_iff item admin items).0 m).1,
    ),
    λ w. later (mem-visible_iff item admin items).1 hidden w.0 w.1,
  )
]
  where
    to :
        (Memᴰ item (visible admin items)
          → Memᴰ item items × ((item.admin_only ≡ false) ⊎ (admin ≡ true)))
        → not x.admin_only || admin ≡ true
        → Memᴰ item (x ∷ visible admin items)
        → Memᴰ item (x ∷ items) × ((item.admin_only ≡ false) ⊎ (admin ≡ true))
    to ih shown (Memᴰ.head same) = (Memᴰ.head same, rw same (ground arith))
    to ih shown (Memᴰ.tail m) = (Memᴰ.tail (ih m).0, (ih m).1)

    from :
        (Memᴰ item items × ((item.admin_only ≡ false) ⊎ (admin ≡ true))
          → Memᴰ item (visible admin items))
        → Memᴰ item (x ∷ items) × ((item.admin_only ≡ false) ⊎ (admin ≡ true))
        → Memᴰ item (x ∷ visible admin items)
    from ih (Memᴰ.head same, w) = Memᴰ.head same
    from ih (Memᴰ.tail m, w) = Memᴰ.tail (ih (m, w))

    later :
        (Memᴰ item items × ((item.admin_only ≡ false) ⊎ (admin ≡ true))
          → Memᴰ item (visible admin items))
        → not x.admin_only || admin ≡ false
        → Memᴰ item (x ∷ items)
        → (item.admin_only ≡ false) ⊎ (admin ≡ true)
        → Memᴰ item (visible admin items)
    later ih hidden (Memᴰ.head same) w =
        let blank : item.admin_only ≡ x.admin_only = ap (λ (i : NavItem). i.admin_only) same in
        ground arith
    later ih hidden (Memᴰ.tail m) w = ih (m, w)

is_admin_iff : (role : Option String) → (is_admin role ≡ true) ↔ (role ≡ some "admin")
unfolding is_admin has
is_admin_iff none = (λ e. cc, λ e. cc)
is_admin_iff (some role) = (
  λ e. ap some (sym ((eq_iff "admin" role).0 (ground arith))),
  λ e. ground (arith, e, eq_iff "admin" role),
)

-- An item of the dashboard is shown exactly if it is one of the navigation's and it is for everybody
-- or the user has the role `admin`.
mem-dashboard_items_iff :
    (item : NavItem) (role : Option String)
    → Memᴰ item (dashboard_items role)
      ↔ (Memᴰ item dashboard_nav × ((item.admin_only ≡ false) ⊎ (role ≡ some "admin")))
unfolding dashboard_items
mem-dashboard_items_iff item role =
    let (to, from) = mem-visible_iff item (is_admin role) dashboard_nav in
    let (admin, made) = is_admin_iff role in
    (
      λ m. ((to m).0, elim ((to m).1) [ inl e ↦ inl e | inr e ↦ inr (admin e) ]),
      λ w. from (w.0, elim (w.1) [ inl e ↦ inl e | inr e ↦ inr (made e) ]),
    )
