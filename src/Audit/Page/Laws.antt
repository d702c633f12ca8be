-- ===== src/Audit/Page/Laws.antt =====
-- What the page lists.
use rust_auth_example.Base.{
  false, Option, none, some, List, [], ◌∷◌, ◌++◌, ◌≡◌, ◌↔◌, ◌⊎◌, inl, inr, refl, arith,
}
use mathlib.Core.List.{Memᴰ}
use rust_auth_example.Audit.{AuditLogRow}
use rust_auth_example.Audit.Tail as Tail
use rust_auth_example.Audit.Facets.{Admits, mem-filtered_iff}
use rust_auth_example.Audit.Page.{
  AuditPage, Facets, Event, clear_filters, toggle_live, retry, load_settled, follow_changed,
  streamed, rows, table_rows, step, run, mount,
}

mem-append_iff :
    (row : AuditLogRow) (xs ys : List AuditLogRow)
    → Memᴰ row (xs ++ ys) ↔ (Memᴰ row xs ⊎ Memᴰ row ys)
mem-append_iff row [] ys = (λ m. inr m, λ w. elim w [ inl m ↦ elim m [ ] | inr m ↦ m ])
mem-append_iff row (x ∷ xs) ys =
    (to (mem-append_iff row xs ys).0, from (mem-append_iff row xs ys).1)
  where
    to :
        (Memᴰ row (xs ++ ys) → Memᴰ row xs ⊎ Memᴰ row ys)
        → Memᴰ row (x ∷ (xs ++ ys))
        → Memᴰ row (x ∷ xs) ⊎ Memᴰ row ys
    to ih (Memᴰ.head same) = inl (Memᴰ.head same)
    to ih (Memᴰ.tail later) = elim (ih later) [ inl m ↦ inl (Memᴰ.tail m) | inr m ↦ inr m ]

    from :
        (Memᴰ row xs ⊎ Memᴰ row ys → Memᴰ row (xs ++ ys))
        → Memᴰ row (x ∷ xs) ⊎ Memᴰ row ys
        → Memᴰ row (x ∷ (xs ++ ys))
    from ih (inl (Memᴰ.head same)) = Memᴰ.head same
    from ih (inl (Memᴰ.tail later)) = Memᴰ.tail (ih (inl later))
    from ih (inr m) = Memᴰ.tail (ih (inr m))

-- The table lists exactly the rows that were loaded or streamed and that every set facet names.
pub mem-table_rows_iff :
    (row : AuditLogRow) (s : AuditPage)
    → Memᴰ row (table_rows s) ↔ (
        (Memᴰ row s.page_rows ⊎ Memᴰ row s.tail.rows)
        × Admits s.facets.actor row.actor
        × Admits s.facets.event row.event)
unfolding table_rows rows
mem-table_rows_iff row s =
    let (to, from) = mem-filtered_iff s.facets.actor s.facets.event row (rows s) in
    let (split, join) = mem-append_iff row s.page_rows s.tail.rows in
    (λ m. (split (to m).0, (to m).1, (to m).2), λ w. from (join w.0, w.1, w.2))

step_live :
    (e : Event) (s : AuditPage)
    → s.tail.is_open ≡ s.live
    → (step e s).tail.is_open ≡ (step e s).live
unfolding step Tail.step
step_live clear_filters s h = h
step_live toggle_live s h = refl
step_live retry s h = h
step_live (load_settled outcome) s h = ground arith
step_live (follow_changed next) s h = h
step_live (streamed none) s h = ground arith
step_live (streamed (some row)) s h = ground arith

run_live_from :
    (es : List Event) (s : AuditPage)
    → s.tail.is_open ≡ s.live
    → (run es s).tail.is_open ≡ (run es s).live
unfolding run
run_live_from [] s h = h
run_live_from (e ∷ es) s h = run_live_from es (step e s) (step_live e s h)

-- Over any events, the stream is open exactly while the button says "Live".
run-mount_live :
    (es : List Event) (facets : Facets)
    → (run es (mount facets)).tail.is_open ≡ (run es (mount facets)).live
unfolding mount Tail.initial
run-mount_live es facets = run_live_from es (mount facets) refl

step_paused_rows :
    (item : Option AuditLogRow) (s : AuditPage)
    → s.tail.is_open ≡ s.live
    → s.live ≡ false
    → table_rows (step (streamed item) s) ≡ table_rows s
unfolding table_rows rows step Tail.step
step_paused_rows item s h p = rw (h, p) refl
