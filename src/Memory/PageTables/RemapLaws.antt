-- ===== src/Memory/PageTables/RemapLaws.antt =====
-- kernel/src/arch/x86_64/Memory/PageMapIndexer.cpp: what the walks of the tables give after
-- `x86_64_remap_page_noflush`.
use frosty_os_old.Memory.PageTables.RemapSteps.{
  remap_pd-small, remap_pd-large, remap_pdp-there, remap_page-there,
}
use frosty_os_old.Common.{
  subst, ℕ, ◌≡◌, true, false, List, [], ◌∷◌, some, sym, ◌∙◌, refl, ap, Bool-cases, inl, inr, Option,
}
use frosty_os_old.Memory.PageTables.{
  Entry, Memory, present, is_large, Paging, put, flag, spread, merged, pml4_index, pdp_index,
  pd_index, pt_index, walk,
}
use frosty_os_old.Memory.PageTables.Remap.{remap_page, remap_pdp, remap_pd, reflagged}
use frosty_os_old.Memory.PageTables.Walk.{
  is_leaf, lookup, lookup-Leads, lookup-none, lookup-Alike, page_of, answer, walk-lookup, put_self,
}
use frosty_os_old.Memory.PageTables.Shape.{Role, Shape, Shape-Alike, Shape-Leads}
use frosty_os_old.Memory.PageTables.Put.{lookup-put, Shape-put}
use frosty_os_old.Memory.PageTables.Enter.{put-merged-Alike}

module _ {A : Type 0} (Free : A → ℕ → Type 0) (root flags v : ℕ) (role : Role)
    (on : flag flags 0 ≡ true) (small : flag flags 7 ≡ false) where
  -- What remapping leaves.
  abbrev Remapped : Paging A → Option Memory → Type 0
  Remapped s o =
      (u : Memory) × (o ≡ some u)
      × ((is : List ℕ) → lookup u [] root is ≡ lookup s.tables [] root is)
      × Shape Free root role (record s { tables = u })

  -- Something is found at the entry, so it is present.
  found_present :
      (t : Memory) (path is : List ℕ) (f i : ℕ) (x : ℕ × List ℕ)
      → lookup t path f (i ∷ is) ≡ some (some x)
      → present (t f i) ≡ true
  found_present t path is f i x found = elim (Bool-cases (present (t f i))) [
    | inl p ↦ p
    | inr e ↦ let clash = sym found ∙ lookup-none t path is f i e in cc
  ]

  abbrev merged_at : Paging A → ℕ → ℕ → Paging A
  merged_at s table index = record s {
    tables = put s.tables table index (merged flags (s.tables table index));
  }

  merged-Shape :
      (s : Paging A) (table index : ℕ)
      → Shape Free root role s
      → present (s.tables table index) ≡ true
      → Shape Free root role (merged_at s table index)
  merged-Shape s table index shape p =
      Shape-Alike Free root role s shape (merged_at s table index).tables
        (put-merged-Alike flags small s.tables table index p)

  merged_lookup :
      (s : Paging A) (table index : ℕ)
      → present (s.tables table index) ≡ true
      → (path is : List ℕ) (f : ℕ)
      → lookup (merged_at s table index).tables path f is ≡ lookup s.tables path f is
  merged_lookup s table index p path is f =
      lookup-Alike (merged_at s table index).tables s.tables
        (put-merged-Alike flags small s.tables table index p) path is f

  -- The entry of the last table.
  module _ (s : Paging A) (shape : Shape Free root role s) (t1 i2 i3 i4 : ℕ)
      (role1 : role t1 ≡ some (i2 ∷ i3 ∷ i4 ∷ [])) where
    abbrev changed : Entry
    changed = reflagged flags (s.tables t1 (pt_index v))

    changed-present : present changed ≡ true
    unfolding reflagged spread
    changed-present = rw on refl

    changed-address : changed.address ≡ (s.tables t1 (pt_index v)).address
    unfolding reflagged
    changed-address = refl

    lookup-changed :
        present (s.tables t1 (pt_index v)) ≡ true
        → (is : List ℕ)
        → lookup (put s.tables t1 (pt_index v) changed) (i2 ∷ i3 ∷ i4 ∷ []) t1 (pt_index v ∷ is)
          ≡ lookup s.tables (i2 ∷ i3 ∷ i4 ∷ []) t1 (pt_index v ∷ is)
    unfolding lookup is_leaf
    lookup-changed p is =
        rw (put_self s.tables t1 (pt_index v) changed, changed-present, p)
          (ap (λ a. some (some (a, is))) changed-address)

    leaf-Remapped :
        present (s.tables t1 (pt_index v)) ≡ true
        → Remapped s (some (put s.tables t1 (pt_index v) changed))
    unfolding is_leaf
    leaf-Remapped p = (
      put s.tables t1 (pt_index v) changed,
      refl,
      λ is.
          lookup-put Free root role s shape (i2 ∷ i3 ∷ i4 ∷ []) t1 (pt_index v) role1 changed
            (λ xs. Unit {0}) (λ is good. lookup-changed p is) [] is root shape.rooted tt,
      Shape-put Free root role s shape (i2 ∷ i3 ∷ i4 ∷ []) t1 (pt_index v) role1 changed
          (λ p. refl),
    )

  -- What is left after a level where bits were added.
  merged-Remapped :
      (s : Paging A) (table index : ℕ) (o : Option Memory)
      → present (s.tables table index) ≡ true
      → Remapped (merged_at s table index) o
      → Remapped s o
  merged-Remapped s table index o p (u, e, same, shape) =
      (u, e, λ is. same is ∙ merged_lookup s table index p [] is root, shape)

  pd-Remapped :
      (s : Paging A) (t2 i3 i4 : ℕ) (x : ℕ × List ℕ)
      → Shape Free root role s
      → role t2 ≡ some (i3 ∷ i4 ∷ [])
      → lookup s.tables (i3 ∷ i4 ∷ []) t2 (pd_index v ∷ pt_index v ∷ []) ≡ some (some x)
      → Remapped s (remap_pd t2 v flags s.tables)
  unfolding is_leaf
  pd-Remapped s t2 i3 i4 x shape role2 found =
      let p = found_present s.tables (i3 ∷ i4 ∷ []) (pt_index v ∷ []) t2 (pd_index v) x found in
      let u = merged_at s t2 (pd_index v) in
      let shape_u = merged-Shape s t2 (pd_index v) shape p in
      merged-Remapped s t2 (pd_index v) (remap_pd t2 v flags s.tables) p
        (elim (Bool-cases (is_large (s.tables t2 (pd_index v)))) [
          | inl l ↦ (u.tables, remap_pd-large v flags s.tables t2 p l, λ is. refl, shape_u)
          | inr l ↦
              let leads =
                Shape-Leads Free root role s shape t2 (pd_index v) (i3 ∷ i4 ∷ []) role2 p l in
              let t1 = (s.tables t2 (pd_index v)).address in
              let role1 = shape.closed t2 (pd_index v) (i3 ∷ i4 ∷ []) role2 p l in
              let (alike, l', a') =
                put-merged-Alike flags small s.tables t2 (pd_index v) p t1 (pt_index v) in
              let here = found_present s.tables (pd_index v ∷ i3 ∷ i4 ∷ []) [] t1 (pt_index v) x (
                sym
                  (lookup-Leads s.tables (i3 ∷ i4 ∷ []) (pt_index v ∷ []) t2 (pd_index v) t1 leads)
                ∙ found) in
              let (w, e, same, shape_w) =
                leaf-Remapped u shape_u t1 (pd_index v) i3 i4 role1 (alike ∙ here) in
              (w, remap_pd-small v flags s.tables t2 p l leads.seen ∙ e, same, shape_w)
        ])

  pdp-Remapped :
      (s : Paging A) (t3 i4 : ℕ) (x : ℕ × List ℕ)
      → Shape Free root role s
      → role t3 ≡ some (i4 ∷ [])
      → lookup s.tables (i4 ∷ []) t3 (pdp_index v ∷ pd_index v ∷ pt_index v ∷ []) ≡ some (some x)
      → Remapped s (remap_pdp t3 v flags s.tables)
  unfolding is_leaf
  pdp-Remapped s t3 i4 x shape role3 found =
      let i3 = pdp_index v in
      let rest = pd_index v ∷ pt_index v ∷ [] in
      let p = found_present s.tables (i4 ∷ []) rest t3 i3 x found in
      let leads = Shape-Leads Free root role s shape t3 i3 (i4 ∷ []) role3 p refl in
      let t2 = (s.tables t3 i3).address in
      let here =
        merged_lookup s t3 i3 p (i3 ∷ i4 ∷ []) rest t2
        ∙ sym (lookup-Leads s.tables (i4 ∷ []) rest t3 i3 t2 leads)
        ∙ found in
      merged-Remapped s t3 i3 (remap_pdp t3 v flags s.tables) p (
        subst (Remapped (merged_at s t3 i3))
          (sym (remap_pdp-there v flags s.tables t3 p leads.seen))
          (pd-Remapped (merged_at s t3 i3) t2 i3 i4 x (merged-Shape s t3 i3 shape p)
            (shape.closed t3 i3 (i4 ∷ []) role3 p refl) here))

  -- In tables that hang together, for flags that set the present bit and not the page size bit, and an
  -- address that is mapped: `remap_page` ends, every address is mapped as before, and the same tables
  -- still hang together.
  pub remap_page-walk :
      (s : Paging A) (x : ℕ × List ℕ)
      → Shape Free root role s
      → lookup s.tables [] root (page_of v) ≡ some (some x)
      → (u : Memory) × (remap_page root v flags s.tables ≡ some u)
        × ((w : ℕ) → walk u root w ≡ walk s.tables root w)
        × Shape Free root role (record s { tables = u })
  unfolding is_leaf
  remap_page-walk s x shape found =
      let i4 = pml4_index v in
      let rest = pdp_index v ∷ pd_index v ∷ pt_index v ∷ [] in
      let p = found_present s.tables [] rest root i4 x found in
      let leads = Shape-Leads Free root role s shape root i4 [] shape.rooted p refl in
      let t3 = (s.tables root i4).address in
      let here =
        merged_lookup s root i4 p (i4 ∷ []) rest t3
        ∙ sym (lookup-Leads s.tables [] rest root i4 t3 leads)
        ∙ found in
      let below =
        pdp-Remapped (merged_at s root i4) t3 i4 x (merged-Shape s root i4 shape p)
          (shape.closed root i4 [] shape.rooted p refl) here in
      let (u, e, same, shape_u) =
        merged-Remapped s root i4 (remap_pdp t3 v flags (merged_at s root i4).tables) p below in
      (
        u,
        remap_page-there v flags s.tables root p leads.seen ∙ e,
        λ w.
            walk-lookup u w root
            ∙ ap (answer w) (same (page_of w))
            ∙ sym (walk-lookup s.tables w root),
        shape_u,
      )
