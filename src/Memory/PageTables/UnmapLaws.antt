-- ===== src/Memory/PageTables/UnmapLaws.antt =====
-- kernel/src/arch/x86_64/Memory/PageMapIndexer.cpp: what the walks of the tables give after
-- `x86_64_unmap_page_noflush`.
use frosty_os_old.Memory.PageTables.UnmapSteps.{
  unmap_page-there, unmap_pdp-there, unmap_page-absent, unmap_pdp-absent,
}
use frosty_os_old.Common.{
  subst, Option, none, ℕ, ◌+◌, ◌^◌, ◌≤◌, ◌≡◌, ◌≢◌, inl, inr, true, List, [], ◌∷◌, some, sym, ◌∙◌,
  refl, ap, arith, Bool-cases,
}
use frosty_os_old.Memory.PageTables.{
  present, is_large, Frames, Paging, write, zero_entry, pml4_index, pdp_index, pd_index, pt_index,
  walk,
}
use frosty_os_old.Memory.PageTables.Unmap.{unmap_page, unmap_pdp, unmap_pd, unmap_pt}
use frosty_os_old.Memory.PageTables.Drop.{FreeLaws, Small, Dropped, drop}
use frosty_os_old.Memory.PageTables.Walk.{
  is_leaf, Leads, lookup, put_self, lookup-Leads, lookup-none, page_of, answer, walk-lookup,
}
use frosty_os_old.Memory.PageTables.Shape.{Shape-Leads, Role, Shape}
use frosty_os_old.Memory.PageTables.Put.{lookup_elsewhere, Shape-put, Leads-put}
use frosty_os_old.Memory.PageTables.MapLaws.{same_page, IsLargePage}

module _ {A : Type 0} (fr : Frames A) (Free : A → ℕ → Type 0) (laws : FreeLaws fr Free)
    (hhdm_start root v : ℕ) (role : Role) (s : Paging A) (lo : 2 ^ 39 ≤ hhdm_start)
    (hi : hhdm_start + 2 ^ 39 ≤ 2 ^ 64) (shape : Shape Free root role s) where
  abbrev i4 : ℕ
  i4 = pml4_index v

  abbrev i3 : ℕ
  i3 = pdp_index v

  abbrev i2 : ℕ
  i2 = pd_index v

  abbrev i1 : ℕ
  i1 = pt_index v

  -- What unmapping leaves.
  abbrev Unmapped : Option (Paging A) → Type 0
  Unmapped o =
      (t : Paging A) × (o ≡ some t)
      × (lookup t.tables [] root (page_of v) ≡ some none)
      × ((w : ℕ)
          → page_of v ≢ page_of w
          → lookup t.tables [] root (page_of w) ≡ lookup s.tables [] root (page_of w))
      × Shape Free root role t

  page_of-Small : (w : ℕ) → Small (page_of w)
  page_of-Small w = (omega arith, (omega arith, (omega arith, (omega arith, tt))))

  -- Nothing is done where nothing is mapped.
  Unmapped-already : lookup s.tables [] root (page_of v) ≡ some none → Unmapped (some s)
  Unmapped-already e = (s, refl, e, λ w ne. refl, shape)

  module _ (t3 : ℕ) (lead4 : Leads s.tables [] root i4 t3) (role3 : role t3 ≡ some (i4 ∷ [])) where
    module _ (t2 : ℕ) (lead3 : Leads s.tables (i4 ∷ []) t3 i3 t2)
        (role2 : role t2 ≡ some (i3 ∷ i4 ∷ [])) where
      module _ (t1 : ℕ) (lead2 : Leads s.tables (i3 ∷ i4 ∷ []) t2 i2 t1)
          (role1 : role t1 ≡ some (i2 ∷ i3 ∷ i4 ∷ [])) where
        abbrev cleared : Paging A
        cleared = write t1 i1 zero_entry s

        cleared-Shape : Shape Free root role cleared
        cleared-Shape =
            Shape-put Free root role s shape (i2 ∷ i3 ∷ i4 ∷ []) t1 i1 role1 zero_entry (λ p. cc)

        keep :
            (f i n : ℕ) (q : List ℕ)
            → role f ≡ some q
            → q ≢ i2 ∷ i3 ∷ i4 ∷ []
            → Leads s.tables q f i n
            → Leads cleared.tables q f i n
        keep = Leads-put Free root role s shape (i2 ∷ i3 ∷ i4 ∷ []) t1 i1 role1 zero_entry

        cleared-lookup : lookup cleared.tables [] root (page_of v) ≡ some none
        cleared-lookup =
            lookup-Leads cleared.tables [] (i3 ∷ i2 ∷ i1 ∷ []) root i4 t3
              (keep root i4 t3 [] shape.rooted (λ e. cc) lead4)
            ∙ lookup-Leads cleared.tables (i4 ∷ []) (i2 ∷ i1 ∷ []) t3 i3 t2
                (keep t3 i3 t2 (i4 ∷ []) role3 (λ e. cc) lead3)
            ∙ lookup-Leads cleared.tables (i3 ∷ i4 ∷ []) (i1 ∷ []) t2 i2 t1
                (keep t2 i2 t1 (i3 ∷ i4 ∷ []) role2 (λ e. cc) lead2)
            ∙ lookup-none cleared.tables (i2 ∷ i3 ∷ i4 ∷ []) [] t1 i1
                (ap (λ e. present e) (put_self s.tables t1 i1 zero_entry))

        first : Dropped fr Free hhdm_start root t1 t2 i2 (i3 ∷ i4 ∷ []) role cleared
        first =
            drop fr Free laws hhdm_start root t1 t2 i2 (i3 ∷ i4 ∷ []) role cleared lo hi
              cleared-Shape role2 (keep t2 i2 t1 (i3 ∷ i4 ∷ []) role2 (λ e. cc) lead2)

        second : Dropped fr Free hhdm_start root t2 t3 i3 (i4 ∷ []) role first.after
        second =
            drop fr Free laws hhdm_start root t2 t3 i3 (i4 ∷ []) role first.after lo hi first.shape
              role3
              (first.leads t3 i3 t2 (i4 ∷ []) role3 (λ e. cc)
                (keep t3 i3 t2 (i4 ∷ []) role3 (λ e. cc) lead3))

        third : Dropped fr Free hhdm_start root t3 root i4 [] role second.after
        third =
            drop fr Free laws hhdm_start root t3 root i4 [] role second.after lo hi second.shape
              shape.rooted
              (second.leads root i4 t3 [] shape.rooted (λ e. cc)
                (first.leads root i4 t3 [] shape.rooted (λ e. cc)
                  (keep root i4 t3 [] shape.rooted (λ e. cc) lead4)))

        back :
            (is : List ℕ)
            → Small is
            → lookup third.after.tables [] root is ≡ lookup cleared.tables [] root is
        back is small = third.lookups is small ∙ second.lookups is small ∙ first.lookups is small

        unmap_pt-Unmapped : Unmapped (unmap_pt fr hhdm_start root t3 t2 t1 v s)
        unfolding unmap_pt
        unmap_pt-Unmapped = (
          third.after,
          rw (first.runs, second.runs, third.runs) refl,
          back (page_of v) (page_of-Small v) ∙ cleared-lookup,
          λ w ne.
              back (page_of w) (page_of-Small w)
              ∙ lookup_elsewhere Free root role s shape (i2 ∷ i3 ∷ i4 ∷ []) t1 i1 role1 zero_entry
                  (page_of w) (λ rest e. ne (same_page i4 i3 i2 i1 (page_of w) rest refl e)),
          third.shape,
        )

      come_to_pd :
          lookup s.tables [] root (page_of v) ≡ lookup s.tables (i3 ∷ i4 ∷ []) t2 (i2 ∷ i1 ∷ [])
      come_to_pd =
          lookup-Leads s.tables [] (i3 ∷ i2 ∷ i1 ∷ []) root i4 t3 lead4
          ∙ lookup-Leads s.tables (i4 ∷ []) (i2 ∷ i1 ∷ []) t3 i3 t2 lead3

      large_here :
          present (s.tables t2 i2) ≡ true
          → is_large (s.tables t2 i2) ≡ true
          → IsLargePage s.tables root v (s.tables t2 i2).address
      unfolding lookup is_leaf
      large_here p l = come_to_pd ∙ rw (p, l) refl

      unmap_pd-Unmapped :
          ((a : ℕ) → ¬ IsLargePage s.tables root v a)
          → Unmapped (unmap_pd fr hhdm_start root t3 t2 v s)
      unfolding unmap_pd is_leaf
      unmap_pd-Unmapped none_large = elim (Bool-cases (present (s.tables t2 i2))) [
        | inr e ↦
            rw e (
              Unmapped-already (come_to_pd ∙ lookup-none s.tables (i3 ∷ i4 ∷ []) (i1 ∷ []) t2 i2 e))
        | inl p ↦ elim (Bool-cases (is_large (s.tables t2 i2))) [
          | inl l ↦ elim (none_large (s.tables t2 i2).address (large_here p l)) [ ]
          | inr l ↦
              let lead2 = Shape-Leads Free root role s shape t2 i2 (i3 ∷ i4 ∷ []) role2 p l in
              rw (p, l, lead2.seen)
                (unmap_pt-Unmapped (s.tables t2 i2).address lead2
                  (shape.closed t2 i2 (i3 ∷ i4 ∷ []) role2 p l))
        ]
      ]

    unmap_pdp-Unmapped :
        ((a : ℕ) → ¬ IsLargePage s.tables root v a) → Unmapped (unmap_pdp fr hhdm_start root t3 v s)
    unfolding is_leaf
    unmap_pdp-Unmapped none_large = elim (Bool-cases (present (s.tables t3 i3))) [
      | inr e ↦ subst Unmapped (sym (unmap_pdp-absent fr hhdm_start root v s t3 e)) (
          Unmapped-already (
            lookup-Leads s.tables [] (i3 ∷ i2 ∷ i1 ∷ []) root i4 t3 lead4
            ∙ lookup-none s.tables (i4 ∷ []) (i2 ∷ i1 ∷ []) t3 i3 e))
      | inl p ↦
          let lead3 = Shape-Leads Free root role s shape t3 i3 (i4 ∷ []) role3 p refl in
          subst Unmapped (sym (unmap_pdp-there fr hhdm_start root v s t3 p lead3.seen)) (
            unmap_pd-Unmapped (s.tables t3 i3).address lead3
              (shape.closed t3 i3 (i4 ∷ []) role3 p refl) none_large)
    ]

  unmap_page-Unmapped :
      ((a : ℕ) → ¬ IsLargePage s.tables root v a) → Unmapped (unmap_page fr hhdm_start root v s)
  unfolding is_leaf
  unmap_page-Unmapped none_large = elim (Bool-cases (present (s.tables root i4))) [
    | inr e ↦
        subst Unmapped (sym (unmap_page-absent fr hhdm_start root v s e))
          (Unmapped-already (lookup-none s.tables [] (i3 ∷ i2 ∷ i1 ∷ []) root i4 e))
    | inl p ↦
        let lead4 = Shape-Leads Free root role s shape root i4 [] shape.rooted p refl in
        subst Unmapped (sym (unmap_page-there fr hhdm_start root v s p lead4.seen)) (
          unmap_pdp-Unmapped (s.tables root i4).address lead4
            (shape.closed root i4 [] shape.rooted p refl) none_large)
  ]

  -- In tables that hang together, for an address that no large page maps, mapped or not, where pages can be
  -- given back and the HHDM begins at 512 GiB or above and has 512 GiB: `unmap_page` ends, the address is
  -- then not mapped, every address of another page is mapped as before, and the same tables still hang
  -- together, none of them a free frame.
  pub unmap_page-walk :
      ((a : ℕ) → ¬ IsLargePage s.tables root v a)
      → (t : Paging A) × (unmap_page fr hhdm_start root v s ≡ some t)
        × (walk t.tables root v ≡ some 0)
        × ((w : ℕ) → page_of v ≢ page_of w → walk t.tables root w ≡ walk s.tables root w)
        × Shape Free root role t
  unfolding answer
  unmap_page-walk none_large =
      let (t, runs, none_there, others, shape_after) = unmap_page-Unmapped none_large in
      (
        t,
        runs,
        walk-lookup t.tables v root ∙ ap (answer v) none_there,
        λ w ne.
            walk-lookup t.tables w root
            ∙ ap (answer w) (others w ne)
            ∙ sym (walk-lookup s.tables w root),
        shape_after,
      )
