-- ===== src/Memory/PageTables/RemapSteps.antt =====
-- kernel/src/arch/x86_64/Memory/PageMapIndexer.cpp: what each level of `x86_64_remap_page_noflush` comes to.
use frosty_os_old.Common.Partial.{if_bind}
use frosty_os_old.Common.{ℕ, ◌≡◌, true, false, some, refl}
use frosty_os_old.Memory.PageTables.{
  Memory, present, is_large, put, merged, reach, pml4_index, pdp_index, pd_index, pt_index,
}
use frosty_os_old.Memory.PageTables.Remap.{remap_page, remap_pdp, remap_pd, reflagged}

module _ (v flags : ℕ) (t : Memory) (table : ℕ) where
  pub remap_pd-large :
      present (t table (pd_index v)) ≡ true
      → is_large (t table (pd_index v)) ≡ true
      → remap_pd table v flags t
        ≡ some (put t table (pd_index v) (merged flags (t table (pd_index v))))
  unfolding remap_pd
  remap_pd-large p l = rw (p, l) refl

  abbrev below : Memory
  below = put t table (pd_index v) (merged flags (t table (pd_index v)))

  abbrev last : ℕ
  last = (t table (pd_index v)).address

  pub remap_pd-small :
      present (t table (pd_index v)) ≡ true
      → is_large (t table (pd_index v)) ≡ false
      → reach last ≡ some last
      → remap_pd table v flags t
        ≡ some (put below last (pt_index v) (reflagged flags (below last (pt_index v))))
  unfolding remap_pd
  remap_pd-small p l r = rw (p, l, r) refl

  pub remap_pdp-there :
      present (t table (pdp_index v)) ≡ true
      → reach (t table (pdp_index v)).address ≡ some (t table (pdp_index v)).address
      → remap_pdp table v flags t
        ≡ remap_pd
            (t table (pdp_index v)).address
            v
            flags
            (put t table (pdp_index v) (merged flags (t table (pdp_index v))))
  unfolding remap_pdp
  remap_pdp-there p r =
      if_bind (present (t table (pdp_index v))) (reach (t table (pdp_index v)).address)
        (λ t2.
          remap_pd t2 v flags (put t table (pdp_index v) (merged flags (t table (pdp_index v)))))
        (some t) (t table (pdp_index v)).address p r

  pub remap_page-there :
      present (t table (pml4_index v)) ≡ true
      → reach (t table (pml4_index v)).address ≡ some (t table (pml4_index v)).address
      → remap_page table v flags t
        ≡ remap_pdp
            (t table (pml4_index v)).address
            v
            flags
            (put t table (pml4_index v) (merged flags (t table (pml4_index v))))
  unfolding remap_page
  remap_page-there p r =
      if_bind (present (t table (pml4_index v))) (reach (t table (pml4_index v)).address)
        (λ t3.
          remap_pdp t3 v flags (put t table (pml4_index v) (merged flags (t table (pml4_index v)))))
        (some t) (t table (pml4_index v)).address p r
