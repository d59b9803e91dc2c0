-- ===== src/Memory/PageTables/UnmapSteps.antt =====
-- kernel/src/arch/x86_64/Memory/PageMapIndexer.cpp: what the upper levels of `x86_64_unmap_page_noflush`
-- come to.
use frosty_os_old.Common.Partial.{◌>>=◌, if_bind, if_else}
use frosty_os_old.Common.{ℕ, ◌≡◌, true, false, some}
use frosty_os_old.Memory.PageTables.{◌>>=◌, present, Frames, Paging, reach, pml4_index, pdp_index}
use frosty_os_old.Memory.PageTables.Unmap.{unmap_page, unmap_pdp, unmap_pd}

module _ {A : Type 0} (fr : Frames A) (hhdm_start root v : ℕ) (s : Paging A) where
  pub unmap_page-there :
      present (s.tables root (pml4_index v)) ≡ true
      → reach (s.tables root (pml4_index v)).address ≡ some (s.tables root (pml4_index v)).address
      → unmap_page fr hhdm_start root v s
        ≡ unmap_pdp fr hhdm_start root (s.tables root (pml4_index v)).address v s
  unfolding unmap_page
  unmap_page-there p r =
      if_bind (present (s.tables root (pml4_index v)))
        (reach (s.tables root (pml4_index v)).address) (λ t3. unmap_pdp fr hhdm_start root t3 v s)
        (some s) (s.tables root (pml4_index v)).address p r

  pub unmap_page-absent :
      present (s.tables root (pml4_index v)) ≡ false → unmap_page fr hhdm_start root v s ≡ some s
  unfolding unmap_page
  unmap_page-absent e =
      if_else (present (s.tables root (pml4_index v)))
        (reach (s.tables root (pml4_index v)).address >>= λ t3. unmap_pdp fr hhdm_start root t3 v s)
        (some s) e

  pub unmap_pdp-there :
      (t3 : ℕ)
      → present (s.tables t3 (pdp_index v)) ≡ true
      → reach (s.tables t3 (pdp_index v)).address ≡ some (s.tables t3 (pdp_index v)).address
      → unmap_pdp fr hhdm_start root t3 v s
        ≡ unmap_pd fr hhdm_start root t3 (s.tables t3 (pdp_index v)).address v s
  unfolding unmap_pdp
  unmap_pdp-there t3 p r =
      if_bind (present (s.tables t3 (pdp_index v))) (reach (s.tables t3 (pdp_index v)).address)
        (λ t2. unmap_pd fr hhdm_start root t3 t2 v s) (some s) (s.tables t3 (pdp_index v)).address p
        r

  pub unmap_pdp-absent :
      (t3 : ℕ)
      → present (s.tables t3 (pdp_index v)) ≡ false
      → unmap_pdp fr hhdm_start root t3 v s ≡ some s
  unfolding unmap_pdp
  unmap_pdp-absent t3 e =
      if_else (present (s.tables t3 (pdp_index v)))
        (reach (s.tables t3 (pdp_index v)).address >>= λ t2. unmap_pd fr hhdm_start root t3 t2 v s)
        (some s) e
