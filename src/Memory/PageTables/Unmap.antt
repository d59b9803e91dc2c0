-- ===== src/Memory/PageTables/Unmap.antt =====
-- kernel/src/arch/x86_64/Memory/PageMapIndexer.cpp: pages are unmapped, and tables that nothing is mapped
-- through any more are dropped.
use frosty_os_old.Common.{
  ℕ, zero, suc, ◌+◌, ◌*◌, ◌==◌, Bool, true, false, if◌then◌else◌, Option, some,
}
use frosty_os_old.Common.Partial.{◌>>=◌}
use frosty_os_old.Memory.PageTables.{
  Entry, Frames, Paging, write, present, is_large, zero_entry, pml4_index, pdp_index, pd_index,
  pt_index, reach, to_hhdm,
}

-- Whether one of the entries from `i` on is present, of which `n` are looked at.
unfoldable pub any_present : ℕ → ℕ → (ℕ → Entry) → Bool
any_present zero i entries = false
any_present (suc n) i entries =
    let rest = any_present n (i + 1) entries in if present (entries i) then true else rest

-- `Present = 0`
unfoldable pub absent_entry : Entry → Entry
absent_entry e = record e { bit = λ k. if k == 0 then false else e.bit k }

module _ {A : Type 0} (fr : Frames A) (hhdm_start : ℕ) where
  -- A table with no present entry is given back and the entry for it is no more present. `FreePage` gets
  -- the address of the table in the HHDM.
  unfoldable pub drop_table : ℕ → ℕ → ℕ → Paging A → Option (Paging A)
  unfolding any_present absent_entry to_hhdm
  drop_table table parent index s =
      let drop = (do
        a ← fr.free_page (to_hhdm hhdm_start (table * 4096)) s.frames
        some (
            write parent index (absent_entry (s.tables parent index)) (record s { frames = a }))) in
      if any_present 512 0 (s.tables table) then some s else drop

  -- The entry is cleared, and the tables dropped from the last one up.
  unfoldable pub unmap_pt : ℕ → ℕ → ℕ → ℕ → ℕ → Paging A → Option (Paging A)
  unfolding drop_table
  unmap_pt root t3 t2 t1 v s = do
    s1 ← drop_table t1 t2 (pd_index v) (write t1 (pt_index v) zero_entry s)
    s2 ← drop_table t2 t3 (pdp_index v) s1
    drop_table t3 root (pml4_index v) s2

  unfoldable pub unmap_pd : ℕ → ℕ → ℕ → ℕ → Paging A → Option (Paging A)
  unfolding reach unmap_pt
  unmap_pd root t3 t2 v s =
      let e2 = s.tables t2 (pd_index v) in
      let rest = (reach e2.address >>= λ t1. unmap_pt root t3 t2 t1 v s) in
      if present e2 then if is_large e2 then some s else rest else some s

  unfoldable pub unmap_pdp : ℕ → ℕ → ℕ → Paging A → Option (Paging A)
  unfolding reach unmap_pd
  unmap_pdp root t3 v s =
      let e3 = s.tables t3 (pdp_index v) in
      let rest = (reach e3.address >>= λ t2. unmap_pd root t3 t2 v s) in
      if present e3 then rest else some s

  -- `x86_64_unmap_page_noflush`
  unfoldable pub unmap_page : ℕ → ℕ → Paging A → Option (Paging A)
  unfolding reach unmap_pdp
  unmap_page root v s =
      let e4 = s.tables root (pml4_index v) in
      let rest = (reach e4.address >>= λ t3. unmap_pdp root t3 v s) in
      if present e4 then rest else some s

  -- `x86_64_unmap_large_page_noflush`: both entries cleared at the end are those of the level 3 table.
  unfoldable pub unmap_large_pdp : ℕ → ℕ → Paging A → Option (Paging A)
  unfolding reach drop_table
  unmap_large_pdp t3 v s =
      let e3 = s.tables t3 (pdp_index v) in
      let rest = (do
        t2 ← reach e3.address
        s1 ← drop_table t2 t3 (pdp_index v) (write t2 (pd_index v) zero_entry s)
        drop_table t3 t3 (pdp_index v) s1) in
      if present e3 then rest else some s

  unfoldable pub unmap_large_page : ℕ → ℕ → Paging A → Option (Paging A)
  unfolding reach unmap_large_pdp
  unmap_large_page root v s =
      let e4 = s.tables root (pml4_index v) in
      let rest = (reach e4.address >>= λ t3. unmap_large_pdp t3 v s) in
      if present e4 then rest else some s
