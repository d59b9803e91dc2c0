-- ===== src/Memory/PageTables/Remap.antt =====
-- kernel/src/arch/x86_64/Memory/PageMapIndexer.cpp: the flags of a mapped page are changed.
use frosty_os_old.Common.{ℕ, if◌then◌else◌, Option, some}
use frosty_os_old.Common.Partial.{◌>>=◌}
use frosty_os_old.Memory.PageTables.{
  Entry, Memory, put, present, is_large, merged, spread, pml4_index, pdp_index, pd_index, pt_index,
  reach,
}

-- An entry with other flags and the address it had.
unfoldable pub reflagged : ℕ → Entry → Entry
unfolding spread
reflagged flags e = record { bit = spread 27 flags; address = e.address }

-- `x86_64_remap_page_noflush`, from the page directory down.
unfoldable pub remap_pd : ℕ → ℕ → ℕ → Memory → Option Memory
unfolding merged reach reflagged
remap_pd t2 v flags t =
    let e2 = t t2 (pd_index v) in
    let u = put t t2 (pd_index v) (merged flags e2) in
    let leaf = (do
      t1 ← reach e2.address
      some (put u t1 (pt_index v) (reflagged flags (u t1 (pt_index v))))) in
    if present e2 then if is_large e2 then some u else leaf else some t

unfoldable pub remap_pdp : ℕ → ℕ → ℕ → Memory → Option Memory
unfolding merged reach remap_pd
remap_pdp t3 v flags t =
    let e3 = t t3 (pdp_index v) in
    let rest = (do
      t2 ← reach e3.address
      remap_pd t2 v flags (put t t3 (pdp_index v) (merged flags e3))) in
    if present e3 then rest else some t

-- `x86_64_remap_page_noflush`
unfoldable pub remap_page : ℕ → ℕ → ℕ → Memory → Option Memory
unfolding merged reach remap_pdp
remap_page root v flags t =
    let e4 = t root (pml4_index v) in
    let rest = (do
      t3 ← reach e4.address
      remap_pdp t3 v flags (put t root (pml4_index v) (merged flags e4))) in
    if present e4 then rest else some t
