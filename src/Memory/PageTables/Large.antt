-- ===== src/Memory/PageTables/Large.antt =====
-- kernel/src/arch/x86_64/Memory/PageMapIndexer.cpp: large pages, of 2 MiB, are mapped and their flags changed.
use frosty_os_old.Common.{ℕ, ◌+◌, ◌*◌, ◌/◌, ◌%◌, ◌^◌, ◌==◌, true, if◌then◌else◌, Option, some}
use frosty_os_old.Common.Partial.{◌>>=◌}
use frosty_os_old.Memory.PageTables.{
  Entry, Memory, Frames, Paging, put, write, present, merged, spread, flag, pml4_index, pdp_index,
  pd_index, reach, enter,
}
use frosty_os_old.Memory.PageTables.Remap.{reflagged}

-- An entry for a large page: the bits 21 to 51 are its number, the bit 12 is one more bit of `flags`.
unfoldable pub mapping_large : ℕ → ℕ → Entry
unfolding spread flag
mapping_large flags physical = record {
  bit = λ k. if k == 7 then true else spread 27 flags k;
  address = physical / 2 ^ 21 % 2 ^ 31 * 512 + (if flag flags 12 then 1 else 0);
}

-- `x86_64_map_large_page_noflush`
module _ {A : Type 0} (fr : Frames A) where
  unfoldable pub map_large_page : ℕ → ℕ → ℕ → ℕ → Paging A → Option (Paging A)
  unfolding enter reach mapping_large
  map_large_page root physical v flags s = do
    (e4, s4) ← enter fr flags root (pml4_index v) s
    t3 ← reach e4.address
    (e3, s3) ← enter fr flags t3 (pdp_index v) s4
    t2 ← reach e3.address
    some (write t2 (pd_index v) (mapping_large flags physical) s3)

unfoldable pub remap_large_pdp : ℕ → ℕ → ℕ → Memory → Option Memory
unfolding merged reach reflagged
remap_large_pdp t3 v flags t =
    let e3 = t t3 (pdp_index v) in
    let u = put t t3 (pdp_index v) (merged flags e3) in
    let rest = (do
      t2 ← reach e3.address
      some (put u t2 (pd_index v) (reflagged flags (u t2 (pd_index v))))) in
    if present e3 then rest else some t

-- `x86_64_remap_large_page_noflush`
unfoldable pub remap_large_page : ℕ → ℕ → ℕ → Memory → Option Memory
unfolding merged reach remap_large_pdp
remap_large_page root v flags t =
    let e4 = t root (pml4_index v) in
    let rest = (do
      t3 ← reach e4.address
      remap_large_pdp t3 v flags (put t root (pml4_index v) (merged flags e4))) in
    if present e4 then rest else some t
