-- ===== src/Memory/PageTables.antt =====
-- kernel/src/arch/x86_64/Memory/PageMapIndexer.cpp, with PageTables.hpp: the four levels of page tables. A
-- table is known by the number of its page frame; the caches of translations are not modelled.
pub mod Shape
pub mod Enter
pub mod Link
pub mod Map
pub mod Put
pub mod MapLaws
pub mod Direct
pub mod Walk
pub mod Remap
pub mod RemapSteps
pub mod RemapLaws
pub mod Large
pub mod LargeLaws
pub mod Unmap
pub mod Drop
pub mod UnmapSteps
pub mod UnmapLaws
use frosty_os_old.Common.{
  ℕ, ◌+◌, ◌-◌, ◌*◌, ◌/◌, ◌%◌, ◌^◌, ◌==◌, ltb, leb, Bool, true, false, ◌&&◌, ◌||◌, if◌then◌else◌,
  Option, none, some, update,
}
use frosty_os_old.Common.Partial.{◌>>=◌}

-- An entry: the address of a frame as its number, and the bits 0 to 11 and 52 to 63 around it.
pub record Entry : Type 0 where
  pub bit : ℕ → Bool
  pub address : ℕ

abbrev pub present : Entry → Bool
present e = e.bit 0

-- `PageSize`
abbrev pub is_large : Entry → Bool
is_large e = e.bit 7

-- `memset` of zeros
abbrev pub zero_entry : Entry
zero_entry = record { bit = λ k. false; address = 0 }

-- A bit of `flags`.
unfoldable pub flag : ℕ → ℕ → Bool
flag flags k = flags / 2 ^ k % 2 == 1

-- Where the bits of `flags` go in an entry: 0 to 11 as they are, 16 to `last` to 52 and on.
unfoldable pub spread : ℕ → ℕ → ℕ → Bool
unfolding flag
spread last flags k =
    if ltb k 12 then flag flags k else leb 52 k && leb k (last + 36) && flag flags (k - 36)

-- The indices in a virtual address.
abbrev pub pml4_index : ℕ → ℕ
pml4_index v = v / 2 ^ 39 % 512

abbrev pub pdp_index : ℕ → ℕ
pdp_index v = v / 2 ^ 30 % 512

abbrev pub pd_index : ℕ → ℕ
pd_index v = v / 2 ^ 21 % 512

abbrev pub pt_index : ℕ → ℕ
pt_index v = v / 2 ^ 12 % 512

-- The frames that tables are made of: `AllocatePage`, with the address of the page, and `FreePage`;
-- `none` where they do not return.
pub record Frames (A : Type 0) : Type 0 where
  pub allocate_page : A → Option (ℕ × A)
  pub free_page : ℕ → A → Option A

pub record Paging (A : Type 0) : Type 0 where
  pub tables : ℕ → ℕ → Entry
  pub frames : A

-- `x86_64_to_HHDM`
unfoldable pub to_hhdm : ℕ → ℕ → ℕ
to_hhdm hhdm_start physaddr =
    if ltb physaddr 4096
    then 0
    else if ltb (2 ^ 39 - 1) physaddr
    then physaddr
    else (physaddr + hhdm_start) % 2 ^ 64

-- The table in a frame is reached through the HHDM: not through null, nor past 512 GiB.
unfoldable pub reach : ℕ → Option ℕ
reach frame = if frame == 0 then none else if leb (2 ^ 27) frame then none else some frame

-- The entries of every table.
abbrev pub Memory : Type 0
Memory = ℕ → ℕ → Entry

abbrev pub put : Memory → ℕ → ℕ → Entry → Memory
put t table index e = update t table (update (t table) index e)

module _ {A : Type 0} where
  abbrev pub write : ℕ → ℕ → Entry → Paging A → Paging A
  write table index e s = record s { tables = put s.tables table index e }

  -- All entries of a table.
  abbrev pub clear_table : ℕ → Paging A → Paging A
  clear_table table s = record s { tables = update s.tables table (λ i. zero_entry) }

-- `temp |= flags & 0xFFF; temp |= (uint64_t)(flags & 0x7FF0000) << 36`
unfoldable pub merged : ℕ → Entry → Entry
unfolding spread
merged flags e = record e { bit = λ k. e.bit k || spread 26 flags k }

-- An entry for a new table.
unfoldable pub linking : ℕ → ℕ → Entry
unfolding spread
linking flags page = record {
  bit = λ k. if k == 0 then true else spread 26 flags k;
  address = page / 4096 % 2 ^ 40;
}

-- An entry for a page.
unfoldable pub mapping : ℕ → ℕ → Entry
unfolding spread
mapping flags physical = record { bit = spread 27 flags; address = physical / 4096 % 2 ^ 40 }

module _ {A : Type 0} (fr : Frames A) where
  -- One level of `x86_64_map_page_noflush`: the entry on the way to the next table.
  unfoldable pub enter : ℕ → ℕ → ℕ → Paging A → Option (Entry × Paging A)
  unfolding merged linking reach
  enter flags table index s =
      let e = s.tables table index in
      let link = (do
        (page, a) ← fr.allocate_page s.frames
        next ← reach (linking flags page).address
        some (
          linking flags page,
          write table index (linking flags page) (clear_table next (record s { frames = a })),
        )) in
      if present e then some (e, write table index (merged flags e) s) else link

  -- The last level: the entry of the page in the table that the entry of the page directory names.
  unfoldable pub map_leaf : ℕ → ℕ → ℕ → Entry → Paging A → Option (Paging A)
  unfolding reach mapping
  map_leaf physical v flags e2 s =
      let mapped = (do
        t1 ← reach e2.address
        some (write t1 (pt_index v) (mapping flags physical) s)) in
      if is_large e2 then some s else mapped

  -- `x86_64_map_page_noflush`
  unfoldable pub map_page : ℕ → ℕ → ℕ → ℕ → Paging A → Option (Paging A)
  unfolding enter reach map_leaf
  map_page root physical v flags s = do
    (e4, s4) ← enter flags root (pml4_index v) s
    t3 ← reach e4.address
    (e3, s3) ← enter flags t3 (pdp_index v) s4
    t2 ← reach e3.address
    (e2, s2) ← enter flags t2 (pd_index v) s3
    map_leaf physical v flags e2 s2

-- What the kernel and the HHDM are mapped to, and the bounds of these.
pub record Layout : Type 0 where
  pub kernel_virtual : ℕ
  pub kernel_physical : ℕ
  pub kernel_length : ℕ
  pub hhdm_start : ℕ

-- The part of `x86_64_get_physaddr` that walks the tables, from the last of them up: 0 for null,
-- `none` for an access through null.
unfoldable pub walk_pt : (ℕ → ℕ → Entry) → ℕ → ℕ → Option ℕ
walk_pt tables table v =
    let e1 = tables table (pt_index v) in
    if present e1 then some (e1.address * 4096 + v % 4096) else some 0

unfoldable pub walk_pd : (ℕ → ℕ → Entry) → ℕ → ℕ → Option ℕ
unfolding reach walk_pt
walk_pd tables table v =
    let e2 = tables table (pd_index v) in
    if present e2
    then if is_large e2
      then some (e2.address / 512 * 2 ^ 21 + pt_index v * 4096 + v % 4096)
      else (reach e2.address >>= λ t1. walk_pt tables t1 v)
    else some 0

unfoldable pub walk_pdp : (ℕ → ℕ → Entry) → ℕ → ℕ → Option ℕ
unfolding reach walk_pd
walk_pdp tables table v =
    let e3 = tables table (pdp_index v) in
    if present e3 then (reach e3.address >>= λ t2. walk_pd tables t2 v) else some 0

unfoldable pub walk : (ℕ → ℕ → Entry) → ℕ → ℕ → Option ℕ
unfolding reach walk_pdp
walk tables root v =
    let e4 = tables root (pml4_index v) in
    if present e4 then (reach e4.address >>= λ t3. walk_pdp tables t3 v) else some 0

-- `x86_64_get_physaddr`, 0 for null.
unfoldable pub get_physaddr : Layout → (ℕ → ℕ → Entry) → ℕ → ℕ → Option ℕ
unfolding walk
get_physaddr l tables root v =
    if leb l.kernel_virtual v && ltb v ((l.kernel_virtual + l.kernel_length) % 2 ^ 64)
    then some ((v + (2 ^ 64 - l.kernel_virtual) + l.kernel_physical) % 2 ^ 64)
    else if leb l.hhdm_start v && ltb v ((l.hhdm_start + 2 ^ 32) % 2 ^ 64)
    then some (v - l.hhdm_start)
    else walk tables root v
