-- ===== src/Memory/PageTable.antt =====
-- kernel/src/Memory/PageTable.cpp: the page table of the kernel or of a process, over the operations on the
-- tables. The shootdowns of the translations that other processors hold are kept as a list of their ranges.
pub mod Laws
pub mod Start
use frosty_os_old.Common.{
  ◌&&◌, ltb, ◌/◌, update, ℕ, ◌+◌, ◌*◌, ◌^◌, Bool, true, false, if◌then◌else◌, List, [], ◌∷◌, Option,
  none, some, bit_or,
}
use frosty_os_old.Common.Partial.{◌>>=◌}
use frosty_os_old.Memory.PageTables.{
  pml4_index, put, zero_entry, Memory, reach, Frames, Paging, Layout,
}
use frosty_os_old.Memory.PageTables.Remap
use frosty_os_old.Memory.PageTables.Unmap
use frosty_os_old.Memory.PageTables

-- `PagePermissions`, with every value that has no name as one.
pub data Permissions : Type 0 where
  read : Permissions
  write : Permissions
  execute : Permissions
  read_write : Permissions
  read_execute : Permissions
  unknown : Permissions

-- `m_mode` and `m_root_table`, by the number of its frame.
pub record PageTable : Type 0 where
  pub mode : Bool
  pub root : ℕ

pub record Space (A : Type 0) : Type 0 where
  pub paging : Paging A
  pub shootdowns : List (ℕ × ℕ)

-- What the permissions add to the flags.
unfoldable pub permission_flags : Permissions → Option ℕ
permission_flags Permissions.read = some 134217728
permission_flags Permissions.write = some 134217730
permission_flags Permissions.read_write = some 134217730
permission_flags Permissions.execute = some 0
permission_flags Permissions.read_execute = some 0
permission_flags Permissions.unknown = none

-- `DecodePageFlags`
unfoldable pub decode_page_flags : Bool → Permissions → ℕ
unfolding permission_flags
decode_page_flags mode perms =
    let page_perms = if mode then bit_or 1 4 else 1 in
    elim (permission_flags perms) [ none ↦ 0 | some f ↦ bit_or page_perms f ]

module _ {A : Type 0} where
  -- `if (flush) x86_64_TLBShootdown(virtual_addr, 0x1000, true)`
  abbrev pub flushed : Bool → ℕ → Space A → Space A
  flushed flush v s = if flush then record s { shootdowns = (v, 4096) ∷ s.shootdowns } else s

  -- `GetPhysicalAddress`
  unfoldable pub get_physical_address : Layout → PageTable → ℕ → Space A → Option ℕ
  unfolding PageTables.get_physaddr
  get_physical_address l t v s = PageTables.get_physaddr l s.paging.tables t.root v

  -- `RemapPage`
  unfoldable pub remap_page : PageTable → ℕ → Permissions → Bool → Space A → Option (Space A)
  unfolding decode_page_flags Remap.remap_page
  remap_page t v perms flush s = do
    u ← Remap.remap_page t.root v (decode_page_flags t.mode perms) s.paging.tables
    some (flushed flush v (record s { paging = record s.paging { tables = u } }))

module _ {A : Type 0} (fr : Frames A) where
  -- `MapPage`
  unfoldable pub map_page : PageTable → ℕ → ℕ → Permissions → Bool → Space A → Option (Space A)
  unfolding decode_page_flags PageTables.map_page
  map_page t physical v perms flush s = do
    p ← PageTables.map_page fr t.root physical v (decode_page_flags t.mode perms) s.paging
    some (flushed flush v (record s { paging = p }))

  -- `UnmapPage`
  unfoldable pub unmap_page : ℕ → PageTable → ℕ → Bool → Space A → Option (Space A)
  unfolding Unmap.unmap_page
  unmap_page hhdm_start t v flush s = do
    p ← Unmap.unmap_page fr hhdm_start t.root v s.paging
    some (flushed flush v (record s { paging = p }))

-- `x86_64_InitUserTable`: 512 bytes are cleared, that is 64 entries, and then the last entry and that for
-- the start of the HHDM copied from the kernel's table.
unfoldable pub init_user_table : ℕ → ℕ → ℕ → Memory → Memory
init_user_table hhdm_start kernel_root root t =
    let cleared = update t root (λ i. if ltb i 64 then zero_entry else t root i) in
    let last = put cleared root 511 (cleared kernel_root 511) in
    put last root (pml4_index hhdm_start) (last kernel_root (pml4_index hhdm_start))

module _ {A : Type 0} (fr : Frames A) (hhdm_start kernel_root : ℕ) where
  -- The constructor, with whether there is a page manager.
  unfoldable pub make : Bool → Bool → Paging A → Option (PageTable × Paging A)
  unfolding init_user_table reach
  make mode has_pm s =
      let user = (do
        (page, a) ← fr.allocate_page s.frames
        root ← reach (page / 4096)
        some (
          record { mode = mode; root = root },
          record { tables = init_user_table hhdm_start kernel_root root s.tables; frames = a },
        )) in
      if mode && has_pm then user else some (record { mode = mode; root = kernel_root }, s)
