-- ===== src/Memory/PageTable/Laws.antt =====
-- kernel/src/Memory/PageTable.cpp: what an address is mapped to after a page was mapped, remapped or
-- unmapped.
use frosty_os_old.Memory.PageTables.RemapLaws.{remap_page-walk}
use frosty_os_old.Memory.PageTables.UnmapLaws.{unmap_page-walk}
use frosty_os_old.Memory.PageTables.Drop.{FreeLaws}
use frosty_os_old.Memory.PageTables.Walk.{page_of, lookup}
use frosty_os_old.Memory.PageTables.MapLaws.{map_page-walk, IsLargePage}
use frosty_os_old.Memory.PageTables.Shape.{Shape, Role, FrameLaws}
use frosty_os_old.Common.{
  ◌∙◌, ap, ◌*◌, ◌/◌, some, ◌≤◌, [], ◌∷◌, if◌then◌else◌, List, ℕ, ◌+◌, ◌%◌, ◌^◌, ◌≡◌, ◌≢◌, Bool,
  true, false, refl, Bool-cases, leb, ltb, ◌&&◌, inl, inr,
}
use frosty_os_old.Memory.PageTables.{Memory, Layout, get_physaddr, walk, flag}
use frosty_os_old.Memory.PageTable.{
  unmap_page, map_page, remap_page, flushed, get_physical_address, Paging, Space, PageTable, Frames,
  Permissions, permission_flags, decode_page_flags,
}

decode-present :
    (mode : Bool) (perms : Permissions)
    → perms ≢ Permissions.unknown
    → flag (decode_page_flags mode perms) 0 ≡ true
unfolding decode_page_flags permission_flags flag
decode-present true Permissions.read ne = refl
decode-present true Permissions.write ne = refl
decode-present true Permissions.execute ne = refl
decode-present true Permissions.read_write ne = refl
decode-present true Permissions.read_execute ne = refl
decode-present true Permissions.unknown ne = elim (ne refl) [ ]
decode-present false Permissions.read ne = refl
decode-present false Permissions.write ne = refl
decode-present false Permissions.execute ne = refl
decode-present false Permissions.read_write ne = refl
decode-present false Permissions.read_execute ne = refl
decode-present false Permissions.unknown ne = elim (ne refl) [ ]

decode-small : (mode : Bool) (perms : Permissions) → flag (decode_page_flags mode perms) 7 ≡ false
unfolding decode_page_flags permission_flags flag
decode-small true Permissions.read = refl
decode-small true Permissions.write = refl
decode-small true Permissions.execute = refl
decode-small true Permissions.read_write = refl
decode-small true Permissions.read_execute = refl
decode-small true Permissions.unknown = refl
decode-small false Permissions.read = refl
decode-small false Permissions.write = refl
decode-small false Permissions.execute = refl
decode-small false Permissions.read_write = refl
decode-small false Permissions.read_execute = refl
decode-small false Permissions.unknown = refl

-- Neither in the kernel nor in the first 4 GiB of the HHDM.
abbrev pub IsOutside : Layout → ℕ → Type 0
IsOutside l v =
    ((leb l.kernel_virtual v && ltb v ((l.kernel_virtual + l.kernel_length) % 2 ^ 64)) ≡ false)
    × ((leb l.hhdm_start v && ltb v ((l.hhdm_start + 2 ^ 32) % 2 ^ 64)) ≡ false)

module _ (l : Layout) (root : ℕ) where
  get_physaddr-walk : (t : Memory) (v : ℕ) → IsOutside l v → get_physaddr l t root v ≡ walk t root v
  unfolding get_physaddr
  get_physaddr-walk t v (k, h) = rw (k, h) refl

  -- Where the walks agree the addresses do.
  get_physaddr_same :
      (t u : Memory) (w : ℕ)
      → walk t root w ≡ walk u root w
      → get_physaddr l t root w ≡ get_physaddr l u root w
  unfolding get_physaddr
  get_physaddr_same t u w same =
      elim (Bool-cases
        (leb l.kernel_virtual w && ltb w ((l.kernel_virtual + l.kernel_length) % 2 ^ 64))) [
          | inl k ↦ rw k refl
          | inr k ↦
              elim (Bool-cases (leb l.hhdm_start w && ltb w ((l.hhdm_start + 2 ^ 32) % 2 ^ 64))) [
                | inl h ↦ rw (k, h) refl
                | inr h ↦ rw (k, h) same
              ]
        ]

-- What the other addresses are and were mapped to.
module _ {A : Type 0} where
  abbrev pub Keeps : Layout → PageTable → (ℕ → Type 0) → Space A → Space A → Type 0
  Keeps l t Where s after =
      (w : ℕ) → Where w → get_physical_address l t w after ≡ get_physical_address l t w s

  abbrev pub sent : Bool → ℕ → Space A → List (ℕ × ℕ)
  sent flush v s = if flush then (v, 4096) ∷ s.shootdowns else s.shootdowns

  flushed_eq :
      (flush : Bool) (v : ℕ) (p : Paging A) (s : Space A)
      → flushed flush v (record s { paging = p })
        ≡ record { paging = p; shootdowns = sent flush v s }
  flushed_eq true v p s = refl
  flushed_eq false v p s = refl

module _ {A : Type 0} (fr : Frames A) (laws : FrameLaws fr) (l : Layout) (t : PageTable)
    (role : Role) (s : Space A) (shape : Shape laws.Free t.root role s.paging) (v : ℕ)
    (outside : IsOutside l v)
    (none_large : (a : ℕ) → ¬ IsLargePage s.paging.tables t.root v a) where
  -- In tables that hang together, with three frames to spare, for permissions that have a name and an
  -- address outside the kernel and the HHDM that no large page maps: `map_page` ends, the physical address of
  -- it is then its offset in the physical page, that of every address of another page is as it was, one
  -- shootdown was sent if it was asked for, and the tables still hang together.
  pub map_page-get_physical_address :
      (physical : ℕ) (perms : Permissions) (flush : Bool)
      → perms ≢ Permissions.unknown
      → 3 ≤ laws.spare s.paging.frames
      → (after : Space A) × (map_page fr t physical v perms flush s ≡ some after)
        × (get_physical_address l t v after ≡ some (physical / 4096 % 2 ^ 40 * 4096 + v % 4096))
        × Keeps l t (λ w. page_of v ≢ page_of w) s after
        × (after.shootdowns ≡ sent flush v s)
        × (r : Role) × Shape laws.Free t.root r after.paging
  unfolding map_page get_physical_address
  map_page-get_physical_address physical perms flush known h =
      let (p, e, at, others, r, shape_p) =
        map_page-walk fr laws t.root (decode_page_flags t.mode perms) physical v role s.paging shape
          (decode-present t.mode perms known) (decode-small t.mode perms) h none_large in
      (
        record { paging = p; shootdowns = sent flush v s },
        rw e (ap some (flushed_eq flush v p s)),
        get_physaddr-walk l t.root p.tables v outside ∙ at,
        λ w ne. get_physaddr_same l t.root p.tables s.paging.tables w (others w ne),
        refl,
        r,
        shape_p,
      )

  -- In tables that hang together, where pages can be given back and the HHDM begins at 512 GiB or above
  -- and has 512 GiB, for an address outside the kernel and the HHDM that no large page maps: `unmap_page`
  -- ends, the physical address of it is then null, that of every address of another page is as it was, one
  -- shootdown was sent if it was asked for, and the same tables still hang together.
  pub unmap_page-get_physical_address :
      (frees : FreeLaws fr laws.Free) (hhdm_start : ℕ) (flush : Bool)
      → 2 ^ 39 ≤ hhdm_start
      → hhdm_start + 2 ^ 39 ≤ 2 ^ 64
      → (after : Space A) × (unmap_page fr hhdm_start t v flush s ≡ some after)
        × (get_physical_address l t v after ≡ some 0)
        × Keeps l t (λ w. page_of v ≢ page_of w) s after
        × (after.shootdowns ≡ sent flush v s)
        × Shape laws.Free t.root role after.paging
  unfolding unmap_page get_physical_address
  unmap_page-get_physical_address frees hhdm_start flush lo hi =
      let (p, e, at, others, shape_p) =
        unmap_page-walk fr laws.Free frees hhdm_start t.root v role s.paging lo hi shape
          none_large in
      (
        record { paging = p; shootdowns = sent flush v s },
        rw e (ap some (flushed_eq flush v p s)),
        get_physaddr-walk l t.root p.tables v outside ∙ at,
        λ w ne. get_physaddr_same l t.root p.tables s.paging.tables w (others w ne),
        refl,
        shape_p,
      )

module _ {A : Type 0} (Free : A → ℕ → Type 0) (l : Layout) (t : PageTable) (role : Role)
    (s : Space A) (shape : Shape Free t.root role s.paging) where
  -- In tables that hang together, for permissions that have a name and an address that is mapped:
  -- `remap_page` ends, the physical address of every address is as it was, one shootdown was sent if it was
  -- asked for, and the same tables still hang together.
  pub remap_page-get_physical_address :
      (v : ℕ) (perms : Permissions) (flush : Bool) (x : ℕ × List ℕ)
      → perms ≢ Permissions.unknown
      → lookup s.paging.tables [] t.root (page_of v) ≡ some (some x)
      → (after : Space A) × (remap_page t v perms flush s ≡ some after)
        × Keeps l t (λ w. Unit {0}) s after
        × (after.shootdowns ≡ sent flush v s)
        × Shape Free t.root role after.paging
  unfolding remap_page get_physical_address
  remap_page-get_physical_address v perms flush x known found =
      let (u, e, same, shape_u) =
        remap_page-walk Free t.root (decode_page_flags t.mode perms) v role
          (decode-present t.mode perms known) (decode-small t.mode perms) s.paging x shape found in
      (
        record { paging = record s.paging { tables = u }; shootdowns = sent flush v s },
        rw e (ap some (flushed_eq flush v (record s.paging { tables = u }) s)),
        λ w all. get_physaddr_same l t.root u s.paging.tables w (same w),
        refl,
        shape_u,
      )
