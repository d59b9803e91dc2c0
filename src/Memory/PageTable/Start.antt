-- ===== src/Memory/PageTable/Start.antt =====
-- kernel/src/Memory/PageTable.cpp: the table that a process starts with.
use frosty_os_old.Common.{◌/◌, ℕ, ◌*◌, ◌≤◌, ◌<◌, ◌≡◌, ◌≢◌, true, some, arith, refl}
use frosty_os_old.Memory.PageTables.{Memory, Frames, Paging, pml4_index, reach}
use frosty_os_old.Memory.PageTable.{PageTable, make, init_user_table}

init_user_table-keeps :
    (hhdm_start kernel_root root : ℕ) (t : Memory) (i : ℕ)
    → 64 ≤ i
    → i < 511
    → i ≢ pml4_index hhdm_start
    → init_user_table hhdm_start kernel_root root t root i ≡ t root i
unfolding init_user_table
init_user_table-keeps hhdm_start kernel_root root t i lo hi ne = ground arith

-- For the process of a page manager, where a frame is given that the HHDM reaches: the constructor makes that
-- frame the root, and there the entries from 64 to 510, but that for the start of the HHDM, are what the
-- frame held before.
pub make-keeps :
    {A : Type 0} (fr : Frames A) (hhdm_start kernel_root frame : ℕ) (a : A) (s : Paging A)
    → fr.allocate_page s.frames ≡ some (frame * 4096, a)
    → reach frame ≡ some frame
    → (t : PageTable) × (after : Paging A) × (make fr hhdm_start kernel_root true true s
        ≡ some (t, after))
      × (t.root ≡ frame)
      × ((i : ℕ)
          → 64 ≤ i
          → i < 511
          → i ≢ pml4_index hhdm_start
          → after.tables frame i ≡ s.tables frame i)
unfolding make
make-keeps fr hhdm_start kernel_root frame a s gives seen =
    let whole : frame * 4096 / 4096 ≡ frame = omega arith in
    (
      record { mode = true; root = frame },
      record { tables = init_user_table hhdm_start kernel_root frame s.tables; frames = a },
      rw (gives, whole, seen) refl,
      refl,
      init_user_table-keeps hhdm_start kernel_root frame s.tables,
    )
