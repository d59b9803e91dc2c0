-- ===== src/Memory/PageTables/Direct.antt =====
-- kernel/src/arch/x86_64/Memory/PageMapIndexer.cpp: addresses that are not looked up in the tables.
use frosty_os_old.Common.{ℕ, ◌+◌, ◌^◌, ◌≤◌, ◌<◌, ◌≡◌, ◌⊎◌, some, arith}
use frosty_os_old.Memory.PageTables.{Layout, Memory, to_hhdm, get_physaddr}

-- A physical address from the second page on and below 4 GiB, where the HHDM has these 4 GiB below the end
-- of the address space and the kernel lies past the address there or ends below it: `x86_64_get_physaddr` gives it back
-- from its address in the HHDM.
pub get_physaddr-to_hhdm :
    (l : Layout) (t : Memory) (root p : ℕ)
    → 4096 ≤ p
    → p < 2 ^ 32
    → l.hhdm_start + 2 ^ 32 < 2 ^ 64
    → l.kernel_virtual + l.kernel_length < 2 ^ 64
    → (l.hhdm_start + p < l.kernel_virtual)
      ⊎ (l.kernel_virtual + l.kernel_length ≤ l.hhdm_start + p)
    → get_physaddr l t root (to_hhdm l.hhdm_start p) ≡ some p
unfolding get_physaddr to_hhdm
get_physaddr-to_hhdm l t root p lo hi fits end away = ground arith
