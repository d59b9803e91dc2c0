-- ===== src/Tests/Frames.antt =====
-- kernel/src/Memory/PhysicalPageFrameAllocator.cpp on a machine with 16 frames.
use frosty_os_old.Common.{
  ◌||◌, ◌==◌, some, zero, suc, ℕ, ◌*◌, ◌<◌, ◌≡◌, refl, true, false, List, [], ◌∷◌, arith, add64,
  test_bit, write_bit,
}
use frosty_os_old.Data.Bitmap.{get, set}
use frosty_os_old.Memory.FrameAllocator.State.{page_size, Allocator, ok, frame}
use frosty_os_old.Memory.FrameAllocator.PageLaws.{IsQuiet}
use frosty_os_old.Memory.FrameAllocator.Pages.{unreserve_pages, free_pages}
use frosty_os_old.Memory.FrameAllocator.Allocate.{allocate_page, allocate_pages}
use frosty_os_old.Memory.FrameAllocator.Init.{
  Entry, new, early_init, early_fill, loop_ends, all_end,
}
use frosty_os_old.Memory.FrameAllocator.Invariant.{Inv}
use frosty_os_old.Memory.FrameAllocator.InitLaws.{early_fill-Inv}
use frosty_os_old.Memory.FrameAllocator.InitMarks.{is_marked, early_init-Inv}
use frosty_os_old.Memory.FrameAllocator.AllocateLaws.{TakesFree, allocate_page-TakesFree}
use frosty_os_old.Memory.FrameAllocator.Loops.{
  Goes, pages-Goes, ComesBack, there_and_back-ComesBack,
}
use frosty_os_old.Memory.FrameAllocator.RunLaws.{TakesBlock, allocate_pages-TakesBlock}
use frosty_os_old.Memory.FrameAllocator.Faults.{
  HoldsLocks, allocate_pages-zero_deadlock, allocate_pages-one_in_use,
}
use frosty_os_old.Memory.FrameAllocator.History.{Call, RunsWell, run-Inv}

abbrev memory : ℕ → ℕ
memory i = 0

-- Frames 0 to 7 are free memory, the others are reserved.
abbrev map_entries : List Entry
map_entries =
    record { base = 0; length = 32768; kind = 0 }
    ∷ record { base = 32768; length = 32768; kind = 1 }
    ∷ []

unfoldable boot : Allocator
unfolding early_fill new get set
boot = early_fill (new memory) memory map_entries 65536

new-IsQuiet : IsQuiet (new memory)
unfolding new
new-IsQuiet = record { bitmap_released = refl; global_released = refl }

early_init-Inv_example :
    (t : Allocator) × (early_init (new memory) memory map_entries 65536 ≡ some t)
    × Inv t
    × ((j : ℕ) → j < t.bitmap.size * 8 → get t.bitmap j ≡ (j == 0 || is_marked map_entries j true))
early_init-Inv_example =
    early_init-Inv (new memory) memory map_entries 65536 new-IsQuiet (λ i. omega arith)
      (omega arith)

boot-Inv : Inv boot
unfolding boot
boot-Inv = early_fill-Inv (new memory) memory map_entries 65536 new-IsQuiet (λ i. omega arith)

early_init-boot : early_init (new memory) memory map_entries 65536 ≡ some boot
unfolding early_init boot loop_ends all_end
early_init-boot = refl

-- Frame 0 is reserved, so the first page is frame 1.
first_page : (t : Allocator) × (allocate_page boot ≡ ok 4096 t)
unfolding boot allocate_page add64 test_bit write_bit frame
first_page = (_, refl)

allocate_page-TakesFree_example : TakesFree boot
allocate_page-TakesFree_example = allocate_page-TakesFree boot boot-Inv

boot_size : boot.bitmap.size ≡ 2
unfolding boot add64 test_bit write_bit
boot_size = refl

frame_2 : frame 8192 ≡ 2
unfolding frame
frame_2 = refl

allocate_pages-TakesBlock_example : TakesBlock boot 3
allocate_pages-TakesBlock_example =
    allocate_pages-TakesBlock boot 3 boot-Inv (omega arith) (omega arith)

run-Inv_example : RunsWell (Call.allocates ∷ Call.allocates_many 3 ∷ Call.frees 4096 ∷ []) boot
run-Inv_example =
    run-Inv boot (Call.allocates ∷ Call.allocates_many 3 ∷ Call.frees 4096 ∷ []) boot-Inv
      (omega arith)

pages-Goes_example : Goes (free_pages 4096 3) boot × Goes (unreserve_pages 4096 3) boot
pages-Goes_example = pages-Goes boot 4096 3 boot-Inv

two_frames : (j : ℕ) → j < 2 → frame (add64 (j * page_size) 8192) < 16
unfolding frame add64
two_frames j h = omega arith

there_and_back-ComesBack_example : ComesBack boot
there_and_back-ComesBack_example = there_and_back-ComesBack boot boot-Inv

-- The same machine after `FullInit` would have run, and one on which frame 8 is in use.
abbrev running : Allocator
running = record boot { fully_initialised = true }

running-IsQuiet : IsQuiet running
running-IsQuiet = record {
  bitmap_released = boot-Inv.quiet.bitmap_released;
  global_released = boot-Inv.quiet.global_released;
}

allocate_pages-zero_deadlock_example : HoldsLocks running
allocate_pages-zero_deadlock_example = allocate_pages-zero_deadlock running refl running-IsQuiet

boot_none_before : (j : ℕ) → j < 1 → get boot.bitmap j ≡ true
unfolding boot add64 test_bit write_bit
boot_none_before zero h = refl
boot_none_before (suc j) h = absurd (omega arith)

boot_page_1 : get boot.bitmap 1 ≡ false
unfolding boot add64 test_bit write_bit
boot_page_1 = refl

boot_page_8 : get boot.bitmap 8 ≡ true
unfolding boot add64 test_bit write_bit
boot_page_8 = refl

-- Frame 1 is the first free one, and frame 8, which is reserved, is handed out.
allocate_pages-one_in_use_example :
    (hint : ℕ) × (allocate_pages 1 boot ≡ ok (1 * 8 * 4096) (record boot { next_free = hint }))
allocate_pages-one_in_use_example =
    allocate_pages-one_in_use boot 1 boot-Inv (omega (arith, boot_size)) boot_page_1
      boot_none_before boot_page_8
