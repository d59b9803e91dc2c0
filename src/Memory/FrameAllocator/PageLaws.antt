-- ===== src/Memory/FrameAllocator/PageLaws.antt =====
-- Each page operation as one state change, when neither lock is held.
use frosty_os_old.Common.{ℕ, ◌==◌, ◌≡◌, true, false, if◌then◌else◌, add64, sub64, u64_max, arith}
use frosty_os_old.Data.Bitmap.{get, set}
use frosty_os_old.Memory.FrameAllocator.State.{Allocator, ok, page_size, frame}
use frosty_os_old.Memory.FrameAllocator.Pages.{
  reserve_page, unreserve_page, free_page, lock_page, unlock_page,
}

pub record IsQuiet (s : Allocator) : Type 0 where
  pub bitmap_released : s.bitmap_lock ≡ false
  pub global_released : s.global_lock ≡ false

-- The frame leaves the free ones for the used ones, or for the reserved ones.
abbrev pub used_frame : Allocator → ℕ → Allocator
used_frame s i = record s {
  bitmap = set s.bitmap i true;
  free_mem = sub64 s.free_mem page_size;
  used_mem = add64 s.used_mem page_size;
}

abbrev pub reserved_frame : Allocator → ℕ → Allocator
reserved_frame s i = record s {
  bitmap = set s.bitmap i true;
  free_mem = sub64 s.free_mem page_size;
  reserved_mem = add64 s.reserved_mem page_size;
  next_free = if s.next_free == i then u64_max else s.next_free;
}

-- The frame comes back, and the hint is what is given.
abbrev pub freed_frame : Allocator → ℕ → ℕ → Allocator
freed_frame s i hint = record s {
  bitmap = set s.bitmap i false;
  free_mem = add64 s.free_mem page_size;
  used_mem = sub64 s.used_mem page_size;
  next_free = hint;
}

abbrev pub unreserved_frame : Allocator → ℕ → Allocator
unreserved_frame s i = record s {
  bitmap = set s.bitmap i false;
  free_mem = add64 s.free_mem page_size;
  reserved_mem = sub64 s.reserved_mem page_size;
  next_free = i;
}

module _ (s : Allocator) (page : ℕ) (q : IsQuiet s) where
  pub lock_page_lem :
      lock_page page s ≡ ok tt (if get s.bitmap (frame page) then s else used_frame s (frame page))
  unfolding lock_page
  lock_page_lem = ground arith

  pub reserve_page_lem :
      reserve_page page s
      ≡ ok tt (if get s.bitmap (frame page) then s else reserved_frame s (frame page))
  unfolding reserve_page
  reserve_page_lem = ground arith

  pub free_page_lem :
      free_page page s
      ≡ ok tt (if get s.bitmap (frame page) then freed_frame s (frame page) (frame page) else s)
  unfolding free_page
  free_page_lem = ground arith

  pub unlock_page_lem :
      unlock_page page s
      ≡ ok tt (if get s.bitmap (frame page) then freed_frame s (frame page) s.next_free else s)
  unfolding unlock_page
  unlock_page_lem = ground arith

  pub unreserve_page_lem :
      unreserve_page page s
      ≡ ok tt (if get s.bitmap (frame page) then unreserved_frame s (frame page) else s)
  unfolding unreserve_page
  unreserve_page_lem = ground arith
