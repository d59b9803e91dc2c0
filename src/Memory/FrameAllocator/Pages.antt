-- ===== src/Memory/FrameAllocator/Pages.antt =====
-- `ReservePage`, `UnreservePage`, `FreePage`, `LockPage` and `UnlockPage`, and their loops over
-- `count` pages.
use frosty_os_old.Common.{
  ℕ, zero, suc, ◌+◌, ◌*◌, ◌==◌, true, false, not, if◌then◌else◌, add64, sub64, u64_max,
}
use frosty_os_old.Data.Bitmap.{get, set}
use frosty_os_old.Memory.FrameAllocator.State.{
  M, branch, ok, ◌>>=◌, ◌>>◌, read, modify, lock_bitmap, unlock_bitmap, lock_global, unlock_global,
  page_size, frame,
}

unfoldable pub reserve_page : ℕ → M (Unit {0})
unfolding lock_bitmap unlock_bitmap lock_global unlock_global
reserve_page page = do
  lock_bitmap
  s ← read
  branch (get s.bitmap (frame page)) unlock_bitmap do
    modify (λ t. record t { bitmap = set t.bitmap (frame page) true })
    unlock_bitmap
    lock_global
    modify (λ t. record t {
      free_mem = sub64 t.free_mem page_size;
      reserved_mem = add64 t.reserved_mem page_size;
      next_free = if t.next_free == frame page then u64_max else t.next_free;
    })
    unlock_global

unfoldable pub unreserve_page : ℕ → M (Unit {0})
unfolding lock_bitmap unlock_bitmap lock_global unlock_global
unreserve_page page = do
  lock_bitmap
  s ← read
  branch (not (get s.bitmap (frame page))) unlock_bitmap do
    modify (λ t. record t { bitmap = set t.bitmap (frame page) false })
    unlock_bitmap
    lock_global
    modify (λ t. record t {
      free_mem = add64 t.free_mem page_size;
      reserved_mem = sub64 t.reserved_mem page_size;
      next_free = frame page;
    })
    unlock_global

unfoldable pub free_page : ℕ → M (Unit {0})
unfolding lock_bitmap unlock_bitmap lock_global unlock_global
free_page page = do
  lock_bitmap
  s ← read
  branch (not (get s.bitmap (frame page))) unlock_bitmap do
    modify (λ t. record t { bitmap = set t.bitmap (frame page) false })
    unlock_bitmap
    lock_global
    modify (λ t. record t {
      free_mem = add64 t.free_mem page_size;
      used_mem = sub64 t.used_mem page_size;
      next_free = frame page;
    })
    unlock_global

unfoldable pub lock_page : ℕ → M (Unit {0})
unfolding lock_bitmap unlock_bitmap lock_global unlock_global
lock_page page = do
  lock_bitmap
  s ← read
  branch (get s.bitmap (frame page)) unlock_bitmap do
    modify (λ t. record t { bitmap = set t.bitmap (frame page) true })
    unlock_bitmap
    lock_global
    modify (λ t. record t {
      free_mem = sub64 t.free_mem page_size;
      used_mem = add64 t.used_mem page_size;
    })
    unlock_global

unfoldable pub unlock_page : ℕ → M (Unit {0})
unfolding lock_bitmap unlock_bitmap lock_global unlock_global
unlock_page page = do
  lock_bitmap
  s ← read
  branch (not (get s.bitmap (frame page))) unlock_bitmap do
    modify (λ t. record t { bitmap = set t.bitmap (frame page) false })
    unlock_bitmap
    lock_global
    modify (λ t. record t {
      free_mem = add64 t.free_mem page_size;
      used_mem = sub64 t.used_mem page_size;
    })
    unlock_global

-- `for (uint64_t i = 0; i < count; i++) op((void*)(i * 4096 + (uint64_t)start));`: the rounds left,
-- and the round.
unfoldable pub each_page : (ℕ → M (Unit {0})) → ℕ → ℕ → ℕ → M (Unit {0})
each_page op zero i start s = ok tt s
each_page op (suc rounds) i start s =
    (op (add64 (i * page_size) start) >> each_page op rounds (i + 1) start) s

unfoldable pub reserve_pages : ℕ → ℕ → M (Unit {0})
unfolding each_page reserve_page
reserve_pages start count = each_page reserve_page count 0 start

unfoldable pub unreserve_pages : ℕ → ℕ → M (Unit {0})
unfolding each_page unreserve_page
unreserve_pages start count = each_page unreserve_page count 0 start

unfoldable pub free_pages : ℕ → ℕ → M (Unit {0})
unfolding each_page free_page
free_pages start count = each_page free_page count 0 start

unfoldable pub lock_pages : ℕ → ℕ → M (Unit {0})
unfolding each_page lock_page
lock_pages start count = each_page lock_page count 0 start

unfoldable pub unlock_pages : ℕ → ℕ → M (Unit {0})
unfolding each_page unlock_page
unlock_pages start count = each_page unlock_page count 0 start
