-- ===== src/Memory/FrameAllocator/Allocate.antt =====
-- `AllocatePage` and `AllocatePages`. 0 is `nullptr`.
use frosty_os_old.Common.{ℕ, ◌==◌, u64_max}
use frosty_os_old.Memory.FrameAllocator.State.{M, branch, ◌>>=◌, ◌>>◌, return, stop, address}
use frosty_os_old.Memory.FrameAllocator.Pages.{lock_page, lock_pages}
use frosty_os_old.Memory.FrameAllocator.Search.{find_free_page, find_free_pages}

unfoldable pub allocate_page : M ℕ
unfolding find_free_page lock_page address
allocate_page = do
  index ← find_free_page
  branch (index == u64_max) stop do lock_page (address index); return (address index)

unfoldable pub allocate_pages : ℕ → M ℕ
unfolding find_free_pages lock_pages address
allocate_pages count = do
  index ← find_free_pages count
  branch (index == u64_max) (return 0) do lock_pages (address index) count; return (address index)
