-- ===== src/Memory/FrameAllocator/Faults.antt =====
-- What `AllocatePages` does for the counts 0 and 1.
use frosty_os_old.Memory.FrameAllocator.Invariant.{Inv}
use frosty_os_old.Common.{
  ap, ◌∙◌, u64_max, ◌==◌, if◌then◌else◌, ◌*◌, zero, suc, ℕ, ◌+◌, ◌^◌, ◌≤◌, ◌<◌, ◌≡◌, inl, inr, true,
  false, some, eq_cases, add64, arith,
}
use frosty_os_old.Data.Bitmap.{Bitmap, get}
use frosty_os_old.Memory.FrameAllocator.State.{
  page_size, frame, frames, address, Allocator, ok, deadlock,
}
use frosty_os_old.Memory.FrameAllocator.Pages.{lock_pages, free_page, reserve_page}
use frosty_os_old.Memory.FrameAllocator.Search.{answer, take_run, find_free_pages, find_run}
use frosty_os_old.Memory.FrameAllocator.Allocate.{allocate_page, allocate_pages}
use frosty_os_old.Memory.FrameAllocator.PageLaws.{lock_page_lem, IsQuiet}

-- A call of `AllocatePages(0)` that returns, and what every later call meets.
abbrev pub HoldsLocks : Allocator → Type 0
HoldsLocks s =
    (t : Allocator) × (allocate_pages 0 s ≡ ok 0 t)
    × (allocate_page t ≡ deadlock)
    × ((count : ℕ) → allocate_pages count t ≡ deadlock)
    × ((page : ℕ) → free_page page t ≡ deadlock)
    × ((page : ℕ) → reserve_page page t ≡ deadlock)

-- From every state of a fully initialised allocator whose locks are free, `AllocatePages(0)` returns
-- null, and every later allocation, free or reservation deadlocks, since both locks are held.
pub allocate_pages-zero_deadlock :
    (s : Allocator) → s.fully_initialised ≡ true → IsQuiet s → HoldsLocks s
unfolding allocate_pages allocate_page free_page reserve_page
allocate_pages-zero_deadlock s f q = (
  record s { bitmap_lock = true; global_lock = true },
  ground arith,
  ground arith,
  (λ count. ground arith),
  (λ page. ground arith),
  (λ page. ground arith),
)

-- With a count of 1 the loop stops at the first clear bit.
find_run-one :
    (m : Bitmap) (total fuel i k : ℕ)
    → total ≤ 2 ^ 48
    → i ≤ k
    → k < total
    → total ≤ i + fuel
    → ((j : ℕ) → i ≤ j → j < k → get m j ≡ true)
    → get m k ≡ false
    → find_run m total 1 fuel i ≡ some k
unfolding find_run add64
find_run-one m total zero i k small h l f before e = absurd (omega arith)
find_run-one m total (suc fuel) i k small h l f before e = elim (eq_cases i k) [
  | inl p ↦ ground arith
  | inr p ↦ ground (
    arith,
    before i (omega arith) (omega arith),
    find_run-one m total fuel (i + 1) k small (omega arith) l (omega arith)
        (λ j a b. before j (omega arith) b) e,
  )
]

take_run-one :
    (s : Allocator) (k : ℕ)
    → find_run s.bitmap (frames s) 1 (frames s) 0 ≡ some k
    → take_run s 1
      ≡ (k * 8, record s { next_free = if s.next_free == k then u64_max else s.next_free })
unfolding take_run answer
take_run-one s k e = rw (e, take_run)

find_free_pages-one :
    (s : Allocator) → IsQuiet s → find_free_pages 1 s ≡ ok (take_run s 1).0 (take_run s 1).1
unfolding find_free_pages
find_free_pages-one s q = ground arith

lock_one :
    (s : Allocator) (i : ℕ)
    → i ≤ 2 ^ 51
    → IsQuiet s
    → get s.bitmap i ≡ true
    → lock_pages (address i) 1 s ≡ ok tt s
unfolding lock_pages address frame add64
lock_one s i h q e = ground (arith, lock_page_lem s (i * page_size) q)

allocate_one :
    (s : Allocator) (i hint : ℕ)
    → i ≤ 2 ^ 51
    → find_free_pages 1 s ≡ ok i (record s { next_free = hint })
    → lock_pages (address i) 1 (record s { next_free = hint })
      ≡ ok tt (record s { next_free = hint })
    → allocate_pages 1 s ≡ ok (i * page_size) (record s { next_free = hint })
unfolding allocate_pages address
allocate_one s i hint h e l = ground arith

-- From a state that meets the invariant, let `k` be the first free frame, and let frame `8 * k` be in
-- use. Then `AllocatePages(1)` returns the address of that frame in use, and neither a bit nor a
-- counter changes.
pub allocate_pages-one_in_use :
    (s : Allocator) (k : ℕ)
    → Inv s
    → k < s.bitmap.size * 8
    → get s.bitmap k ≡ false
    → ((j : ℕ) → j < k → get s.bitmap j ≡ true)
    → get s.bitmap (k * 8) ≡ true
    → (hint : ℕ) × (allocate_pages 1 s ≡ ok (k * 8 * page_size) (record s { next_free = hint }))
unfolding frames
allocate_pages-one_in_use s k v h e before busy =
    let hint = if s.next_free == k then u64_max else s.next_free in
    let found =
      find_run-one s.bitmap (frames s) (frames s) 0 k (omega (arith, v.small)) (omega arith)
        (omega (arith, v.small)) (omega arith) (λ j a b. before j b) e in
    let q : IsQuiet (record s { next_free = hint }) = record {
      bitmap_released = v.quiet.bitmap_released;
      global_released = v.quiet.global_released;
    } in
    (
      hint,
      allocate_one s (k * 8) hint (omega (arith, v.small))
          (find_free_pages-one s v.quiet
            ∙ ap (λ (r : ℕ × Allocator). ok r.0 r.1) (take_run-one s k found))
          (lock_one (record s { next_free = hint }) (k * 8) (omega (arith, v.small)) q busy),
    )
