-- ===== src/Memory/FrameAllocator/Search.antt =====
-- `FindFreePage` and `FindFreePages`. `UINT64_MAX` is the answer when nothing is found.
use frosty_os_old.Common.{
  ℕ, zero, suc, ◌+◌, ◌*◌, ◌==◌, ltb, leb, Bool, true, false, not, ◌&&◌, Option, none, some,
  if◌then◌else◌, add64, u64_max,
}
use frosty_os_old.Data.Bitmap.{Bitmap, get}
use frosty_os_old.Memory.FrameAllocator.State.{
  Allocator, M, branch, ◌>>=◌, ◌>>◌, return, read, modify, lock_bitmap, unlock_bitmap, lock_global,
  unlock_global, frames,
}

-- `(i + 1) < (m_Bitmap.GetSize() << 3) && m_Bitmap[i + 1] == 0`
unfoldable pub next_is_free : Allocator → ℕ → Bool
unfolding frames
next_is_free s i = ltb (i + 1) (frames s) && not (get s.bitmap (i + 1))

-- The `for` loop of `FindFreePage`: the rounds left, and `i`.
unfoldable pub scan : Bitmap → ℕ → ℕ → Option ℕ
scan m zero i = none
scan m (suc rounds) i = if get m i then scan m rounds (i + 1) else some i

-- The body of `FindFreePage` between the locks.
unfoldable pub take_hint : Allocator → ℕ × Allocator
unfolding next_is_free
take_hint s = (
  s.next_free,
  record s { next_free = if next_is_free s s.next_free then s.next_free + 1 else u64_max },
)

unfoldable pub take_first : Allocator → ℕ × Allocator
unfolding next_is_free scan frames
take_first s = elim (scan s.bitmap (frames s) 0) [
  | none ↦ (u64_max, s)
  | some i ↦ (i, record s { next_free = if next_is_free s i then i + 1 else s.next_free })
]

unfoldable pub find_free_page : M ℕ
unfolding lock_bitmap unlock_bitmap lock_global unlock_global take_hint take_first
find_free_page = do
  lock_bitmap
  lock_global
  s ← read
  let r = if s.next_free == u64_max then take_first s else take_hint s
  modify (λ _. r.1)
  unlock_global
  unlock_bitmap
  return r.0

-- The `while (next <= count)` loop of `FindFreePages`: `found` and `next` at its end. The rounds
-- left are `count + 1 - next`.
unfoldable pub probe : Bitmap → ℕ → ℕ → ℕ → ℕ → Bool × ℕ
probe m i count zero next = (true, next)
probe m i count (suc rounds) next =
    let rest = probe m i count rounds (next + 1) in
    if get m (add64 i next) then (false, next) else if leb count next then (true, next) else rest

-- `if (m_nextFree >= i && (i + count) > m_nextFree) m_nextFree = UINT64_MAX;`
unfoldable pub drop_hint : ℕ → ℕ → ℕ → ℕ
drop_hint i count hint = if leb i hint && ltb hint (add64 i count) then u64_max else hint

-- The `for` loop of `FindFreePages`, on fuel: the index that it returns. `next` is the step to the
-- following round.
unfoldable pub find_run : Bitmap → ℕ → ℕ → ℕ → ℕ → Option ℕ
unfolding probe
find_run m total count zero i = none
find_run m total count (suc fuel) i =
    let skip = find_run m total count fuel (add64 i 1) in
    let (found, next) = probe m i count count 1 in
    let jump = find_run m total count fuel (add64 i next) in
    if ltb i total
    then (if get m i then skip else if count == 1 then some i else if found then some i else jump)
    else none

-- What is returned and what becomes of the hint when the loop stops at `i`: with a count of 1 the
-- code returns `i * 8`.
unfoldable pub answer : Allocator → ℕ → ℕ → ℕ × Allocator
unfolding drop_hint
answer s count i =
    if count == 1
    then (i * 8, record s { next_free = if s.next_free == i then u64_max else s.next_free })
    else (i, record s { next_free = drop_hint i count s.next_free })

unfoldable pub take_run : Allocator → ℕ → ℕ × Allocator
unfolding find_run answer frames
take_run s count = elim (find_run s.bitmap (frames s) count (frames s) 0) [
  | none ↦ (u64_max, s)
  | some i ↦ answer s count i
]

-- The early return on a count of 0 leaves both locks held.
unfoldable pub find_free_pages : ℕ → M ℕ
unfolding lock_bitmap unlock_bitmap lock_global unlock_global take_run
find_free_pages count = do
  lock_bitmap
  lock_global
  s ← read
  branch (count == 0) (return u64_max)
      do let r = take_run s count; modify (λ _. r.1); unlock_global; unlock_bitmap; return r.0
