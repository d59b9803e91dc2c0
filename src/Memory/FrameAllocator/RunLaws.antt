-- ===== src/Memory/FrameAllocator/RunLaws.antt =====
-- `AllocatePages` for a count of 2 and more: the frames that it hands out.
use frosty_os_old.Memory.FrameAllocator.LockLaws.{in_block, lock_loop}
use frosty_os_old.Memory.FrameAllocator.RunSearch.{find_run-some, find_run-none, IsRun}
use frosty_os_old.Memory.FrameAllocator.Allocate.{allocate_pages}
use frosty_os_old.Memory.FrameAllocator.Pages.{lock_pages}
use frosty_os_old.Common.{
  ap, Option-cases, ◌⊎◌, ◌-◌, u64_max, some, none, ◌∙◌, ◌<◌, false, ℕ, ◌+◌, ◌*◌, ◌^◌, ◌≤◌, ◌≡◌, ◌≢◌,
  inl, inr, true, ◌&&◌, if◌then◌else◌, ltb, add64, arith,
}
use frosty_os_old.Data.Bitmap.{get}
use frosty_os_old.Memory.FrameAllocator.State.{frames, Allocator, ok, page_size, address}
use frosty_os_old.Memory.FrameAllocator.Search.{
  find_run, drop_hint, answer, find_free_pages, take_run,
}
use frosty_os_old.Memory.FrameAllocator.PageLaws.{IsQuiet}
use frosty_os_old.Memory.FrameAllocator.Invariant.{HintIsFree, account, Inv, total_mem}

find_free_pages-run :
    (s : Allocator) (count : ℕ)
    → IsQuiet s
    → count ≢ 0
    → find_free_pages count s ≡ ok (take_run s count).0 (take_run s count).1
unfolding find_free_pages
find_free_pages-run s count q ne = ground arith

-- What `FindFreePages` does for a count of 2 and more.
take_run-none :
    (s : Allocator) (count : ℕ)
    → find_run s.bitmap (frames s) count (frames s) 0 ≡ none
    → take_run s count ≡ (u64_max, s)
unfolding take_run
take_run-none s count e = rw (e, take_run)

take_run-some :
    (s : Allocator) (count k : ℕ)
    → 2 ≤ count
    → find_run s.bitmap (frames s) count (frames s) 0 ≡ some k
    → take_run s count ≡ (k, record s { next_free = drop_hint k count s.next_free })
unfolding take_run answer
take_run-some s count k h e = rw (e, take_run) (ground arith)

drop_hint-clear :
    (s : Allocator) (k count : ℕ)
    → Inv s
    → k + count ≤ 2 ^ 50
    → HintIsFree s.bitmap (drop_hint k count s.next_free)
      × ((j : ℕ) → k ≤ j → j < k + count → drop_hint k count s.next_free ≢ j)
unfolding drop_hint add64
drop_hint-clear s k count v h = (ground (arith, v.hint_free), λ j a b. ground arith)

-- `count + 1` frames from `k` on read as clear, the first in range.
abbrev pub HasRun : Allocator → ℕ → ℕ → Type 0
HasRun s count k = IsRun s.bitmap (s.bitmap.size * 8) count k

allocate_pages-found :
    (s t : Allocator) (count k hint : ℕ)
    → k ≤ 2 ^ 48
    → find_free_pages count s ≡ ok k (record s { next_free = hint })
    → lock_pages (address k) count (record s { next_free = hint }) ≡ ok tt t
    → allocate_pages count s ≡ ok (k * page_size) t
unfolding allocate_pages address
allocate_pages-found s t count k hint h e l = ground arith

allocate_pages-out :
    (s : Allocator) (count : ℕ)
    → find_free_pages count s ≡ ok u64_max s
    → allocate_pages count s ≡ ok 0 s
unfolding allocate_pages
allocate_pages-out s count e = ground arith

hint-Inv :
    (s : Allocator) (hint : ℕ)
    → Inv s
    → HintIsFree s.bitmap hint
    → Inv (record s { next_free = hint })
hint-Inv s hint v f = record {
  bytes = v.bytes;
  small = v.small;
  hint_free = f;
  quiet = record {
    bitmap_released = v.quiet.bitmap_released;
    global_released = v.quiet.global_released;
  };
}

-- What an allocation of a block leaves: the frames `k`, ..., `k + count - 1` were free; those of them
-- that are in range are marked and no other frame changes; the invariant and the sum of the
-- counters are kept, and the bytes in balance too if the whole block is in range.
pub record Allocates (s t : Allocator) (k count : ℕ) : Type 0 where
  pub in_range : k < s.bitmap.size * 8
  pub were_free : (j : ℕ) → k ≤ j → j < k + count → get s.bitmap j ≡ false
  pub bits :
      (j : ℕ)
      → get t.bitmap j
        ≡ (if in_block k count j && ltb j (s.bitmap.size * 8) then true else get s.bitmap j)
  pub inv : Inv t
  pub same_size : t.bitmap.size ≡ s.bitmap.size
  pub same_total : total_mem t ≡ total_mem s
  pub balance : k + count ≤ s.bitmap.size * 8 → account t ≡ account s

block_of_run :
    (s : Allocator) (count k j : ℕ)
    → Inv s
    → count ≤ 2 ^ 48
    → HasRun s count k
    → k ≤ j
    → j < k + count
    → get s.bitmap j ≡ false
unfolding add64
block_of_run s count k j v few r a b = ground (arith, r.1 (j - k), v.small, r.0)

allocate_block :
    (s : Allocator) (count k : ℕ)
    → Inv s
    → count ≤ 2 ^ 48
    → HasRun s count k
    → find_free_pages count s ≡ ok k (record s { next_free = drop_hint k count s.next_free })
    → (t : Allocator) × (allocate_pages count s ≡ ok (k * page_size) t) × Allocates s t k count
unfolding lock_pages total_mem account
allocate_block s count k v few r e =
    let hint = drop_hint k count s.next_free in
    let (f, apart) = drop_hint-clear s k count v (omega (arith, v.small, r.0)) in
    let s1 : Allocator = record s { next_free = hint } in
    let (t, l, d) =
      lock_loop count 0 k k s1 (omega arith) (hint-Inv s hint v f) (omega (arith, v.small, r.0))
        (λ j a b. (block_of_run s count k j v few r a b, apart j a b)) in
    (
      t,
      allocate_pages-found s t count k hint (omega (arith, v.small, r.0)) e l,
      record {
        in_range = r.0;
        were_free = λ j a b. block_of_run s count k j v few r a b;
        bits = d.bits;
        inv = d.inv;
        same_size = d.same_size;
        same_total = d.total;
        balance = d.balance;
      },
    )

frames_small : (s : Allocator) → Inv s → frames s ≡ s.bitmap.size * 8
unfolding frames
frames_small s v = omega (arith, v.small)

find_free_pages-takes :
    (s : Allocator) (count : ℕ) {k : ℕ} {t : Allocator}
    → Inv s
    → 2 ≤ count
    → take_run s count ≡ (k, t)
    → find_free_pages count s ≡ ok k t
find_free_pages-takes s count v many e =
    find_free_pages-run s count v.quiet (omega arith) ∙ ap (λ (r : ℕ × Allocator). ok r.0 r.1) e

abbrev pub TakesBlock : Allocator → ℕ → Type 0
TakesBlock s count =
    ((allocate_pages count s ≡ ok 0 s) × ((k : ℕ) → ¬ HasRun s count k))
    ⊎ ((k : ℕ) × (t : Allocator) × (allocate_pages count s ≡ ok (k * page_size) t)
        × Allocates s t k count)

-- From a state that meets the invariant, for a count from 2 to 2 ^ 48, `AllocatePages` terminates
-- with one of two results. It returns null, changes nothing, and no frame in range starts
-- `count + 1` clear ones (a bit out of range reads as clear); or it returns the address of a frame
-- in range, and the `count` frames from there on were free: those in range are marked, no other
-- frame changes, the invariant and the sum of the counters are kept, and the bytes in balance too
-- if the whole block is in range.
pub allocate_pages-TakesBlock :
    (s : Allocator) (count : ℕ) → Inv s → 2 ≤ count → count ≤ 2 ^ 48 → TakesBlock s count
allocate_pages-TakesBlock s count v many few =
    elim (Option-cases (find_run s.bitmap (frames s) count (frames s) 0)) [
      | inl e ↦ inl (
        allocate_pages-out s count (find_free_pages-takes s count v many (take_run-none s count e)),
        λ k.
            find_run-none s.bitmap size count v.small many few size 0 k (rw (frames_small s v) at e)
              (omega arith) (omega arith),
      )
      | inr (k, e) ↦
          let (t, a, b) =
            allocate_block s count k v few
              (find_run-some s.bitmap size count v.small many few size 0 k
                (rw (frames_small s v) at e))
              (find_free_pages-takes s count v many (take_run-some s count k many e)) in
          inr (k, t, a, b)
    ]
  where
    size : ℕ
    size = s.bitmap.size * 8
