-- ===== src/Memory/FrameAllocator/AllocateLaws.antt =====
-- `AllocatePage`: which frame it hands out, and what it leaves.
use frosty_os_old.Data.Bitmap.Laws.{set_size_same, get-set_in}
use frosty_os_old.Memory.FrameAllocator.Allocate.{allocate_page}
use frosty_os_old.Common.{
  update, ap, eq→==, ◌∙◌, ne→==, Option-cases, ◌⊎◌, ℕ, zero, suc, ◌+◌, ◌*◌, ◌≤◌, ◌<◌, ◌≡◌, refl,
  ◌≢◌, inl, inr, true, false, none, some, if◌then◌else◌, ◌==◌, eq_cases, u64_max, arith,
}
use frosty_os_old.Data.Bitmap.{Bitmap, get}
use frosty_os_old.Memory.FrameAllocator.State.{
  panic, page_size, address, frame, Allocator, ok, frames,
}
use frosty_os_old.Memory.FrameAllocator.Search.{
  scan, next_is_free, take_hint, take_first, find_free_page,
}
use frosty_os_old.Memory.FrameAllocator.PageLaws.{lock_page_lem, used_frame, IsQuiet}
use frosty_os_old.Memory.FrameAllocator.Invariant.{
  used_frame-SameSums, total_mem, account, used_frame-Inv, SameSums, Inv, HintIsFree,
}

-- The loop stops at the first clear bit from `i` on, and fails only if all bits are set.
pub scan-some :
    (m : Bitmap) (rounds i k : ℕ)
    → scan m rounds i ≡ some k
    → (i ≤ k) × (k < i + rounds) × (get m k ≡ false)
unfolding scan
scan-some m zero i k e = cc
scan-some m (suc rounds) i k e = ground (arith, scan-some m rounds (i + 1) k)

pub scan-none :
    (m : Bitmap) (rounds i j : ℕ) → scan m rounds i ≡ none → i ≤ j → j < i + rounds → get m j ≡ true
unfolding scan
scan-none m zero i j e h k = absurd (omega arith)
scan-none m (suc rounds) i j e h k = elim (eq_cases i j) [
  | inl p ↦ ground arith
  | inr p ↦ ground (arith, scan-none m rounds (i + 1) j)
]

abbrev picked : Allocator → ℕ × Allocator
picked s = if s.next_free == u64_max then take_first s else take_hint s

find_free_page_lem : (s : Allocator) → IsQuiet s → find_free_page s ≡ ok (picked s).0 (picked s).1
unfolding find_free_page
find_free_page_lem s q = ground arith

-- A free frame in range was found, and only the hint has changed, to another free frame or to none.
pub record Picks (s : Allocator) (i hint : ℕ) : Type 0 where
  pub in_range : i < s.bitmap.size * 8
  pub was_free : get s.bitmap i ≡ false
  pub hint_free : HintIsFree s.bitmap hint
  pub hint_other : hint ≢ i

abbrev pub AllUsed : Allocator → Type 0
AllUsed s = (i : ℕ) → i < s.bitmap.size * 8 → get s.bitmap i ≡ true

take_hint_lem :
    (s : Allocator)
    → Inv s
    → s.next_free ≢ u64_max
    → (hint : ℕ) × (take_hint s ≡ (s.next_free, record s { next_free = hint }))
      × Picks s s.next_free hint
unfolding take_hint frames
take_hint_lem s v ne = (
  (if next_is_free s s.next_free then s.next_free + 1 else u64_max),
  refl,
  ground (arith, v.small, v.hint_free),
)

take_first_lem :
    (s : Allocator)
    → Inv s
    → s.next_free ≡ u64_max
    → (AllUsed s × (take_first s ≡ (u64_max, s)))
      ⊎ ((i hint : ℕ) × (take_first s ≡ (i, record s { next_free = hint })) × Picks s i hint)
unfolding take_first frames
take_first_lem s v e = elim (Option-cases (scan s.bitmap (frames s) 0)) [
  | inl none_left ↦ inl (
    (λ i h. scan-none s.bitmap (frames s) 0 i none_left (omega arith) (omega (arith, v.small))),
    rw (none_left, take_first),
  )
  | inr (i, found) ↦ inr (
    i,
    (if next_is_free s i then i + 1 else s.next_free),
    rw (found, take_first),
    ground (arith, v.small, scan-some s.bitmap (frames s) 0 i found),
  )
]

find_free_page-picked :
    (s : Allocator)
    → IsQuiet s
    → {i : ℕ} {t : Allocator} → picked s ≡ (i, t)
    → find_free_page s ≡ ok i t
find_free_page-picked s q e = find_free_page_lem s q ∙ ap (λ (r : ℕ × Allocator). ok r.0 r.1) e

picked-first : (s : Allocator) → s.next_free ≡ u64_max → picked s ≡ take_first s
picked-first s e = rw (eq→== s.next_free u64_max e)

picked-hint : (s : Allocator) → s.next_free ≢ u64_max → picked s ≡ take_hint s
picked-hint s e = rw (ne→== s.next_free u64_max e)

-- What `FindFreePage` does from a good state: a free frame is found unless all are used.
pub find_free_page-Picks :
    (s : Allocator)
    → Inv s
    → (AllUsed s × (find_free_page s ≡ ok u64_max s))
      ⊎ ((i hint : ℕ) × (find_free_page s ≡ ok i (record s { next_free = hint })) × Picks s i hint)
find_free_page-Picks s v = elim (eq_cases s.next_free u64_max) [
  | inl e ↦ elim (take_first_lem s v e) [
    | inl (all, p) ↦ inl (all, find_free_page-picked s v.quiet (picked-first s e ∙ p))
    | inr (i, hint, p, k) ↦ inr (i, hint, find_free_page-picked s v.quiet (picked-first s e ∙ p), k)
  ]
  | inr e ↦
      let (hint, p, k) = take_hint_lem s v e in
      inr (s.next_free, hint, find_free_page-picked s v.quiet (picked-hint s e ∙ p), k)
]

frame-address :
    (s : Allocator) (i : ℕ)
    → Inv s
    → i < s.bitmap.size * 8
    → (frame (address i) ≡ i) × (address i ≡ i * page_size) × (i ≢ u64_max)
unfolding frame address
frame-address s i v h = omega (arith, v.small)

-- The state between the search and the marking.
Picks-Inv :
    (s : Allocator) (i hint : ℕ) → Inv s → Picks s i hint → Inv (record s { next_free = hint })
Picks-Inv s i hint v k = record {
  bytes = v.bytes;
  small = v.small;
  hint_free = k.hint_free;
  quiet = record {
    bitmap_released = v.quiet.bitmap_released;
    global_released = v.quiet.global_released;
  };
}

allocate_page-found :
    (s : Allocator) (i hint : ℕ)
    → Inv s
    → find_free_page s ≡ ok i (record s { next_free = hint })
    → Picks s i hint
    → allocate_page s ≡ ok (i * page_size) (used_frame (record s { next_free = hint }) i)
unfolding allocate_page
allocate_page-found s i hint v e k =
    let (f, a, ne) = frame-address s i v k.in_range in
    ground (
      arith,
      lock_page_lem (record s { next_free = hint }) (address i) (Picks-Inv s i hint v k).quiet,
    )

allocate_page-out : (s : Allocator) → find_free_page s ≡ ok u64_max s → allocate_page s ≡ panic
unfolding allocate_page
allocate_page-out s e = ground arith

Picks-SameSums :
    (s : Allocator) (i hint : ℕ)
    → Inv s
    → Picks s i hint
    → SameSums s (used_frame (record s { next_free = hint }) i)
unfolding account total_mem
Picks-SameSums s i hint v k =
    used_frame-SameSums (record s { next_free = hint }) i (Picks-Inv s i hint v k) k.in_range
      k.was_free

-- The two ends of `AllocatePage`.
abbrev pub TakesFree : Allocator → Type 0
TakesFree s =
    (AllUsed s × (allocate_page s ≡ panic))
    ⊎ ((i : ℕ) × (t : Allocator) × (allocate_page s ≡ ok (i * page_size) t)
        × (i < s.bitmap.size * 8)
        × (get s.bitmap i ≡ false)
        × (get t.bitmap ≡ update (get s.bitmap) i true)
        × (t.bitmap.size ≡ s.bitmap.size)
        × Inv t
        × SameSums s t)

-- From a state that meets the invariant, `AllocatePage` panics with every frame in use, or it
-- returns the address of a frame in range that was free; that frame is marked and no other
-- changes; the invariant holds again, and the free bytes by the counter plus the marked bytes,
-- and the sum of the three counters, are what they were (modulo 2 ^ 64).
pub allocate_page-TakesFree : (s : Allocator) → Inv s → TakesFree s
allocate_page-TakesFree s v = elim (find_free_page-Picks s v) [
  | inl (all, e) ↦ inl (all, allocate_page-out s e)
  | inr (i, hint, e, k) ↦
      let w = Picks-Inv s i hint v k in
      let s' : Allocator = record s { next_free = hint } in
      inr (
        i,
        used_frame s' i,
        allocate_page-found s i hint v e k,
        k.in_range,
        k.was_free,
        get-set_in s.bitmap i true v.bytes k.in_range,
        set_size_same s.bitmap i true,
        used_frame-Inv s' i w k.in_range k.hint_other,
        Picks-SameSums s i hint v k,
      )
]
