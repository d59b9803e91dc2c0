-- ===== src/Memory/Region/Inside.antt =====
-- `IsInside` and `EnsureIsInside`.
use frosty_os_old.Common.{◌-◌, ℕ, ◌+◌, ◌≤◌, ◌<◌, ◌≡◌, true, false, arith, u64_mod, add64, ◌↔◌}
use frosty_os_old.Memory.Region.{Region, is_inside, ensure_is_inside}
use frosty_os_old.Memory.Region.Changes.{IsRegion}

-- For a range of at least one byte that does not wrap around, `IsInside` says whether each of its bytes
-- lies in the region.
pub is_inside-bytes :
    (r : Region) (mem size : ℕ)
    → 0 < size
    → mem + size < u64_mod
    → (is_inside r mem size ≡ true) ↔ ((i : ℕ) → i < size → (r.start ≤ mem + i) × (mem + i < r.end))
unfolding is_inside add64
is_inside-bytes r mem size p h = (
  λ e i b. (ground arith, ground arith),
  λ f.
      let first = (f 0 p).0 in
      let last = (f (size - 1) (omega arith)).1 in ground (arith, first, last),
)

-- On a region in order, for a range of no more than the region's size that begins below the region and
-- reaches into it: `EnsureIsInside` says yes, moves the range to the region's start, and the range
-- is inside then.
ensure_is_inside-moved :
    (r : Region) (mem size : ℕ)
    → IsRegion r
    → mem < r.start
    → r.start < mem + size
    → size ≤ r.size
    → (ensure_is_inside r mem size ≡ (true, r.start, size)) × (is_inside r r.start size ≡ true)
unfolding ensure_is_inside is_inside add64
ensure_is_inside-moved r mem size v a b c =
    (ground (arith, v.in_words, v.size_fits), ground (arith, v.in_words, v.size_fits))

-- On a region in order, for a range of no more than the region's size that begins in the region,
-- above its start, and reaches past its end: `EnsureIsInside` says yes and leaves the range as it is, not inside.
ensure_is_inside-past_end :
    (r : Region) (mem size : ℕ)
    → IsRegion r
    → r.start < mem
    → mem ≤ r.end
    → r.end < mem + size
    → size ≤ r.size
    → mem + size < u64_mod
    → (ensure_is_inside r mem size ≡ (true, mem, size)) × (is_inside r mem size ≡ false)
unfolding ensure_is_inside is_inside add64
ensure_is_inside-past_end r mem size v a b c d e =
    (ground (arith, v.in_words, v.size_fits), ground (arith, v.in_words, v.size_fits))
