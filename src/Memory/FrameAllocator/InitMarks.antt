-- ===== src/Memory/FrameAllocator/InitMarks.antt =====
-- Which frames are marked after `EarlyInit`.
use frosty_os_old.Memory.FrameAllocator.Invariant.{Inv}
use frosty_os_old.Memory.FrameAllocator.PageLaws.{IsQuiet}
use frosty_os_old.Common.{
  not, some, ◌&&◌, ap, if◌then◌else◌, leb, ◌||◌, ◌%◌, test_bit_full, ℕ, zero, suc, ◌+◌, ◌*◌, ◌/◌,
  ◌≤◌, ◌<◌, ◌≡◌, refl, ◌∙◌, inl, inr, Bool, true, false, List, [], ◌∷◌, ◌==◌, ltb, Bool-cases,
  lt_cases, add64, arith, max, u64_mod,
}
use frosty_os_old.Data.Bitmap.{Bitmap, get}
use frosty_os_old.Data.Bitmap.Laws.{IsBytes, get-set}
use frosty_os_old.Memory.FrameAllocator.State.{Allocator, page_size}
use frosty_os_old.Memory.FrameAllocator.Init.{
  loop_ends, early_fill, all_end, Entry, memory_free, div_roundup, mark_from, mark_frames,
  mark_range, early_entry, early_entries, reserve_first, early_start, early_init,
}
use frosty_os_old.Memory.FrameAllocator.InitLaws.{
  early_fill-Inv, early_entries-Keeps, mark_from-bytes, early_entry-Keeps, early_start-IsBytes,
  early_fill-Keeps,
}

-- The frames from that of the base on, as many as the pages of the length, and one at least.
abbrev pub touches : ℕ → ℕ → ℕ → Bool
touches base length j =
    leb (base / page_size) j && ltb j (base / page_size + max 1 (div_roundup length page_size))

-- A range is marked unless it is free memory; of several ranges with the frame the last one counts, of none the
-- mark before them.
abbrev pub is_marked : List Entry → ℕ → Bool → Bool
is_marked [] j b = b
is_marked (e ∷ es) j b =
    is_marked es j (if touches e.base e.length j then not (e.kind == memory_free) else b)

-- The range ends a page below 2 ^ 64 or lower.
abbrev pub AllFit : List Entry → Type 0
AllFit [] = Unit {0}
AllFit (e ∷ es) = (e.base + e.length + page_size ≤ u64_mod) × AllFit es

frame_of_round :
    (base r : ℕ)
    → base + r * page_size < u64_mod
    → add64 base (r * page_size) / page_size ≡ base / page_size + r
unfolding add64
frame_of_round base r h = omega arith

mark_from-at :
    (m : Bitmap) (a i j : ℕ) (v : Bool)
    → IsBytes m
    → j < m.size * 8
    → a / page_size ≡ i
    → get (mark_from m 0 a v) j ≡ (if j == i then v else get m j)
unfolding mark_from
mark_from-at m a i j v b h e = ground (arith, get-set m (a / page_size) j v b)

-- The loop marks the frames from that of `base + r * 4096` on, one for each round.
mark_frames-at :
    (m : Bitmap) (base rounds r j : ℕ) (v : Bool)
    → IsBytes m
    → j < m.size * 8
    → base + (r + rounds) * page_size < u64_mod + page_size
    → get (mark_frames m 0 base rounds r v) j ≡ (
        if leb (base / page_size + r) j && ltb j (base / page_size + (r + rounds))
        then v
        else get m j)
unfolding mark_frames
mark_frames-at m base zero r j v b h fit = ground arith
mark_frames-at m base (suc rounds) r j v b h fit =
    let a = add64 base (r * page_size) in
    let (bytes, size) = mark_from-bytes m 0 a v b in
    let rest =
      mark_frames-at (mark_from m 0 a v) base rounds (r + 1) j v bytes (omega (arith, size))
        (omega arith) in
    let now =
      mark_from-at m a (base / page_size + r) j v b h (frame_of_round base r (omega arith)) in
    rest ∙ ground (arith, now)

mark_range-at :
    (m : Bitmap) (base length j : ℕ) (v : Bool)
    → IsBytes m
    → j < m.size * 8
    → base + div_roundup length page_size * page_size < u64_mod + page_size
    → length + page_size ≤ u64_mod
    → get (mark_range m 0 base length v) j ≡ (if touches base length j then v else get m j)
unfolding mark_range
mark_range-at m base length j v b h fit short = elim (lt_cases page_size length) [
  | inl l ↦
      let long : ltb page_size length ≡ true = ground (arith, l) in
      let many : max 1 (div_roundup length page_size) ≡ div_roundup length page_size =
        omega arith in
      rw (long, mark_range, many)
        (mark_frames-at m base (div_roundup length page_size) 0 j v b h (omega (arith, fit))
          ∙ ground arith)
  | inr l ↦
      let one : max 1 (div_roundup length page_size) ≡ 1 = omega arith in
      let not_long : ltb page_size length ≡ false = ground (arith, l) in
      rw (not_long, mark_range, one)
        (mark_from-at m base (base / page_size) j v b h refl ∙ ground arith)
]

roundup_again :
    (n : ℕ)
    → n + page_size ≤ u64_mod
    → div_roundup (div_roundup n page_size * page_size) page_size ≡ div_roundup n page_size
roundup_again n h = omega arith

early_entry-at :
    (s : Allocator) (e : Entry) (j : ℕ)
    → IsBytes s.bitmap
    → j < s.bitmap.size * 8
    → e.base + e.length + page_size ≤ u64_mod
    → get (early_entry s e).bitmap j
      ≡ (if touches e.base e.length j then not (e.kind == memory_free) else get s.bitmap j)
unfolding early_entry
early_entry-at s e j b h fit = elim (Bool-cases (e.kind == memory_free)) [
  | inl f ↦
      rw (f, early_entry)
        (mark_range-at s.bitmap e.base e.length j false b h (omega (arith, fit))
          (omega (arith, fit)))
  | inr f ↦
      let rounded = div_roundup e.length page_size * page_size in
      let same = roundup_again e.length (omega (arith, fit)) in
      let at_rounded =
        mark_range-at s.bitmap e.base rounded j true b h (omega (arith, fit, same))
          (omega (arith, fit)) in
      rw (f, early_entry) (at_rounded ∙ rw same refl)
]

early_entries-at :
    (s : Allocator) (es : List Entry) (j : ℕ)
    → IsBytes s.bitmap
    → j < s.bitmap.size * 8
    → AllFit es
    → get (early_entries s es).bitmap j ≡ is_marked es j (get s.bitmap j)
unfolding early_entries
early_entries-at s [] j b h fit = refl
early_entries-at s (e ∷ es) j b h fit =
    let k = early_entry-Keeps s e b in
    early_entries-at (early_entry s e) es j k.bytes.0 (omega (arith, h, k.bytes.1)) fit.1
    ∙ ap (is_marked es j) (early_entry-at s e j b h fit.0)

early_start-true :
    (s : Allocator) (memory : ℕ → ℕ) (memory_size j : ℕ)
    → j < (early_start s memory memory_size).bitmap.size * 8
    → get (early_start s memory memory_size).bitmap j ≡ true
unfolding early_start get
early_start-true s memory memory_size j h = ground (arith, test_bit_full (j % 8))

reserve_first-at :
    (s : Allocator) (j : ℕ)
    → IsBytes s.bitmap
    → j < s.bitmap.size * 8
    → get (reserve_first s).bitmap j ≡ (j == 0 || get s.bitmap j)
unfolding reserve_first
reserve_first-at s j b h = ground (arith, get-set s.bitmap 0 j true b)

early_fill-at :
    (s : Allocator) (memory : ℕ → ℕ) (entries : List Entry) (memory_size j : ℕ)
    → ((i : ℕ) → memory i < 256)
    → AllFit entries
    → j < (early_fill s memory entries memory_size).bitmap.size * 8
    → get (early_fill s memory entries memory_size).bitmap j ≡ (j == 0 || is_marked entries j true)
unfolding early_fill
early_fill-at s memory entries memory_size j b fit h =
    let start = early_start s memory memory_size in
    let sb = early_start-IsBytes s memory memory_size b in
    let k = early_entries-Keeps start entries sb in
    let size = (early_fill-Keeps s memory entries memory_size b).bytes.1 in
    let small : j < start.bitmap.size * 8 = omega (arith, size) in
    reserve_first-at (early_entries start entries) j k.bytes.0 (omega (arith, small, k.bytes.1))
    ∙ ap (λ x. j == 0 || x)
        (early_entries-at start entries j sb small fit
          ∙ ap (is_marked entries j) (early_start-true s memory memory_size j small))

AllFit-all_end : (es : List Entry) → AllFit es → all_end es ≡ true
unfolding all_end loop_ends
AllFit-all_end [] fit = refl
AllFit-all_end (e ∷ es) fit = ground (arith, fit.0, AllFit-all_end es fit.1)

-- `EarlyInit`, for a buffer of bytes, every memory size and a memory map each range of which ends a page
-- below 2 ^ 64 or lower, on an allocator whose locks are free, ends in a state that meets the invariant. In
-- it, of the frames that the bitmap has, the first one is marked; a frame that is touched by some entry of the
-- map is marked exactly if the last one of these is not free memory; every other frame is marked. An entry
-- touches as many frames, from that of its base on, as its length rounded up has pages, and one at least.
pub early_init-Inv :
    (s : Allocator) (memory : ℕ → ℕ) (entries : List Entry) (memory_size : ℕ)
    → IsQuiet s
    → ((i : ℕ) → memory i < 256)
    → AllFit entries
    → (t : Allocator) × (early_init s memory entries memory_size ≡ some t)
      × Inv t
      × ((j : ℕ) → j < t.bitmap.size * 8 → get t.bitmap j ≡ (j == 0 || is_marked entries j true))
unfolding early_init
early_init-Inv s memory entries memory_size q b fit = (
  early_fill s memory entries memory_size,
  rw (AllFit-all_end entries fit) refl,
  early_fill-Inv s memory entries memory_size q b,
  λ j h. early_fill-at s memory entries memory_size j b fit h,
)
