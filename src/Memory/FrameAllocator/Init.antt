-- ===== src/Memory/FrameAllocator/Init.antt =====
-- The constructor, `EarlyInit` and `FullInit`. The memory map of the bootloader is a list of entries.
-- What the memory holds before it is written is a parameter, and so is the memory that `to_HHDM`
-- makes of the pages that were allocated for the full bitmap.
use frosty_os_old.Common.{
  none, some, Option, ◌||◌, ◌&&◌, u64_mod, ◌%◌, ℕ, zero, suc, ◌+◌, ◌-◌, ◌*◌, ◌/◌, ◌==◌, ltb, leb,
  Bool, true, false, List, [], ◌∷◌, if◌then◌else◌, add64, u64_max,
}
use frosty_os_old.Data.Bitmap.{Bitmap, get, set, empty, set_size, set_buffer}
use frosty_os_old.Memory.FrameAllocator.State.{
  deadlock, Allocator, M, ◌>>=◌, ◌>>◌, branch, return, modify, stop, page_size,
}
use frosty_os_old.Memory.FrameAllocator.Allocate.{allocate_pages}

pub record Entry : Type 0 where
  pub base : ℕ
  pub length : ℕ
  pub kind : ℕ

-- `FROSTYOS_MEMORY_FREE`
abbrev pub memory_free : ℕ
memory_free = 0

abbrev pub four_gib : ℕ
four_gib = 4 * 1024 * 1024 * 1024

-- `DIV_ROUNDUP` on `uint64_t`
abbrev pub div_roundup : ℕ → ℕ → ℕ
div_roundup value div = ((value + (div - 1)) % u64_mod) / div

unfoldable pub new : (ℕ → ℕ) → Allocator
unfolding empty
new memory = record {
  bitmap = empty memory;
  free_mem = 0;
  reserved_mem = 0;
  used_mem = 0;
  mem_size = 0;
  next_free = u64_max;
  fully_initialised = false;
  bitmap_lock = false;
  global_lock = false;
}

-- `m_Bitmap.Set(a / PAGE_SIZE, value)`, unless `a` lies below `low`.
unfoldable pub mark_from : Bitmap → ℕ → ℕ → Bool → Bitmap
mark_from m low a value = if ltb a low then m else set m (a / page_size) value

-- `for (j = 0; j < length; j += PAGE_SIZE)` with the frame of `base + j`: the rounds left, and the
-- round. Its rounds are the pages of `length`, for a length of at most 2 ^ 64 - PAGE_SIZE, up to
-- which `j` does not wrap around: `early_init` and `full_init` say for a longer one that the loop does not end.
unfoldable pub mark_frames : Bitmap → ℕ → ℕ → ℕ → ℕ → Bool → Bitmap
unfolding mark_from
mark_frames m low base zero r value = m
mark_frames m low base (suc rounds) r value =
    mark_frames (mark_from m low (add64 base (r * page_size)) value) low base rounds (r + 1) value

-- A range of `length` bytes: the loop if it is longer than a page, else the one frame.
unfoldable pub mark_range : Bitmap → ℕ → ℕ → ℕ → Bool → Bitmap
unfolding mark_frames mark_from
mark_range m low base length value =
    if ltb page_size length
    then mark_frames m low base (div_roundup length page_size) 0 value
    else mark_from m low base value

unfoldable pub early_entry : Allocator → Entry → Allocator
unfolding mark_range
early_entry s e =
    if e.kind == memory_free
    then record s {
      free_mem = add64 s.free_mem e.length;
      bitmap = mark_range s.bitmap 0 e.base e.length false;
    }
    else record s {
      reserved_mem = add64 s.reserved_mem e.length;
      bitmap = mark_range s.bitmap 0 e.base (div_roundup e.length page_size * page_size) true;
    }

unfoldable pub early_entries : Allocator → List Entry → Allocator
unfolding early_entry
early_entries s [] = s
early_entries s (e ∷ es) = early_entries (early_entry s e) es

-- `if (m_Bitmap[0] == 0) { ... }`
unfoldable pub reserve_first : Allocator → Allocator
reserve_first s =
    if get s.bitmap 0
    then s
    else record s { reserved_mem = add64 s.reserved_mem page_size; bitmap = set s.bitmap 0 true }

-- `memset(buffer, 0xFF, size)`
abbrev pub filled : (ℕ → ℕ) → ℕ → ℕ → ℕ
filled memory size i = if ltb i size then 255 else memory i

-- The fields as `EarlyInit` sets them up, before it reads the map.
unfoldable pub early_start : Allocator → (ℕ → ℕ) → ℕ → Allocator
unfolding set_size set_buffer
early_start s memory memory_size =
    let mem = if ltb four_gib memory_size then four_gib else memory_size in
    let size = div_roundup mem (page_size * 8) in
    record s {
      fully_initialised = false;
      mem_size = mem;
      free_mem = 0;
      reserved_mem = 0;
      used_mem = 0;
      next_free = u64_max;
      bitmap = set_buffer (set_size s.bitmap size) (filled memory size);
    }

-- The state in which `EarlyInit` ends, if it does.
unfoldable pub early_fill : Allocator → (ℕ → ℕ) → List Entry → ℕ → Allocator
unfolding early_entries reserve_first early_start
early_fill s memory entries memory_size =
    reserve_first (early_entries (early_start s memory memory_size) entries)

-- The loop over a range ends: for a longer one, `j` wraps around and stays below the length for ever. The
-- length of a reserved range is rounded up (modulo 2 ^ 64) to one for which the loop ends.
unfoldable pub loop_ends : Entry → Bool
loop_ends e = if e.kind == memory_free then leb e.length (u64_mod - page_size) else true

unfoldable pub all_end : List Entry → Bool
unfolding loop_ends
all_end [] = true
all_end (e ∷ es) = loop_ends e && all_end es

-- `none` where it goes on for ever.
unfoldable pub early_init : Allocator → (ℕ → ℕ) → List Entry → ℕ → Option Allocator
unfolding early_fill all_end
early_init s memory entries memory_size =
    if all_end entries then some (early_fill s memory entries memory_size) else none

-- `continue`, for a range that ends by 4 GiB.
abbrev pub is_skipped : Entry → Bool
is_skipped e = leb (add64 e.base e.length) four_gib

unfoldable pub all_end_above : List Entry → Bool
unfolding loop_ends
all_end_above [] = true
all_end_above (e ∷ es) = (is_skipped e || loop_ends e) && all_end_above es

unfoldable pub full_entry : Allocator → Entry → Allocator
unfolding mark_range
full_entry s e =
    if is_skipped e
    then s
    else if e.kind == memory_free
    then record s {
      free_mem = add64 s.free_mem e.length;
      bitmap = mark_range s.bitmap four_gib e.base e.length false;
    }
    else record s {
      reserved_mem = add64 s.reserved_mem e.length;
      bitmap =
          mark_range s.bitmap four_gib (e.base / page_size * page_size)
            (div_roundup e.length page_size * page_size) true;
    }

unfoldable pub full_entries : Allocator → List Entry → Allocator
unfolding full_entry
full_entries s [] = s
full_entries s (e ∷ es) = full_entries (full_entry s e) es

-- `memcpy(buffer, g_EarlyBitmap, KiB(128))` over the filled memory of the new bitmap.
abbrev pub copied : (ℕ → ℕ) → (ℕ → ℕ) → ℕ → ℕ → ℕ
copied early memory size i = if ltb i (128 * 1024) then early i else filled memory size i

-- The early bitmap is where the bitmap's buffer is until then. Up to 4 GiB nothing happens but the new size: `m_fullyInitialised` stays
-- false. A loop over a range that does not end is the outcome `deadlock`.
unfoldable pub full_init : (ℕ → ℕ → ℕ) → List Entry → ℕ → M (Unit {0})
unfolding full_entries reserve_first set_size set_buffer allocate_pages all_end_above
full_init to_hhdm entries memory_size = do
  modify (λ s. record s { mem_size = memory_size })
  branch (leb memory_size four_gib) (return tt) do
    let size = div_roundup memory_size (page_size * 8)
    address ← allocate_pages (div_roundup size page_size)
    branch (address == 0) stop do
      modify (λ s. record s {
        bitmap =
            set_buffer (set_size s.bitmap size) (copied s.bitmap.buffer (to_hhdm address) size);
      })
      branch (all_end_above entries) (return tt) (λ _. deadlock)
      modify (λ s. reserve_first (full_entries s entries))
      modify (λ s. record s {
        next_free = u64_max;
        fully_initialised = true;
        bitmap_lock = false;
        global_lock = false;
      })
