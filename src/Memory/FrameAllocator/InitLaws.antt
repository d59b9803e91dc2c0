-- ===== src/Memory/FrameAllocator/InitLaws.antt =====
-- What `EarlyInit` makes of a memory map.
use frosty_os_old.Common.{
  ℕ, zero, suc, ◌+◌, ◌*◌, ◌/◌, ◌^◌, ◌≤◌, ◌<◌, ◌≡◌, refl, ◌∙◌, inl, inr, Bool, true, false, List, [],
  ◌∷◌, ◌==◌, ltb, Bool-cases, add64, u64_max, arith,
}
use frosty_os_old.Data.Bitmap.{Bitmap, get}
use frosty_os_old.Data.Bitmap.Laws.{IsBytes, set-IsBytes, set_size_same}
use frosty_os_old.Memory.FrameAllocator.State.{Allocator, page_size}
use frosty_os_old.Memory.FrameAllocator.PageLaws.{IsQuiet}
use frosty_os_old.Memory.FrameAllocator.Invariant.{Inv}
use frosty_os_old.Memory.FrameAllocator.Init.{
  early_start, mark_from, Entry, memory_free, div_roundup, mark_frames, mark_range, early_entry,
  early_entries, reserve_first, early_fill,
}

-- Bytes stay bytes, and the size stays.
abbrev pub KeepsBytes : Bitmap → Bitmap → Type 0
KeepsBytes m n = IsBytes n × (n.size ≡ m.size)

pub mark_from-bytes :
    (m : Bitmap) (low a : ℕ) (v : Bool) → IsBytes m → KeepsBytes m (mark_from m low a v)
unfolding mark_from
mark_from-bytes m low a v b = elim (Bool-cases (ltb a low)) [
  | inl e ↦ rw (e, mark_from) (b, refl)
  | inr e ↦ rw (e, mark_from) (set-IsBytes m (a / page_size) v b, set_size_same m (a / page_size) v)
]

mark_frames-bytes :
    (m : Bitmap) (low base rounds r : ℕ) (v : Bool)
    → IsBytes m
    → KeepsBytes m (mark_frames m low base rounds r v)
unfolding mark_frames
mark_frames-bytes m low base zero r v b = (b, refl)
mark_frames-bytes m low base (suc rounds) r v b =
    let n = mark_from m low (add64 base (r * page_size)) v in
    let (x, p) = mark_from-bytes m low (add64 base (r * page_size)) v b in
    let (y, q) = mark_frames-bytes n low base rounds (r + 1) v x in (y, q ∙ p)

pub mark_range-bytes :
    (m : Bitmap) (low base length : ℕ) (v : Bool)
    → IsBytes m
    → KeepsBytes m (mark_range m low base length v)
unfolding mark_range
mark_range-bytes m low base length v b = elim (Bool-cases (ltb page_size length)) [
  | inl e ↦ rw (e, mark_range) (mark_frames-bytes m low base (div_roundup length page_size) 0 v b)
  | inr e ↦ rw (e, mark_range) (mark_from-bytes m low base v b)
]

-- What an entry keeps of the allocator.
pub record Keeps (s t : Allocator) : Type 0 where
  pub bytes : KeepsBytes s.bitmap t.bitmap
  pub hint : t.next_free ≡ s.next_free
  pub first_lock : t.bitmap_lock ≡ s.bitmap_lock
  pub second_lock : t.global_lock ≡ s.global_lock

Keeps-trans : {s t u : Allocator} → Keeps s t → Keeps t u → Keeps s u
Keeps-trans a b = record {
  bytes = (b.bytes.0, b.bytes.1 ∙ a.bytes.1);
  hint = b.hint ∙ a.hint;
  first_lock = b.first_lock ∙ a.first_lock;
  second_lock = b.second_lock ∙ a.second_lock;
}

pub early_entry-Keeps : (s : Allocator) (e : Entry) → IsBytes s.bitmap → Keeps s (early_entry s e)
unfolding early_entry
early_entry-Keeps s e b = elim (Bool-cases (e.kind == memory_free)) [
  | inl f ↦
      rw (f, early_entry)
        (record {
          bytes = mark_range-bytes s.bitmap 0 e.base e.length false b;
          hint = refl;
          first_lock = refl;
          second_lock = refl;
        })
  | inr f ↦
      rw (f, early_entry)
        (record {
          bytes =
              mark_range-bytes s.bitmap 0 e.base (div_roundup e.length page_size * page_size) true
                b;
          hint = refl;
          first_lock = refl;
          second_lock = refl;
        })
]

pub early_entries-Keeps :
    (s : Allocator) (es : List Entry) → IsBytes s.bitmap → Keeps s (early_entries s es)
unfolding early_entries
early_entries-Keeps s [] b = record {
  bytes = (b, refl);
  hint = refl;
  first_lock = refl;
  second_lock = refl;
}
early_entries-Keeps s (e ∷ es) b =
    let k = early_entry-Keeps s e b in
    Keeps-trans k (early_entries-Keeps (early_entry s e) es k.bytes.0)

reserve_first-Keeps : (s : Allocator) → IsBytes s.bitmap → Keeps s (reserve_first s)
unfolding reserve_first
reserve_first-Keeps s b = elim (Bool-cases (get s.bitmap 0)) [
  | inl f ↦
      rw (f, reserve_first)
        (record { bytes = (b, refl); hint = refl; first_lock = refl; second_lock = refl })
  | inr f ↦
      rw (f, reserve_first)
        (record {
          bytes = (set-IsBytes s.bitmap 0 true b, set_size_same s.bitmap 0 true);
          hint = refl;
          first_lock = refl;
          second_lock = refl;
        })
]

pub early_start-IsBytes :
    (s : Allocator) (memory : ℕ → ℕ) (memory_size : ℕ)
    → ((i : ℕ) → memory i < 256)
    → IsBytes (early_start s memory memory_size).bitmap
unfolding early_start
early_start-IsBytes s memory memory_size b i = ground (arith, b i)

-- The bitmap of `EarlyInit` has a bit for each frame of the first 4 GiB at most.
pub early_start-small :
    (s : Allocator) (memory : ℕ → ℕ) (memory_size : ℕ)
    → (early_start s memory memory_size).bitmap.size * 8 ≤ 2 ^ 48
unfolding early_start
early_start-small s memory memory_size = ground arith

-- The state in which `EarlyInit` ends keeps what `early_start` set up.
pub early_fill-Keeps :
    (s : Allocator) (memory : ℕ → ℕ) (entries : List Entry) (memory_size : ℕ)
    → ((i : ℕ) → memory i < 256)
    → Keeps (early_start s memory memory_size) (early_fill s memory entries memory_size)
unfolding early_fill
early_fill-Keeps s memory entries memory_size b =
    let k =
      early_entries-Keeps (early_start s memory memory_size) entries
        (early_start-IsBytes s memory memory_size b) in
    Keeps-trans k
      (reserve_first-Keeps (early_entries (early_start s memory memory_size) entries) k.bytes.0)

early_start-rest :
    (s : Allocator) (memory : ℕ → ℕ) (memory_size : ℕ)
    → let t = early_start s memory memory_size in
      (t.next_free ≡ u64_max) × (t.bitmap_lock ≡ s.bitmap_lock) × (t.global_lock ≡ s.global_lock)
unfolding early_start
early_start-rest s memory memory_size = (refl, refl, refl)

-- The state in which `EarlyInit` ends meets the invariant.
pub early_fill-Inv :
    (s : Allocator) (memory : ℕ → ℕ) (entries : List Entry) (memory_size : ℕ)
    → IsQuiet s
    → ((i : ℕ) → memory i < 256)
    → Inv (early_fill s memory entries memory_size)
early_fill-Inv s memory entries memory_size q b =
    let k = early_fill-Keeps s memory entries memory_size b in
    let (hint, first, second) = early_start-rest s memory memory_size in
    record {
      bytes = k.bytes.0;
      small = rw (k.bytes.1) (early_start-small s memory memory_size);
      hint_free = inl (k.hint ∙ hint);
      quiet = record {
        bitmap_released = k.first_lock ∙ first ∙ q.bitmap_released;
        global_released = k.second_lock ∙ second ∙ q.global_released;
      };
    }
