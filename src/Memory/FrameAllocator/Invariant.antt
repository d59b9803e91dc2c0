-- ===== src/Memory/FrameAllocator/Invariant.antt =====
-- The invariant of the allocator, and the two sums that its operations keep.
use frosty_os_old.Common.{
  ne→==, inr, inl, eq_cases, ◌==◌, refl, if◌then◌else◌, ◌∙◌, sub64, add64, ℕ, ◌+◌, ◌*◌, ◌%◌, ◌^◌,
  ◌≤◌, ◌<◌, ◌≡◌, ◌≢◌, ◌⊎◌, Bool, true, false, u64_max, u64_mod, arith,
}
use frosty_os_old.Data.Bitmap.{Bitmap, get, set}
use frosty_os_old.Data.Bitmap.Laws.{
  marked-set-false, marked-set-true, get-set_at, marked, set-IsBytes, IsBytes, set_size_same,
}
use frosty_os_old.Memory.FrameAllocator.State.{Allocator, page_size}
use frosty_os_old.Memory.FrameAllocator.PageLaws.{
  freed_frame, unreserved_frame, used_frame, reserved_frame, IsQuiet,
}

-- The hint is absent, or names a frame in range that is free.
abbrev pub HintIsFree : Bitmap → ℕ → Type 0
HintIsFree m hint = (hint ≡ u64_max) ⊎ ((hint < m.size * 8) × (get m hint ≡ false))

pub record Inv (s : Allocator) : Type 0 where
  pub bytes : IsBytes s.bitmap
  pub small : s.bitmap.size * 8 ≤ 2 ^ 48
  pub hint_free : HintIsFree s.bitmap s.next_free
  pub quiet : IsQuiet s

-- The free bytes by the counter plus the bytes of the frames that the bitmap marks.
unfoldable pub account : Allocator → ℕ
account s = (s.free_mem + page_size * marked s.bitmap) % u64_mod

-- The three counters together.
unfoldable pub total_mem : Allocator → ℕ
total_mem s = (s.free_mem + s.reserved_mem + s.used_mem) % u64_mod

abbrev pub SameSums : Allocator → Allocator → Type 0
SameSums s t = (account t ≡ account s) × (total_mem t ≡ total_mem s)

module _ (s : Allocator) (i : ℕ) (v : Inv s) (h : i < s.bitmap.size * 8) where
  hint-mark :
      (hint : ℕ) → HintIsFree s.bitmap hint → hint ≢ i → HintIsFree (set s.bitmap i true) hint
  hint-mark hint f ne =
      ground (arith, set_size_same s.bitmap i true, get-set_at s.bitmap i hint true v.bytes h)

  hint-clear : (hint : ℕ) → HintIsFree s.bitmap hint → HintIsFree (set s.bitmap i false) hint
  hint-clear hint f =
      ground (arith, set_size_same s.bitmap i false, get-set_at s.bitmap i hint false v.bytes h)

  hint-clear_self : HintIsFree (set s.bitmap i false) i
  hint-clear_self =
      ground (arith, set_size_same s.bitmap i false, get-set_at s.bitmap i i false v.bytes h)

  -- A change of the bitmap at `i` and of the counters keeps the invariant if the hint stays good.
  Inv-bitmap :
      (b : Bool) (t : Allocator)
      → t.bitmap ≡ set s.bitmap i b
      → HintIsFree (set s.bitmap i b) t.next_free
      → t.bitmap_lock ≡ s.bitmap_lock
      → t.global_lock ≡ s.global_lock
      → Inv t
  Inv-bitmap b t e f p q = record {
    bytes = rw e (set-IsBytes s.bitmap i b v.bytes);
    small = rw (e, set_size_same s.bitmap i b) v.small;
    hint_free = rw e f;
    quiet = record {
      bitmap_released = p ∙ v.quiet.bitmap_released;
      global_released = q ∙ v.quiet.global_released;
    };
  }

  pub used_frame-Inv : s.next_free ≢ i → Inv (used_frame s i)
  used_frame-Inv ne =
      Inv-bitmap true (used_frame s i) refl (hint-mark s.next_free v.hint_free ne) refl refl

  pub reserved_frame-Inv : Inv (reserved_frame s i)
  reserved_frame-Inv = Inv-bitmap true (reserved_frame s i) refl reserved_hint refl refl
    where
      reserved_hint :
          HintIsFree (set s.bitmap i true) (if s.next_free == i then u64_max else s.next_free)
      reserved_hint = elim (eq_cases s.next_free i) [
        | inl e ↦ inl (ground arith)
        | inr e ↦ rw (ne→== s.next_free i e) (hint-mark s.next_free v.hint_free e)
      ]

  pub freed_frame-Inv : (hint : ℕ) → (hint ≡ i) ⊎ (hint ≡ s.next_free) → Inv (freed_frame s i hint)
  freed_frame-Inv hint (inl e) =
      Inv-bitmap false (freed_frame s i hint) refl (rw e hint-clear_self) refl refl
  freed_frame-Inv hint (inr e) =
      Inv-bitmap false (freed_frame s i hint) refl (rw e (hint-clear s.next_free v.hint_free)) refl
        refl

  pub unreserved_frame-Inv : Inv (unreserved_frame s i)
  unreserved_frame-Inv = Inv-bitmap false (unreserved_frame s i) refl hint-clear_self refl refl

  pub used_frame-SameSums : get s.bitmap i ≡ false → SameSums s (used_frame s i)
  unfolding account total_mem add64 sub64
  used_frame-SameSums e = omega (arith, marked-set-true s.bitmap i v.bytes h e)

  pub reserved_frame-SameSums : get s.bitmap i ≡ false → SameSums s (reserved_frame s i)
  unfolding account total_mem add64 sub64
  reserved_frame-SameSums e = omega (arith, marked-set-true s.bitmap i v.bytes h e)

  pub freed_frame-SameSums : (hint : ℕ) → get s.bitmap i ≡ true → SameSums s (freed_frame s i hint)
  unfolding account total_mem add64 sub64
  freed_frame-SameSums hint e = omega (arith, marked-set-false s.bitmap i v.bytes h e)

  pub unreserved_frame-SameSums : get s.bitmap i ≡ true → SameSums s (unreserved_frame s i)
  unfolding account total_mem add64 sub64
  unreserved_frame-SameSums e = omega (arith, marked-set-false s.bitmap i v.bytes h e)
