-- ===== src/Memory/FrameAllocator/LockLaws.antt =====
-- The loop of `LockPages` over a block of clear frames.

use frosty_os_old.Memory.FrameAllocator.Pages.{lock_page, each_page}
use frosty_os_old.Common.{
  zero, suc, zero, ◌∙◌, ◌<◌, suc, refl, false, ◌==◌, sub64, ℕ, ◌+◌, ◌*◌, ◌^◌, ◌≤◌, ◌≡◌, ◌≢◌, inl,
  inr, Bool, true, ◌&&◌, if◌then◌else◌, ltb, leb, lt_cases, add64, arith,
}
use frosty_os_old.Data.Bitmap.{get}
use frosty_os_old.Data.Bitmap.Laws.{set_size_same, get-set, set_out}
use frosty_os_old.Memory.FrameAllocator.State.{Allocator, ok, page_size, frame, address}
use frosty_os_old.Memory.FrameAllocator.PageLaws.{lock_page_lem, used_frame}
use frosty_os_old.Memory.FrameAllocator.Invariant.{
  used_frame-SameSums, account, Inv, used_frame-Inv, total_mem,
}

abbrev pub in_block : ℕ → ℕ → ℕ → Bool
in_block first count j = leb first j && ltb j (first + count)

-- A state after some frames of a block were locked.
pub record Locked (s t : Allocator) (first count : ℕ) : Type 0 where
  pub inv : Inv t
  pub same_size : t.bitmap.size ≡ s.bitmap.size
  pub same_hint : t.next_free ≡ s.next_free
  pub bits :
      (j : ℕ)
      → get t.bitmap j
        ≡ (if in_block first count j && ltb j (s.bitmap.size * 8) then true else get s.bitmap j)
  pub total : total_mem t ≡ total_mem s
  pub balance : first + count ≤ s.bitmap.size * 8 → account t ≡ account s

-- `LockPage` at a frame that is not the hint, also out of range.
lock_frame-Inv : (s : Allocator) (i : ℕ) → Inv s → s.next_free ≢ i → Inv (used_frame s i)
lock_frame-Inv s i v ne = elim (lt_cases i (s.bitmap.size * 8)) [
  | inl h ↦ used_frame-Inv s i v h ne
  | inr h ↦ record {
    bytes = rw (set_out s.bitmap i true h) v.bytes;
    small = rw (set_out s.bitmap i true h) v.small;
    hint_free = rw (set_out s.bitmap i true h) v.hint_free;
    quiet = record {
      bitmap_released = v.quiet.bitmap_released;
      global_released = v.quiet.global_released;
    };
  }
]

frame_of :
    (first i : ℕ) → first + i ≤ 2 ^ 50 → frame (add64 (i * page_size) (address first)) ≡ first + i
unfolding frame address add64
frame_of first i h = omega arith

lock_clear :
    (s : Allocator) (first i : ℕ)
    → Inv s
    → first + i ≤ 2 ^ 50
    → get s.bitmap (first + i) ≡ false
    → lock_page (add64 (i * page_size) (address first)) s ≡ ok tt (used_frame s (first + i))
lock_clear s first i v h e =
    ground
      (arith, frame_of first i h, lock_page_lem s (add64 (i * page_size) (address first)) v.quiet)

total_mem-used : (s : Allocator) (i : ℕ) → total_mem (used_frame s i) ≡ total_mem s
unfolding total_mem add64 sub64
total_mem-used s i = omega arith

bit-used :
    (s : Allocator) (i j : ℕ)
    → Inv s
    → get (used_frame s i).bitmap j
      ≡ (if (j == i) && ltb i (s.bitmap.size * 8) then true else get s.bitmap j)
bit-used s i j v = get-set s.bitmap i j true v.bytes

Locked-refl : (s : Allocator) (first : ℕ) → Inv s → Locked s s first 0
Locked-refl s first v = record {
  inv = v;
  same_size = refl;
  same_hint = refl;
  bits = λ j. ground arith;
  total = refl;
  balance = λ _. refl;
}

Locked-step :
    (s t : Allocator) (p rounds : ℕ)
    → Inv s
    → get s.bitmap p ≡ false
    → Locked (used_frame s p) t (suc p) rounds
    → Locked s t p (suc rounds)
Locked-step s t p rounds v e k = record {
  inv = k.inv;
  same_size = k.same_size ∙ set_size_same s.bitmap p true;
  same_hint = k.same_hint;
  bits = λ j. ground (arith, k.bits j, bit-used s p j v, set_size_same s.bitmap p true);
  total = k.total ∙ total_mem-used s p;
  balance = λ h.
      k.balance (omega (arith, set_size_same s.bitmap p true))
      ∙ (used_frame-SameSums s p v (omega arith) e).0;
}

-- The frames of a block are clear, and the hint names none of them.
abbrev IsClearBlock : Allocator → ℕ → ℕ → Type 0
IsClearBlock s p count =
    (j : ℕ) → p ≤ j → j < p + count → (get s.bitmap j ≡ false) × (s.next_free ≢ j)

IsClearBlock-used :
    (s : Allocator) (p rounds : ℕ)
    → Inv s
    → IsClearBlock s p (suc rounds)
    → IsClearBlock (used_frame s p) (suc p) rounds
IsClearBlock-used s p rounds v c j a b =
    let before = c j (omega arith) (omega arith) in (ground (arith, bit-used s p j v), before.1)

pub lock_loop :
    (rounds i first p : ℕ) (s : Allocator)
    → p ≡ first + i
    → Inv s
    → p + rounds ≤ 2 ^ 50
    → IsClearBlock s p rounds
    → (t : Allocator) × (each_page lock_page rounds i (address first) s ≡ ok tt t)
      × Locked s t p rounds
unfolding each_page
lock_loop zero i first p s q v h c = (s, refl, Locked-refl s p v)
lock_loop (suc rounds) i first p s q v h c =
    let here = c p (omega arith) (omega arith) in
    let step : lock_page (add64 (i * page_size) (address first)) s ≡ ok tt (used_frame s p) =
      rw q (lock_clear s first i v (omega arith) (rw q at here.0)) in
    let (t, e, k) =
      lock_loop rounds (i + 1) first (suc p) (used_frame s p) (omega arith)
        (lock_frame-Inv s p v here.1) (omega arith) (IsClearBlock-used s p rounds v c) in
    (t, ground arith, Locked-step s t p rounds v here.0 k)
