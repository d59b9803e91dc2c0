-- ===== src/Memory/FrameAllocator/ReleaseLaws.antt =====
-- `FreePage`, `ReservePage` and `UnreservePage` on every branch, as theorems about the invariant.
use frosty_os_old.Common.{
  ℕ, ◌*◌, ◌<◌, ◌≡◌, refl, ◌≢◌, ◌⊎◌, inl, inr, true, false, update, Bool-cases, arith, lt_cases,
}
use frosty_os_old.Data.Bitmap.{Bitmap, get}
use frosty_os_old.Data.Bitmap.Laws.{set_size_same, get-set_in, get_out}
use frosty_os_old.Memory.FrameAllocator.State.{M, Allocator, ok, frame}
use frosty_os_old.Memory.FrameAllocator.Pages.{free_page, reserve_page, unreserve_page}
use frosty_os_old.Memory.FrameAllocator.PageLaws.{
  free_page_lem, reserve_page_lem, unreserve_page_lem, freed_frame, reserved_frame,
  unreserved_frame,
}
use frosty_os_old.Memory.FrameAllocator.Invariant.{
  Inv, SameSums, freed_frame-Inv, freed_frame-SameSums, reserved_frame-Inv, reserved_frame-SameSums,
  unreserved_frame-Inv, unreserved_frame-SameSums,
}

in_range_of_set : (m : Bitmap) (i : ℕ) → get m i ≡ true → i < m.size * 8
in_range_of_set m i e = elim (lt_cases i (m.size * 8)) [ inl h ↦ h | inr h ↦ cc (get_out m i h, e) ]

-- What an operation that clears the bit of a page does: nothing where the bit is clear or out of
-- range; else it clears that bit and no other, and makes the frame the hint.
abbrev pub Releases : (ℕ → M (Unit {0})) → Allocator → ℕ → Type 0
Releases op s page =
    ((get s.bitmap (frame page) ≡ false) × (op page s ≡ ok tt s))
    ⊎ ((t : Allocator) × (op page s ≡ ok tt t)
        × (frame page < s.bitmap.size * 8)
        × (get s.bitmap (frame page) ≡ true)
        × (get t.bitmap ≡ update (get s.bitmap) (frame page) false)
        × (t.bitmap.size ≡ s.bitmap.size)
        × (t.next_free ≡ frame page)
        × Inv t
        × SameSums s t)

-- From a state that meets the invariant, for every address: where the frame is not marked, or is out
-- of range, `FreePage` changes nothing (so a second free of a page is harmless); else it clears
-- that frame's bit and no other, makes the frame the hint, and keeps the invariant and both sums.
pub free_page-Releases : (s : Allocator) (page : ℕ) → Inv s → Releases free_page s page
free_page-Releases s page v = elim (Bool-cases (get s.bitmap (frame page))) [
  | inl e ↦
      let h = in_range_of_set s.bitmap (frame page) e in
      inr (
        freed_frame s (frame page) (frame page),
        rw e at (free_page_lem s page v.quiet),
        h,
        e,
        get-set_in s.bitmap (frame page) false v.bytes h,
        set_size_same s.bitmap (frame page) false,
        refl,
        freed_frame-Inv s (frame page) v h (frame page) (inl refl),
        freed_frame-SameSums s (frame page) v h (frame page) e,
      )
  | inr e ↦ inl (e, rw e at (free_page_lem s page v.quiet))
]

-- From a state that meets the invariant, for every address: `UnreservePage` too changes nothing where
-- the frame is not marked or out of range, and else clears that bit and no other, makes the frame
-- the hint, and keeps the invariant and both sums.
pub unreserve_page-Releases : (s : Allocator) (page : ℕ) → Inv s → Releases unreserve_page s page
unreserve_page-Releases s page v = elim (Bool-cases (get s.bitmap (frame page))) [
  | inl e ↦
      let h = in_range_of_set s.bitmap (frame page) e in
      inr (
        unreserved_frame s (frame page),
        rw e at (unreserve_page_lem s page v.quiet),
        h,
        e,
        get-set_in s.bitmap (frame page) false v.bytes h,
        set_size_same s.bitmap (frame page) false,
        refl,
        unreserved_frame-Inv s (frame page) v h,
        unreserved_frame-SameSums s (frame page) v h e,
      )
  | inr e ↦ inl (e, rw e at (unreserve_page_lem s page v.quiet))
]

abbrev pub Reserves : Allocator → ℕ → Type 0
Reserves s page =
    ((get s.bitmap (frame page) ≡ true) × (reserve_page page s ≡ ok tt s))
    ⊎ ((t : Allocator) × (reserve_page page s ≡ ok tt t)
        × (get s.bitmap (frame page) ≡ false)
        × (get t.bitmap ≡ update (get s.bitmap) (frame page) true)
        × (t.bitmap.size ≡ s.bitmap.size)
        × (t.next_free ≢ frame page)
        × Inv t
        × SameSums s t)

-- From a state that meets the invariant, for an address whose frame is in range: `ReservePage`
-- changes nothing where the frame is marked already; else it marks that frame and no other, leaves
-- a hint that does not name the frame, and keeps the invariant and both sums.
pub reserve_page-marks :
    (s : Allocator) (page : ℕ) → Inv s → frame page < s.bitmap.size * 8 → Reserves s page
unfolding frame
reserve_page-marks s page v h = elim (Bool-cases (get s.bitmap (frame page))) [
  | inl e ↦ inl (e, rw e at (reserve_page_lem s page v.quiet))
  | inr e ↦ inr (
    reserved_frame s (frame page),
    rw e at (reserve_page_lem s page v.quiet),
    e,
    get-set_in s.bitmap (frame page) true v.bytes h,
    set_size_same s.bitmap (frame page) true,
    ground (arith, v.small),
    reserved_frame-Inv s (frame page) v h,
    reserved_frame-SameSums s (frame page) v h e,
  )
]
