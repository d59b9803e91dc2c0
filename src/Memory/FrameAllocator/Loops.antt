-- ===== src/Memory/FrameAllocator/Loops.antt =====
-- `FreePages`, `UnreservePages` and `ReservePages`, and a page that is allocated and freed.
use frosty_os_old.Common.{
  ap₂, Bool, ℕ, zero, suc, ◌+◌, ◌*◌, ◌<◌, ◌≡◌, ◌⊎◌, inl, inr, refl, ◌∙◌, true, false, update,
  fun_ext, eq_cases, ap, arith, add64, subst, sym,
}
use frosty_os_old.Data.Bitmap.{get}
use frosty_os_old.Memory.FrameAllocator.State.{
  deadlock, Outcome, Allocator, M, ok, panic, ◌>>=◌, frame, page_size,
}
use frosty_os_old.Memory.FrameAllocator.Pages.{
  each_page, free_page, free_pages, unreserve_page, unreserve_pages, reserve_page, reserve_pages,
}
use frosty_os_old.Memory.FrameAllocator.Allocate.{allocate_page}
use frosty_os_old.Memory.FrameAllocator.Invariant.{Inv, SameSums}
use frosty_os_old.Memory.FrameAllocator.AllocateLaws.{AllUsed, allocate_page-TakesFree}
use frosty_os_old.Memory.FrameAllocator.ReleaseLaws.{
  Releases, free_page-Releases, unreserve_page-Releases, reserve_page-marks,
}

-- The action ends, with the invariant, the size of the bitmap and both sums kept.
abbrev pub Goes : M (Unit {0}) → Allocator → Type 0
Goes m s =
    (t : Allocator) × (m s ≡ ok tt t) × Inv t × (t.bitmap.size ≡ s.bitmap.size) × SameSums s t

Releases-Goes :
    (op : ℕ → M (Unit {0})) (s : Allocator) (page : ℕ)
    → Inv s
    → Releases op s page
    → Goes (op page) s
Releases-Goes op s page v (inl (_, e)) = (s, e, v, refl, (refl, refl))
Releases-Goes op s page v (inr (t, e, _, _, _, size, _, w, sums)) = (t, e, w, size, sums)

module _ {A B : Type 0} (m : M A) (f : A → M B) (s : Allocator) where
  abbrev chain : Outcome A → Outcome B
  chain o = elim o [ ok a t ↦ f a t | panic ↦ panic | deadlock ↦ deadlock ]

  bind_ok : (t : Allocator) (a : A) → m s ≡ ok a t → (m >>= f) s ≡ f a t
  bind_ok t a e = ap chain e

  bind_panic : m s ≡ panic → (m >>= f) s ≡ panic
  bind_panic e = ap chain e

-- A loop over pages of which each is fit for the operation.
each_page-Goes :
    (op : ℕ → M (Unit {0})) (n : ℕ) (IsFit : ℕ → Type 0)
    → ((t : Allocator) (page : ℕ) → Inv t → t.bitmap.size ≡ n → IsFit page → Goes (op page) t)
    → (rounds i start : ℕ) (s : Allocator) → Inv s
    → s.bitmap.size ≡ n
    → ((j : ℕ) → j < i + rounds → IsFit (add64 (j * page_size) start))
    → Goes (each_page op rounds i start) s
unfolding each_page
each_page-Goes op n IsFit goes zero i start s v z fit = (s, refl, v, refl, (refl, refl))
each_page-Goes op n IsFit goes (suc rounds) i start s v z fit =
    let (t, e, w, size, sums) = goes s (add64 (i * page_size) start) v z (fit i (omega arith)) in
    let (u, f, x, size', sums') =
      each_page-Goes op n IsFit goes rounds (i + 1) start t w (size ∙ z)
        (λ j h. fit j (omega arith)) in
    (
      u,
      bind_ok (op (add64 (i * page_size) start)) (λ a. each_page op rounds (i + 1) start) s t tt e
          ∙ f,
      x,
      size' ∙ size,
      (sums'.0 ∙ sums.0, sums'.1 ∙ sums.1),
    )

-- From a state that meets the invariant, for every start and count: `FreePages` and `UnreservePages`
-- end; they keep the invariant, the size of the bitmap and both sums.
pub pages-Goes :
    (s : Allocator) (start count : ℕ)
    → Inv s
    → Goes (free_pages start count) s × Goes (unreserve_pages start count) s
unfolding free_pages unreserve_pages
pages-Goes s start count v = (
  each_page-Goes free_page s.bitmap.size (λ p. Unit {0})
      (λ t page w z f. Releases-Goes free_page t page w (free_page-Releases t page w)) count 0 start
      s v refl (λ j h. tt),
  each_page-Goes unreserve_page s.bitmap.size (λ p. Unit {0})
      (λ t page w z f. Releases-Goes unreserve_page t page w (unreserve_page-Releases t page w))
      count 0 start s v refl (λ j h. tt),
)

-- From a state that meets the invariant, where the frames of all pages are in range: `ReservePages`
-- ends, and keeps the invariant, the size of the bitmap and both sums.
reserve_pages-Goes :
    (s : Allocator) (start count : ℕ)
    → Inv s
    → ((j : ℕ) → j < count → frame (add64 (j * page_size) start) < s.bitmap.size * 8)
    → Goes (reserve_pages start count) s
unfolding reserve_pages
reserve_pages-Goes s start count v fit =
    each_page-Goes reserve_page s.bitmap.size (λ p. frame p < s.bitmap.size * 8) reserves count 0
      start s v refl (λ j h. fit j (omega arith))
  where
    reserves :
        (t : Allocator) (page : ℕ)
        → Inv t
        → t.bitmap.size ≡ s.bitmap.size
        → frame page < s.bitmap.size * 8
        → Goes (reserve_page page) t
    reserves t page w z f = elim (reserve_page-marks t page w (omega (arith, z, f))) [
      | inl (_, e) ↦ (t, e, w, refl, (refl, refl))
      | inr (u, e, _, _, size, _, x, sums) ↦ (u, e, x, size, sums)
    ]

-- Allocate a page and free it.
unfoldable pub there_and_back : M (Unit {0})
unfolding allocate_page free_page
there_and_back = do page ← allocate_page; free_page page

update_back : (f : ℕ → Bool) (i : ℕ) → f i ≡ false → update (update f i true) i false ≡ f
update_back f i e = fun_ext λ j. elim (eq_cases j i) [
  | inl s ↦ ground (arith, s, subst (λ x. f x ≡ false) (sym s) e)
  | inr n ↦ ground (arith, n)
]

abbrev pub ComesBack : Allocator → Type 0
ComesBack s =
    (AllUsed s × (there_and_back s ≡ panic))
    ⊎ ((u : Allocator) × (there_and_back s ≡ ok tt u)
        × (get u.bitmap ≡ get s.bitmap)
        × Inv u
        × SameSums s u)

frame_of_index : (i : ℕ) → frame (i * page_size) ≡ i
unfolding frame
frame_of_index i = omega arith

-- From a state that meets the invariant: a page that `AllocatePage` hands out and `FreePage` takes back
-- leaves every bit as it was, and keeps the invariant and both sums; with every frame in use
-- `AllocatePage` panics.
pub there_and_back-ComesBack : (s : Allocator) → Inv s → ComesBack s
unfolding there_and_back
there_and_back-ComesBack s v = elim (allocate_page-TakesFree s v) [
  | inl (all, e) ↦ inl (all, bind_panic allocate_page free_page s e)
  | inr (i, t, e, h, free, bits, size, w, sums) ↦
      let same = frame_of_index i in
      let marked_now : get t.bitmap i ≡ true = (λ x. bits x i) ∙ ground arith in
      elim (free_page-Releases t (i * page_size) w) [
        | inl (clear, _) ↦ absurd (cc (clear, marked_now, ap (get t.bitmap) same))
        | inr (u, f, _, _, bits', _, _, x, sums') ↦ inr (
          u,
          bind_ok allocate_page free_page s t (i * page_size) e ∙ f,
          bits' ∙ ap₂ (λ g k. update g k false) bits same ∙ update_back (get s.bitmap) i free,
          x,
          (sums'.0 ∙ sums.0, sums'.1 ∙ sums.1),
        )
      ]
]
