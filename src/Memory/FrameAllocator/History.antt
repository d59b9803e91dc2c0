-- ===== src/Memory/FrameAllocator/History.antt =====
-- Any sequence of calls.
use frosty_os_old.Common.{
  ap, ◌++◌, ℕ, ◌*◌, ◌^◌, ◌≤◌, ◌<◌, ◌≡◌, refl, ◌∙◌, ◌⊎◌, inl, inr, List, [], ◌∷◌, arith,
}
use frosty_os_old.Memory.FrameAllocator.State.{Allocator, M, ok, panic, ◌>>=◌, ◌>>◌, return, frame}
use frosty_os_old.Memory.FrameAllocator.Pages.{free_page, reserve_page, unreserve_page}
use frosty_os_old.Memory.FrameAllocator.Allocate.{allocate_page, allocate_pages}
use frosty_os_old.Memory.FrameAllocator.Invariant.{Inv, total_mem}
use frosty_os_old.Memory.FrameAllocator.AllocateLaws.{AllUsed, allocate_page-TakesFree}
use frosty_os_old.Memory.FrameAllocator.ReleaseLaws.{
  free_page-Releases, reserve_page-marks, unreserve_page-Releases,
}
use frosty_os_old.Memory.FrameAllocator.RunLaws.{allocate_pages-TakesBlock}

-- The calls of the class, with their arguments.
pub data Call : Type 0 where
  allocates : Call
  allocates_many : ℕ → Call
  frees reserves unreserves : ℕ → Call

unfoldable pub step : Call → M (Unit {0})
unfolding allocate_page allocate_pages free_page reserve_page unreserve_page
step allocates = do _ ← allocate_page; return tt
step (allocates_many count) = do _ ← allocate_pages count; return tt
step (frees page) = free_page page
step (reserves page) = reserve_page page
step (unreserves page) = unreserve_page page

unfoldable pub run : List Call → M (Unit {0})
unfolding step
run [] s = ok tt s
run (c ∷ cs) s = (step c >> run cs) s

-- A fair call: a block has from 2 to 2 ^ 48 frames, and a reservation is of a frame in range.
abbrev pub IsFair : ℕ → Call → Type 0
IsFair size (allocates_many count) = (2 ≤ count) × (count ≤ 2 ^ 48)
IsFair size (reserves page) = frame page < size * 8
IsFair size _ = Unit {0}

abbrev pub AllFair : ℕ → List Call → Type 0
AllFair size [] = Unit {0}
AllFair size (c ∷ cs) = IsFair size c × AllFair size cs

-- What a call leaves, unless it panics.
record Steps (s t : Allocator) : Type 0 where
  inv : Inv t
  size : t.bitmap.size ≡ s.bitmap.size
  total : total_mem t ≡ total_mem s

-- An `AllocatePage` with every frame in use.
abbrev pub FindsNone : Call → Allocator → Type 0
FindsNone c s = (c ≡ allocates) × AllUsed s

abbrev Ends : Call → Allocator → Type 0
Ends c s =
    (FindsNone c s × (step c s ≡ panic)) ⊎ ((t : Allocator) × (step c s ≡ ok tt t) × Steps s t)

Steps-refl : (s : Allocator) → Inv s → Steps s s
Steps-refl s v = record { inv = v; size = refl; total = refl }

step-Ends : (s : Allocator) (c : Call) → Inv s → IsFair s.bitmap.size c → Ends c s
unfolding step
step-Ends s allocates v f = elim (allocate_page-TakesFree s v) [
  | inl (all, e) ↦ inl ((refl, all), ground arith)
  | inr (i, t, e, _, _, _, size, w, sums) ↦
      inr (t, ground arith, record { inv = w; size = size; total = sums.1 })
]
step-Ends s (allocates_many count) v f = elim (allocate_pages-TakesBlock s count v f.0 f.1) [
  | inl (e, _) ↦ inr (s, ground arith, Steps-refl s v)
  | inr (k, t, e, a) ↦
      inr (t, ground arith, record { inv = a.inv; size = a.same_size; total = a.same_total })
]
step-Ends s (frees page) v f = elim (free_page-Releases s page v) [
  | inl (_, e) ↦ inr (s, e, Steps-refl s v)
  | inr (t, e, _, _, _, size, _, w, sums) ↦
      inr (t, e, record { inv = w; size = size; total = sums.1 })
]
step-Ends s (reserves page) v f = elim (reserve_page-marks s page v f) [
  | inl (_, e) ↦ inr (s, e, Steps-refl s v)
  | inr (t, e, _, _, size, _, w, sums) ↦ inr (t, e, record { inv = w; size = size; total = sums.1 })
]
step-Ends s (unreserves page) v f = elim (unreserve_page-Releases s page v) [
  | inl (_, e) ↦ inr (s, e, Steps-refl s v)
  | inr (t, e, _, _, _, size, _, w, sums) ↦
      inr (t, e, record { inv = w; size = size; total = sums.1 })
]

-- The calls go as far as one that finds no frame.
abbrev pub Exhausts : List Call → Allocator → Type 0
Exhausts cs s =
    (before : List Call) × (c : Call) × (after : List Call) × (t : Allocator) × (cs
      ≡ before ++ c ∷ after)
    × (run before s ≡ ok tt t)
    × Inv t
    × (total_mem t ≡ total_mem s)
    × FindsNone c t

abbrev pub RunsWell : List Call → Allocator → Type 0
RunsWell cs s =
    (Exhausts cs s × (run cs s ≡ panic))
    ⊎ ((t : Allocator) × (run cs s ≡ ok tt t) × Inv t × (total_mem t ≡ total_mem s))

Exhausts-cons :
    (s t : Allocator) (c : Call) (cs : List Call)
    → step c s ≡ ok tt t
    → total_mem t ≡ total_mem s
    → Exhausts cs t
    → Exhausts (c ∷ cs) s
unfolding run
Exhausts-cons s t c cs e same (before, d, after, u, split, goes, w, total, none_left) = (
  c ∷ before,
  d,
  after,
  u,
  ap (λ x. c ∷ x) split,
  ground (arith, e, goes),
  w,
  total ∙ same,
  none_left,
)

-- A call is fair that is of one page, of a block of 2 to 2 ^ 48 pages, a `FreePage`, a `ReservePage` of a
-- frame in range, or an `UnreservePage`. From a state that meets the invariant, every sequence of fair
-- calls runs to its end, with the invariant and the sum of the counters kept; or it panics, and then it goes,
-- with both of them kept, as far as a call of `AllocatePage` with every frame in use. It never deadlocks.
pub run-Inv : (s : Allocator) (cs : List Call) → Inv s → AllFair s.bitmap.size cs → RunsWell cs s
unfolding run
run-Inv s [] v f = inr (s, refl, v, refl)
run-Inv s (c ∷ cs) v f = elim (step-Ends s c v f.0) [
  | inl (none_left, e) ↦ inl (([], c, cs, s, refl, refl, v, refl, none_left), ground arith)
  | inr (t, e, k) ↦ elim (run-Inv t cs k.inv (rw k.size f.1)) [
    | inl (x, p) ↦ inl (Exhausts-cons s t c cs e k.total x, ground arith)
    | inr (u, p, w, total) ↦ inr (u, ground arith, w, total ∙ k.total)
  ]
]
