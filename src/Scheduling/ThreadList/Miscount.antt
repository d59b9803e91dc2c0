-- ===== src/Scheduling/ThreadList/Miscount.antt =====
-- `RemoveThread` does not count the thread that it removes.
use frosty_os_old.Scheduling.ThreadList.Linked.{first_or, last_or, Linked}
use frosty_os_old.Scheduling.ThreadList.Deque.{IsDeque}
use frosty_os_old.Common.{
  ap, ◌∙◌, sym, inr, subst, Option-cases, eq_cases, ◌<◌, inl, length, update, zero, [], true, ◌∷◌,
  has, none, suc, Bool, ◌⊎◌, List, ◌≢◌, ℕ, ◌≡◌, some, arith,
}
use frosty_os_old.Scheduling.ThreadList.{pop_front, remove_thread, remove_loop, Threads, unlink}

unlink_count : (t : ℕ) (s u : Threads) → unlink t s ≡ some u → u.count ≡ s.count
unfolding unlink
unlink_count t s u e = ground arith

remove_loop_count :
    (fuel t current : ℕ) (s u : Threads) (b : Bool)
    → remove_loop fuel t current s ≡ some (b, u)
    → u.count ≡ s.count
unfolding remove_loop
remove_loop_count zero t current s u b e = cc
remove_loop_count (suc fuel) t current s u b e =
    ground (arith, remove_loop_count fuel t (s.next current) s u b, unlink_count current s u)

-- A thread of the list is the first or has one before it, and is the last or has one after it.
neighbours :
    (previous next : ℕ → ℕ) (t before x : ℕ) (xs : List ℕ)
    → Linked previous next before 0 (x ∷ xs)
    → has t (x ∷ xs) ≡ true
    → (t ≢ 0) × ((t ≡ x) ⊎ (previous t ≢ 0)) × ((t ≡ last_or x xs) ⊎ (next t ≢ 0))
neighbours previous next t before x [] (a, b, c, l) h =
    let e : t ≡ x = ground arith in (rw e a, inl e, inl e)
neighbours previous next t before x (y ∷ ys) (a, b, c, l) h = elim (eq_cases t x) [
  | inl e ↦ (rw e a, inl e, inr (λ z. l.0 (sym c ∙ (ap next (sym e) ∙ z))))
  | inr n ↦
      let (ne, side, after) = neighbours previous next t x y ys l (ground arith) in
      (
        ne,
        inr (λ z. elim side [ inl e ↦ a (sym l.1 ∙ (ap previous (sym e) ∙ z)) | inr f ↦ f z ]),
        after,
      )
]

unlink-ne_none :
    (t : ℕ) (s : Threads)
    → t ≢ 0
    → (t ≡ s.start) ⊎ (s.previous t ≢ 0)
    → (t ≡ s.end) ⊎ (s.next t ≢ 0)
    → unlink t s ≢ none
unfolding unlink
unlink-ne_none t s h a b e = ground arith

remove_loop-found :
    (fuel t before : ℕ) (s u : Threads) (xs : List ℕ)
    → Linked s.previous s.next before 0 xs
    → has t xs ≡ true
    → length xs < fuel
    → unlink t s ≡ some u
    → remove_loop fuel t (first_or 0 xs) s ≡ some (true, u)
unfolding remove_loop
remove_loop-found fuel t before s u [] l h lt e = cc
remove_loop-found zero t before s u (x ∷ xs) l h lt e = absurd (omega arith)
remove_loop-found (suc fuel) t before s u (x ∷ xs) (a, b, c, l) h lt e = elim (eq_cases x t) [
  | inl p ↦ ground (arith, subst (λ k. unlink k s ≡ some u) (sym p) e)
  | inr n ↦ ground (arith, c, remove_loop-found fuel t x s u xs l (ground arith) (omega arith) e)
]

-- On a list that holds a sequence of threads, for a thread of it, with a round for each thread:
-- `RemoveThread` finds the thread, dereferences no null and says yes; but the number of threads is
-- as before, so that no shorter sequence is what the list then holds.
pub remove_thread_miscounts :
    (fuel t : ℕ) (s : Threads) (xs : List ℕ)
    → IsDeque s xs
    → has t xs ≡ true
    → length xs < fuel
    → (u : Threads) × (remove_thread fuel t s ≡ some (true, u))
      × (u.count ≡ length xs)
      × ((ys : List ℕ) → length ys < length xs → ¬ IsDeque u ys)
unfolding remove_thread
remove_thread_miscounts fuel t s [] v h lt = cc
remove_thread_miscounts fuel t s (x ∷ xs) v h lt =
    let (ne, before, after) = neighbours s.previous s.next t 0 x xs v.linked h in
    elim (Option-cases (unlink t s)) [
      | inl e ↦ absurd (unlink-ne_none t s ne (rw v.starts before) (rw v.ends after) e)
      | inr (u, e) ↦
          let found = remove_loop-found fuel t 0 s u (x ∷ xs) v.linked h lt e in
          let same = unlink_count t s u e ∙ v.counted in
          (
            u,
            ap (λ k. remove_loop fuel t k s) v.starts ∙ found,
            same,
            λ ys shorter w. omega (arith, w.counted, same),
          )
    ]

-- With two threads in the list, `PopFront` after `RemoveThread` of the first dereferences null.
pub pop_front-remove_thread :
    (a b : ℕ) (s : Threads)
    → IsDeque s (a ∷ b ∷ [])
    → (u : Threads) × (remove_thread 3 a s ≡ some (true, u)) × (pop_front u ≡ none)
unfolding remove_thread remove_loop unlink pop_front
pop_front-remove_thread a b s v = (
  record s { start = b; previous = update (update s.previous b 0) a 0; next = update s.next a 0 },
  ground (arith, v.starts, v.linked),
  ground (arith, v.starts, v.linked, v.counted),
)
