-- ===== src/Scheduling/Semaphore/Fifo.antt =====
-- The order in which the threads that wait are served.
use frosty_os_old.Common.{
  ℕ, suc, ◌≡◌, refl, ◌∙◌, true, false, List, [], ◌∷◌, ◌++◌, map, has, has-append, length, arith,
}
use frosty_os_old.Common.Locking.{ok, bind_ok}
use frosty_os_old.Scheduling.Semaphore.{Semaphore, release, remove_first}
use frosty_os_old.Scheduling.Semaphore.Effects.{handed, release-handed}
use frosty_os_old.Scheduling.Semaphore.Permits.{Inv, releases, step, run, handed-Inv}

-- Each of the threads holds the semaphore when its turn to release it comes.
abbrev pub AllHold : Semaphore → List ℕ → Type 0
AllHold s [] = Unit {0}
AllHold s (t ∷ ts) =
    (has t s.holders ≡ true) × ((u : Semaphore) → release t s ≡ ok tt u → AllHold u ts)

-- The thread runs again, as a holder, and those that came after it wait.
abbrev pub IsServed : ℕ → List ℕ → Semaphore → Type 0
IsServed t later u = (has t u.holders ≡ true) × (u.is_blocked t ≡ false) × (u.waiting ≡ later)

has-last : (t : ℕ) (xs : List ℕ) → has t (xs ++ t ∷ []) ≡ true
has-last t xs = has-append t xs (t ∷ []) ∙ ground arith

-- Under the invariant, a thread that waits behind others is served by as many releases as there are
-- threads before it and one more: they run to their end with no deadlock, and then it holds the semaphore, is not
-- blocked, and exactly the threads that came after it still wait, in their order.
pub run-serves :
    (permits : ℕ) (s : Semaphore) (earlier : List ℕ) (t : ℕ) (later : List ℕ) (ts : List ℕ)
    → Inv permits s
    → s.waiting ≡ earlier ++ t ∷ later
    → length ts ≡ suc (length earlier)
    → AllHold s ts
    → (u : Semaphore) × (run (map releases ts) s ≡ ok tt u) × IsServed t later u
unfolding run step
run-serves permits s earlier t later [] v w n held = absurd (omega (arith, n))
run-serves permits s [] t later (a ∷ []) v w n held = (
  handed a t later s,
  bind_ok (release a) (λ _. run []) s (handed a t later s) tt
      (release-handed s v.free a t later held.0 w),
  (has-last t (remove_first a s.holders), ground arith, refl),
)
run-serves permits s [] t later (a ∷ b ∷ ts) v w n held = absurd (omega (arith, n))
run-serves permits s (x ∷ earlier) t later (a ∷ ts) v w n held =
    let rest = earlier ++ t ∷ later in
    let e = release-handed s v.free a x rest held.0 w in
    let (u, g, served) =
      run-serves permits (handed a x rest s) earlier t later ts
        (handed-Inv permits s v a x rest held.0 w) refl (omega (arith, n)) (held.1 _ e) in
    (u, bind_ok (release a) (λ _. run (map releases ts)) s (handed a x rest s) tt e ∙ g, served)
