-- ===== src/Common/Count.antt =====
-- How many of the first `n` numbers pass a test, and how one change of the test moves the count.
use Prim.Native.Nat.{ℕ, zero, suc, ◌≤◌, ◌<◌}
use mathlib.Core.Path.{◌≡◌, refl}
use mathlib.Core.Logic.{inl, inr}
use mathlib.Core.Bool.{Bool, true, false}
use native.Mathlib.Omega.{arith}
use frosty_os_old.Common.Tests.{if◌then◌else◌, eq_cases}
use frosty_os_old.Common.Lists.{update}

unfoldable pub count_true : (ℕ → Bool) → ℕ → ℕ
count_true f zero = 0
count_true f (suc n) = if f n then suc (count_true f n) else count_true f n

pub count_true-le : (f : ℕ → Bool) (n : ℕ) → count_true f n ≤ n
unfolding count_true
count_true-le f zero = omega arith
count_true-le f (suc n) = ground (arith, count_true-le f n)

-- A change at or above the bound is not seen.
pub count_true-update_above :
    (f : ℕ → Bool) (i n : ℕ) (v : Bool) → n ≤ i → count_true (update f i v) n ≡ count_true f n
unfolding count_true
count_true-update_above f i zero v h = refl
count_true-update_above f i (suc n) v h =
    ground (arith, count_true-update_above f i n v (omega arith))

pub count_true-update-true :
    (f : ℕ → Bool) (i n : ℕ)
    → i < n
    → f i ≡ false
    → count_true (update f i true) n ≡ suc (count_true f n)
unfolding count_true
count_true-update-true f i zero h e = elim h [ ]
count_true-update-true f i (suc n) h e = elim (eq_cases n i) [
  | inl p ↦ ground (arith, count_true-update_above f i n true (omega arith))
  | inr p ↦ ground (arith, count_true-update-true f i n (omega arith) e)
]

pub count_true-update-false :
    (f : ℕ → Bool) (i n : ℕ)
    → i < n
    → f i ≡ true
    → suc (count_true (update f i false) n) ≡ count_true f n
unfolding count_true
count_true-update-false f i zero h e = elim h [ ]
count_true-update-false f i (suc n) h e = elim (eq_cases n i) [
  | inl p ↦ ground (arith, count_true-update_above f i n false (omega arith))
  | inr p ↦ ground (arith, count_true-update-false f i n (omega arith) e)
]

-- If some number below the bound fails the test, the count is below the bound.
pub count_true-lt : (f : ℕ → Bool) (i n : ℕ) → i < n → f i ≡ false → count_true f n < n
unfolding count_true
count_true-lt f i zero h e = elim h [ ]
count_true-lt f i (suc n) h e = elim (eq_cases n i) [
  | inl p ↦ ground (arith, count_true-le f n)
  | inr p ↦ ground (arith, count_true-lt f i n (omega arith) e)
]

-- If every number passes, the count is the bound.
pub count_true_all : (f : ℕ → Bool) (n : ℕ) → ((i : ℕ) → i < n → f i ≡ true) → count_true f n ≡ n
unfolding count_true
count_true_all f zero h = refl
count_true_all f (suc n) h =
    ground (arith, h n (omega arith), count_true_all f n (λ i p. h i (omega arith)))
