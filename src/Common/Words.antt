-- ===== src/Common/Words.antt =====
-- `uint64_t` and `size_t`: numbers below 2 ^ 64, with wrap-around written out.
use Prim.Native.Nat.{ℕ, ◌+◌, ◌-◌, ◌%◌, ◌^◌, ◌<◌}
use mathlib.Core.Path.{◌≡◌}
use native.Mathlib.Omega.{arith}

abbrev pub u64_mod : ℕ
u64_mod = 2 ^ 64

abbrev pub u64_max : ℕ
u64_max = 2 ^ 64 - 1

unfoldable pub add64 : ℕ → ℕ → ℕ
add64 a b = (a + b) % u64_mod

unfoldable pub sub64 : ℕ → ℕ → ℕ
sub64 a b = (a + (u64_mod - b % u64_mod)) % u64_mod

-- `+=` and `-=` by the same amount undo one another.
pub sub64-add64 : (a b : ℕ) → a < u64_mod → sub64 (add64 a b) b ≡ a
unfolding add64 sub64
sub64-add64 a b h = omega arith

pub add64-sub64 : (a b : ℕ) → a < u64_mod → add64 (sub64 a b) b ≡ a
unfolding add64 sub64
add64-sub64 a b h = omega arith

pub add64-lt : (a b : ℕ) → add64 a b < u64_mod
unfolding add64
add64-lt a b = omega arith

pub sub64-lt : (a b : ℕ) → sub64 a b < u64_mod
unfolding sub64
sub64-lt a b = omega arith
