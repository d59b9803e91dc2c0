-- ===== src/Common/Integers.antt =====
-- Signed machine integers over the native numbers, and their casts to and from 64 bits.
use frosty_os_old.Common.{◌^◌, ltb, if◌then◌else◌}
use Prim.Native.Nat.{◌%◌, ℕ, zero, suc, ◌-◌}
use mathlib.Core.Bool.{Bool, true, false}
use frosty_os_old.Common.Words.{u64_mod}

-- `negsuc n` is -(n + 1).
pub data ℤ : Type 0 where
  pos : ℕ → ℤ
  negsuc : ℕ → ℤ

-- `-n`
unfoldable pub neg : ℕ → ℤ
neg zero = pos zero
neg (suc n) = negsuc n

unfoldable pub is_negative : ℤ → Bool
is_negative (pos n) = false
is_negative (negsuc n) = true

unfoldable pub is_zero : ℤ → Bool
is_zero (pos zero) = true
is_zero (pos (suc n)) = false
is_zero (negsuc n) = false

-- The rounds of a loop that counts from 0 to an integer.
unfoldable pub rounds : ℤ → ℕ
rounds (pos n) = n
rounds (negsuc n) = zero

-- `(uint64_t)value`, for a value of 64 bits.
unfoldable pub to_u64 : ℤ → ℕ
to_u64 (pos n) = n
to_u64 (negsuc n) = u64_mod - suc n

-- `(int64_t)value`
unfoldable pub of_u64 : ℕ → ℤ
of_u64 n = if ltb n (2 ^ 63) then pos n else negsuc (u64_mod - suc n)

-- `value & 0xFF`, as `(uint8_t)value`.
unfoldable pub to_u8 : ℤ → ℕ
unfolding to_u64
to_u8 z = to_u64 z % 256
