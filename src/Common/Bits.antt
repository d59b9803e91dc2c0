-- ===== src/Common/Bits.antt =====
-- One bit of a byte, read and written by a mask. Bit 0 is the highest. The laws are proved by
-- evaluating all 256 bytes at all 8 positions.
use Prim.Native.Nat.{ℕ, zero, suc, ◌-◌, ◌/◌, ◌^◌, ◌<◌, bit_and, bit_or}
use mathlib.Core.Path.{◌≡◌, refl, subst}
use mathlib.Core.Bool.{Bool, true, false, not, ◌&&◌}
use mathlib.Core.Logic.{inl, inr}
use native.Mathlib.Omega.{arith}
use frosty_os_old.Common.Tests.{
  and_left, lt_cases, ltb, ltb→lt, ◌==◌, Bool-cases, lt_cases, if◌then◌else◌,
}

-- `0b10000000 >> k`
unfoldable pub mask : ℕ → ℕ
mask k = 128 / 2 ^ k

unfoldable pub test_bit : ℕ → ℕ → Bool
unfolding mask
test_bit b k = ltb 0 (bit_and b (mask k))

-- `b |= mask`
unfoldable pub set_bit : ℕ → ℕ → ℕ
unfolding mask
set_bit b k = bit_or b (mask k)

-- `b &= ~mask`, on a byte
unfoldable pub clear_bit : ℕ → ℕ → ℕ
unfolding mask
clear_bit b k = bit_and b (255 - mask k)

unfoldable pub write_bit : ℕ → ℕ → Bool → ℕ
unfolding set_bit clear_bit
write_bit b k v = if v then set_bit b k else clear_bit b k

-- The test holds at each of the first so many numbers.
every : (ℕ → Bool) → ℕ → Bool
every test zero = true
every test (suc k) = if test k then every test k else false

every_at : (test : ℕ → Bool) (k : ℕ) {i : ℕ} → every test k ≡ true → i < k → test i ≡ true
unfolding every
every_at test zero all bound = absurd (omega arith)
every_at test (suc k) {i} all bound = elim (Bool-cases (test k)) [
  | inr fails ↦ cc
  | inl holds ↦ elim (lt_cases i k) [
    | inl below ↦ every_at test k (ground (arith, holds)) below
    | inr last ↦ let same_place : k ≡ i = omega arith in subst (λ x. test x ≡ true) same_place holds
  ]
]

abbrev same : Bool → Bool → Bool
same true b = b
same false b = not b

same_eq : (a b : Bool) → same a b ≡ true → a ≡ b
same_eq a b h = ground arith

and_right : (a b : Bool) → (a && b) ≡ true → b ≡ true
and_right a b h = ground arith

law : Bool → ℕ → ℕ → ℕ → Bool
unfolding test_bit write_bit
law v b k j =
    ltb (write_bit b k v) 256
    && same (test_bit (write_bit b k v) j) (if j == k then v else test_bit b j)

table : Bool → Bool
unfolding law every
table v = every (λ b. every (λ k. every (law v b k) 8) 8) 256

table_lem : (v : Bool) → table v ≡ true
unfolding table
table_lem true = refl
table_lem false = refl

law_at : (v : Bool) (b k j : ℕ) → b < 256 → k < 8 → j < 8 → law v b k j ≡ true
unfolding table
law_at v b k j hb hk hj =
    let row : ℕ → Bool = λ x. every (λ y. every (law v x y) 8) 8 in
    let at_byte = every_at row 256 (table_lem v) hb in
    every_at (law v b k) 8 (every_at (λ y. every (law v b y) 8) 8 at_byte hk) hj

pub test_bit-write_bit :
    (b k j : ℕ) (v : Bool)
    → b < 256
    → k < 8
    → j < 8
    → test_bit (write_bit b k v) j ≡ (if j == k then v else test_bit b j)
unfolding law
test_bit-write_bit b k j v hb hk hj = same_eq _ _ (and_right _ _ (law_at v b k j hb hk hj))

pub write_bit-lt : (b k : ℕ) (v : Bool) → b < 256 → k < 8 → write_bit b k v < 256
unfolding law
write_bit-lt b k v hb hk = ltb→lt _ _ (and_left _ _ (law_at v b k 0 hb hk (omega arith)))

pub test_bit_full : (k : ℕ) → k < 8 → test_bit 255 k ≡ true
unfolding test_bit every
test_bit_full k h = every_at (test_bit 255) 8 refl h
