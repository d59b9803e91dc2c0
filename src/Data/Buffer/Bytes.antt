-- ===== src/Data/Buffer/Bytes.antt =====
-- The bytes of the blocks, one after another.
use frosty_os_old.Common.{
  u64_mod, add64, ℕ, ◌+◌, ◌-◌, ◌≤◌, ◌<◌, ◌≡◌, arith, ltb, if◌then◌else◌, List, [], ◌∷◌,
}
use native.Mathlib.Nat.{div-add-mod', mod-lt}
use frosty_os_old.Data.Buffer.{Block, copy_in, align_up}

-- Past the end, 0.
abbrev pub byte_at : List Block → ℕ → ℕ
byte_at [] i = 0
byte_at (b ∷ bs) i = if ltb i b.size then b.bytes i else byte_at bs (i - b.size)

abbrev pub total : List Block → ℕ
total [] = 0
total (b ∷ bs) = b.size + total bs

-- From the offset on there are the bytes of the source, as many as the size; the other bytes are as before, and no block is lost.
pub record Written (offset : ℕ) (source : ℕ → ℕ) (size : ℕ) (before after : List Block)
    : Type 0 where
  pub inside : (i : ℕ) → i < size → byte_at after (offset + i) ≡ source i
  pub below : (i : ℕ) → i < offset → byte_at after i ≡ byte_at before i
  pub above : (i : ℕ) → offset + size ≤ i → i < total before → byte_at after i ≡ byte_at before i
  pub holds : offset + size ≤ total after
  pub grows : total before ≤ total after

pub copy_in-inside : (o n i : ℕ) (f g : ℕ → ℕ) → o ≤ i → i < o + n → copy_in o n f g i ≡ f (i - o)
unfolding copy_in
copy_in-inside o n i f g l u = ground (arith, l, u)

pub copy_in-below : (o n i : ℕ) (f g : ℕ → ℕ) → i < o → copy_in o n f g i ≡ g i
unfolding copy_in
copy_in-below o n i f g l = ground (arith, l)

pub copy_in-above : (o n i : ℕ) (f g : ℕ → ℕ) → o + n ≤ i → copy_in o n f g i ≡ g i
unfolding copy_in
copy_in-above o n i f g l = ground (arith, l)

pub align_up_le : (value unit : ℕ) → 0 < unit → value + unit ≤ u64_mod → value ≤ align_up value unit
unfolding align_up add64
align_up_le value unit h fits =
    omega (arith, h, div-add-mod' (value + (unit - 1)) unit, mod-lt (value + (unit - 1)) h)
