-- ===== src/Data/Bitmap/Laws.antt =====
-- What `Bitmap::Set` does to `Bitmap::operator[]`.
use frosty_os_old.Common.{
  ◌∙◌, ap, ap₂, ℕ, ◌*◌, ◌/◌, ◌%◌, ◌≤◌, ◌<◌, ◌≡◌, ◌≢◌, inl, inr, Bool, true, false, suc, count_true,
  count_true-update-true, count_true-update-false, ◌&&◌, ltb, ◌==◌, if◌then◌else◌, update,
  test_bit-write_bit, write_bit-lt, lt_cases, eq_cases, fun_ext, arith,
}
use frosty_os_old.Data.Bitmap.{Bitmap, get, set}

-- What the type `uint8_t` gives of the buffer.
abbrev pub IsBytes : Bitmap → Type 0
IsBytes m = (i : ℕ) → m.buffer i < 256

pub set-IsBytes : (m : Bitmap) (i : ℕ) (v : Bool) → IsBytes m → IsBytes (set m i v)
unfolding set
set-IsBytes m i v b j = ground (arith, b j, b (i / 8), write_bit-lt (m.buffer (i / 8)) (i % 8) v)

pub set_size_same : (m : Bitmap) (i : ℕ) (v : Bool) → (set m i v).size ≡ m.size
unfolding set
set_size_same m i v = ground arith

pub get_out : (m : Bitmap) (i : ℕ) → m.size * 8 ≤ i → get m i ≡ false
unfolding get
get_out m i h = ground arith

pub set_out : (m : Bitmap) (i : ℕ) (v : Bool) → m.size * 8 ≤ i → set m i v ≡ m
unfolding set
set_out m i v h = ground arith

get-set_byte :
    (m : Bitmap) (i j : ℕ) (v : Bool)
    → IsBytes m
    → i < m.size * 8
    → j / 8 ≡ i / 8
    → get (set m i v) j ≡ (if j == i then v else get m j)
unfolding get set
get-set_byte m i j v b h e =
    ground (arith, b (i / 8), test_bit-write_bit (m.buffer (i / 8)) (i % 8) (j % 8) v)

get-set_other :
    (m : Bitmap) (i j : ℕ) (v : Bool)
    → i < m.size * 8
    → j / 8 ≢ i / 8
    → get (set m i v) j ≡ (if j == i then v else get m j)
unfolding get set
get-set_other m i j v h e = ground arith

-- On a bitmap of bytes `Set` at an index in range changes the bit at that index and no other.
pub get-set_in :
    (m : Bitmap) (i : ℕ) (v : Bool)
    → IsBytes m
    → i < m.size * 8
    → get (set m i v) ≡ update (get m) i v
get-set_in m i v b h = fun_ext λ j. elim (eq_cases (j / 8) (i / 8)) [
  | inl e ↦ get-set_byte m i j v b h e
  | inr e ↦ get-set_other m i j v h e
]

pub get-set_at :
    (m : Bitmap) (i j : ℕ) (v : Bool)
    → IsBytes m
    → i < m.size * 8
    → get (set m i v) j ≡ (if j == i then v else get m j)
get-set_at m i j v b h = λ x. get-set_in m i v b h x j

-- How many of the bits in range are set.
abbrev pub marked : Bitmap → ℕ
marked m = count_true (get m) (m.size * 8)

pub marked-set-true :
    (m : Bitmap) (i : ℕ)
    → IsBytes m
    → i < m.size * 8
    → get m i ≡ false
    → marked (set m i true) ≡ suc (marked m)
marked-set-true m i b h e =
    ap₂ count_true (get-set_in m i true b h) (ap (λ k. k * 8) (set_size_same m i true))
    ∙ count_true-update-true (get m) i (m.size * 8) h e

pub marked-set-false :
    (m : Bitmap) (i : ℕ)
    → IsBytes m
    → i < m.size * 8
    → get m i ≡ true
    → suc (marked (set m i false)) ≡ marked m
marked-set-false m i b h e =
    ap suc (ap₂ count_true (get-set_in m i false b h) (ap (λ k. k * 8) (set_size_same m i false)))
    ∙ count_true-update-false (get m) i (m.size * 8) h e

-- On a bitmap of bytes, at every index, also out of range: after `Set` the bit at that index reads
-- as the value written if the index is in range, and every other bit reads as before.
pub get-set :
    (m : Bitmap) (i j : ℕ) (v : Bool)
    → IsBytes m
    → get (set m i v) j ≡ (if (j == i) && ltb i (m.size * 8) then v else get m j)
get-set m i j v b = elim (lt_cases i (m.size * 8)) [
  | inl h ↦ ground (arith, get-set_at m i j v b h)
  | inr h ↦ ground (arith, set_out m i v h)
]
