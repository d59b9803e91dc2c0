-- ===== src/Data/Buffer/Room.antt =====
-- A write within the blocks adds none.
use frosty_os_old.Common.{
  subst, ℕ, ◌+◌, ◌-◌, ◌≤◌, ◌<◌, ◌≡◌, refl, ap, suc, arith, true, false, leb, ltb, ◌&&◌, List, [],
  ◌∷◌, length, inl, inr, lt_cases,
}
use frosty_os_old.Data.Buffer.{Block, from_offset, write_rest, write_block, write_from}
use frosty_os_old.Data.Buffer.Bytes.{total}

module _ (fresh : ℕ → ℕ) (unit : ℕ) where
  length-write_rest :
      (source : ℕ → ℕ) (size : ℕ) (bs : List Block)
      → 0 < size
      → size ≤ total bs
      → length (write_rest fresh unit source size bs).0 ≡ length bs
  unfolding write_rest
  length-write_rest source size [] some_left h = absurd (omega (arith, some_left, h))
  length-write_rest source size (b ∷ bs) some_left h = elim (lt_cases b.size size) [
    | inr n ↦ let short : leb size b.size ≡ true = ground (arith, n) in rw short refl
    | inl n ↦
        let long : leb size b.size ≡ false = ground (arith, n) in
        rw long (
          ap suc (
            length-write_rest (from_offset b.size source) (size - b.size) bs (omega (arith, n))
              (omega (arith, h))))
  ]

  length-write_block :
      (o : ℕ) (source : ℕ → ℕ) (size : ℕ) (b : Block) (bs : List Block)
      → o ≤ b.size
      → o + size ≤ b.size + total bs
      → length (write_block fresh unit o source size b bs).0 ≡ suc (length bs)
  unfolding write_block
  length-write_block o source size b bs fits h = elim (lt_cases (b.size - o) size) [
    | inr n ↦ let short : leb size (b.size - o) ≡ true = ground (arith, n) in rw short refl
    | inl n ↦
        let long : leb size (b.size - o) ≡ false = ground (arith, n) in
        rw long (
          ap suc (
            length-write_rest (from_offset (b.size - o) source) (size - (b.size - o)) bs
              (omega (arith, n)) (omega (arith, h, fits))))
  ]

  pub length-write_from :
      (start o : ℕ) (source : ℕ → ℕ) (size : ℕ) (bs : List Block)
      → o < total bs
      → o + size ≤ total bs
      → length (write_from fresh unit start (start + o) source size bs).0 ≡ length bs
  unfolding write_from
  length-write_from start o source size [] h fits = absurd (omega (arith, h))
  length-write_from start o source size (b ∷ bs) h fits = elim (lt_cases o b.size) [
    | inl n ↦
        let here : (leb start (start + o) && ltb (start + o) (start + b.size)) ≡ true =
          ground (arith, n) in
        let within : start + o - start ≡ o = omega arith in
        rw (here, within) (length-write_block o source size b bs (omega (arith, n)) fits)
    | inr n ↦
        let later : (leb start (start + o) && ltb (start + o) (start + b.size)) ≡ false =
          ground (arith, n) in
        let index : start + b.size + (o - b.size) ≡ start + o = omega (arith, n) in
        let r =
          length-write_from (start + b.size) (o - b.size) source size bs (omega (arith, h, n))
            (omega (arith, fits, n)) in
        rw later (
          ap suc (
            subst
              (λ k. length (write_from fresh unit (start + b.size) k source size bs).0 ≡ length bs)
              index r))
  ]
