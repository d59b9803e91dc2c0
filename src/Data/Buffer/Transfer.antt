-- ===== src/Data/Buffer/Transfer.antt =====
-- What `Write` leaves in the blocks.
use frosty_os_old.Common.{
  u64_mod, ◌&&◌, ℕ, ◌+◌, ◌-◌, ◌≤◌, ◌<◌, ◌≡◌, refl, ◌∙◌, arith, Bool, true, false, leb, ltb, List,
  [], ◌∷◌, inl, inr, lt_cases, ap, subst,
}
use frosty_os_old.Data.Buffer.{
  Block, copy_in, align_up, filled, from_offset, new_block, write_rest, write_block, write_from,
}
use frosty_os_old.Data.Buffer.Bytes.{byte_at, total, Written, align_up_le}

-- The bytes fit in the first block.
Written-here :
    (o size : ℕ) (source : ℕ → ℕ) (b : Block) (e : Bool) (bs : List Block)
    → o + size ≤ b.size
    → Written o source size
        (b ∷ bs)
        (record b { bytes = copy_in o size source b.bytes; is_empty = e } ∷ bs)
unfolding copy_in
Written-here o size source b e bs h = record {
  inside = λ i l. ground (arith, h, l, ap source (the_same o i));
  below = λ i l. ground (arith, h, l);
  above = λ i l u. ground (arith, h, l, u);
  holds = omega (arith, h);
  grows = omega arith;
}
  where
    the_same : (o i : ℕ) → o + i - o ≡ i
    the_same o i = omega arith

-- The bytes fill the room in the first block, and go on in the others.
Written-join :
    (o room size : ℕ) (source : ℕ → ℕ) (b : Block) (e : Bool) (bs later : List Block)
    → o + room ≡ b.size
    → room < size
    → Written 0 (from_offset room source) (size - room) bs later
    → Written o source size
        (b ∷ bs)
        (record b { bytes = copy_in o room source b.bytes; is_empty = e } ∷ later)
unfolding copy_in
Written-join o room size source b e bs later fits more r = record {
  inside = λ i l. elim (lt_cases i room) [
    | inl n ↦ ground (arith, fits, n, ap source (the_same i))
    | inr n ↦
        let index : o + i - b.size ≡ 0 + (i - room) = omega (arith, n, fits) in
        let back : room + (i - room) ≡ i = omega (arith, n) in
        let past : ltb (o + i) b.size ≡ false = ground (arith, fits, n) in
        rw past refl
        ∙ ap (byte_at later) index
        ∙ r.inside (i - room) (omega (arith, l, n))
        ∙ ap source back
  ];
  below = λ i l. ground (arith, fits, l);
  above = λ i l u.
      let past : ltb i b.size ≡ false = ground (arith, fits, more, l) in
      rw past
        (r.above (i - b.size) (omega (arith, fits, more, l)) (omega (arith, fits, more, l, u)));
  holds = omega (arith, r.holds, fits, more);
  grows = omega (arith, r.grows);
}
  where
    the_same : (i : ℕ) → o + i - o ≡ i
    the_same i = omega arith

Written-skip :
    (o size : ℕ) (source : ℕ → ℕ) (b : Block) (bs later : List Block)
    → Written o source size bs later
    → Written (b.size + o) source size (b ∷ bs) (b ∷ later)
Written-skip o size source b bs later r = record {
  inside = λ i l.
      let index : b.size + o + i - b.size ≡ o + i = omega arith in
      let past : ltb (b.size + o + i) b.size ≡ false = ground arith in
      rw past (ap (byte_at later) index ∙ r.inside i l);
  below = λ i l. ground (arith, l, r.below (i - b.size));
  above = λ i l u. ground (arith, l, u, r.above (i - b.size));
  holds = omega (arith, r.holds);
  grows = omega (arith, r.grows);
}

module _ (fresh : ℕ → ℕ) (unit : ℕ) (positive : 0 < unit) where
  added-Written :
      (source : ℕ → ℕ) (size : ℕ)
      → size + unit ≤ u64_mod
      → Written 0 source size [] (filled 0 size source (new_block fresh (align_up size unit)) ∷ [])
  unfolding filled
  added-Written source size small =
      let room = align_up_le size unit positive small in
      let w =
        Written-here 0 size source (new_block fresh (align_up size unit)) false []
          (omega (arith, room)) in
      record {
        inside = w.inside;
        below = λ i h. absurd (omega (arith, h));
        above = λ i l u. absurd (omega (arith, u));
        holds = w.holds;
        grows = omega arith;
      }

  write_rest-Written :
      (source : ℕ → ℕ) (size : ℕ) (bs : List Block)
      → size + unit ≤ u64_mod
      → Written 0 source size bs (write_rest fresh unit source size bs).0
  unfolding write_rest filled
  write_rest-Written source size [] small = added-Written source size small
  write_rest-Written source size (b ∷ bs) small = elim (lt_cases b.size size) [
    | inr h ↦
        let short : leb size b.size ≡ true = ground (arith, h) in
        rw short (Written-here 0 size source b false bs (omega (arith, h)))
    | inl h ↦
        let long : leb size b.size ≡ false = ground (arith, h) in
        let r =
          write_rest-Written (from_offset b.size source) (size - b.size) bs
            (omega (arith, small)) in
        rw long (Written-join 0 b.size size source b false bs _ (omega arith) h r)
  ]

  write_block-Written :
      (o : ℕ) (source : ℕ → ℕ) (size : ℕ) (b : Block) (bs : List Block)
      → size + unit ≤ u64_mod
      → o ≤ b.size
      → Written o source size (b ∷ bs) (write_block fresh unit o source size b bs).0
  unfolding write_block filled
  write_block-Written o source size b bs small fits = elim (lt_cases (b.size - o) size) [
    | inr h ↦
        let short : leb size (b.size - o) ≡ true = ground (arith, h) in
        rw short (Written-here o size source b false bs (omega (arith, h, fits)))
    | inl h ↦
        let long : leb size (b.size - o) ≡ false = ground (arith, h) in
        let r =
          write_rest-Written (from_offset (b.size - o) source) (size - (b.size - o)) bs
            (omega (arith, small)) in
        rw long
          (Written-join o (b.size - o) size source b b.is_empty bs _ (omega (arith, fits)) h r)
  ]

  pub write_from-Written :
      (start o : ℕ) (source : ℕ → ℕ) (size : ℕ) (bs : List Block)
      → size + unit ≤ u64_mod
      → o < total bs
      → Written o source size bs (write_from fresh unit start (start + o) source size bs).0
  unfolding write_from
  write_from-Written start o source size [] small h = absurd (omega (arith, h))
  write_from-Written start o source size (b ∷ bs) small h = elim (lt_cases o b.size) [
    | inl n ↦
        let here : (leb start (start + o) && ltb (start + o) (start + b.size)) ≡ true =
          ground (arith, n) in
        let within : start + o - start ≡ o = omega arith in
        rw (here, within) (write_block-Written o source size b bs small (omega (arith, n)))
    | inr n ↦
        let later : (leb start (start + o) && ltb (start + o) (start + b.size)) ≡ false =
          ground (arith, n) in
        let index : start + b.size + (o - b.size) ≡ start + o = omega (arith, n) in
        let sum : b.size + (o - b.size) ≡ o = omega (arith, n) in
        let r =
          write_from-Written (start + b.size) (o - b.size) source size bs small
            (omega (arith, h, n)) in
        rw later (
          subst
            (λ k.
              Written k source size (b ∷ bs)
                (b ∷ (write_from fresh unit (start + b.size) (start + o) source size bs).0))
            sum
            (Written-skip (o - b.size) size source b bs _ (
              subst
                (λ k.
                  Written (o - b.size) source size bs
                    (write_from fresh unit (start + b.size) k source size bs).0)
                index r)))
  ]
