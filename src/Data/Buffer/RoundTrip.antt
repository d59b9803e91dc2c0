-- ===== src/Data/Buffer/RoundTrip.antt =====
-- A read gets what was written.
use frosty_os_old.Data.Buffer.Transfer.{write_from-Written}
use frosty_os_old.Common.{
  Bool-cases, Option, none, some, Bool, u64_mod, ◌⊎◌, ℕ, ◌+◌, ◌≤◌, ◌<◌, ◌≡◌, refl, ◌∙◌, arith,
  false, inl, inr, lt_cases, ap, subst, sym,
}
use frosty_os_old.Data.Buffer.{asked, try_write, write_from, write, Buffer, read}
use frosty_os_old.Data.Buffer.Bytes.{Written, byte_at, total}
use frosty_os_old.Data.Buffer.Reads.{zero_plus, read-IsRead}
use frosty_os_old.Data.Buffer.Room.{length-write_from}

-- The ranges have no byte in common.
abbrev pub AreApart : ℕ → ℕ → ℕ → ℕ → Type 0
AreApart o size p count = (p + count ≤ o) ⊎ (o + size ≤ p)

module _ (b : Buffer) where
  -- What reads get afterwards.
  abbrev pub ReadsBack : ℕ → (ℕ → ℕ) → ℕ → (ℕ → ℕ) → Buffer → Type 0
  ReadsBack o source size target after =
      ((i : ℕ) → i < size → read o size after target i ≡ source i)
      × ((i : ℕ) → size ≤ i → read o size after target i ≡ target i)
      × ((p count i : ℕ)
          → AreApart o size p count
          → p + count ≤ total b.blocks
          → i < count
          → read p count after target i ≡ read p count b target i)

module _ (fresh : ℕ → ℕ) (b : Buffer) where
  -- The write asks for a block of a size for which there is no memory, since the blocks do not hold the range.
  abbrev pub Fails : (ℕ → Bool) → ℕ → (ℕ → ℕ) → ℕ → Type 0
  Fails has_memory o source size =
      (n : ℕ) × (asked fresh o source size b ≡ some n)
      × (has_memory n ≡ false)
      × (total b.blocks < o + size)
      × (try_write fresh has_memory o source size b ≡ none)

module _ (fresh : ℕ → ℕ) (b : Buffer) (positive : 0 < b.block_size) where
  write-Written :
      (o : ℕ) (source : ℕ → ℕ) (size : ℕ)
      → size + b.block_size ≤ u64_mod
      → o < total b.blocks
      → Written o source size b.blocks (write fresh o source size b).blocks
  unfolding write
  write-Written o source size small h =
      subst
        (λ k.
          Written o source size b.blocks (write_from fresh b.block_size 0 k source size b.blocks).0)
        (sym (zero_plus o))
        (write_from-Written fresh b.block_size positive 0 o source size b.blocks small h)

  write-ReadsBack :
      (o : ℕ) (source : ℕ → ℕ) (size : ℕ) (target : ℕ → ℕ)
      → size + b.block_size ≤ u64_mod
      → o < total b.blocks
      → ReadsBack b o source size target (write fresh o source size b)
  write-ReadsBack o source size target small h =
      let after = write fresh o source size b in
      let w = write-Written o source size small h in
      let (inside, _, above) = read-IsRead after o size target w.holds in
      (
        λ i l. ap (read o size after target) (zero_plus i) ∙ inside i l ∙ w.inside i l,
        λ i l. above i (omega (arith, l)),
        λ p count i apart room l.
            let (now, _, _) = read-IsRead after p count target (omega (arith, room, w.grows)) in
            let (before, _, _) = read-IsRead b p count target room in
            let same : byte_at after.blocks (p + i) ≡ byte_at b.blocks (p + i) = elim apart [
              | inl e ↦ w.below (p + i) (omega (arith, e, l))
              | inr e ↦ w.above (p + i) (omega (arith, e)) (omega (arith, room, l))
            ] in
            ap (read p count after target) (zero_plus i)
            ∙ now i l
            ∙ same
            ∙ sym (before i l)
            ∙ sym (ap (read p count b target) (zero_plus i)),
      )

  asked_within :
      (o : ℕ) (source : ℕ → ℕ) (size : ℕ)
      → o < total b.blocks
      → o + size ≤ total b.blocks
      → asked fresh o source size b ≡ none
  unfolding asked
  asked_within o source size h fits =
      ground (arith, length-write_from fresh b.block_size 0 o source size b.blocks h fits)

  asked-outside :
      (o : ℕ) (source : ℕ → ℕ) (size n : ℕ)
      → o < total b.blocks
      → asked fresh o source size b ≡ some n
      → total b.blocks < o + size
  asked-outside o source size n h e = elim (lt_cases (total b.blocks) (o + size)) [
    | inl l ↦ l
    | inr l ↦ absurd (let no = asked_within o source size h l in cc)
  ]

  -- For a buffer whose unit of blocks is not 0, and bytes that are written at an offset within its blocks, so
  -- many that with one unit more they are at most 2 ^ 64: the write fails for want of memory for a block,
  -- which it asks for only if the blocks do not hold the whole range; or a read of that range gets these bytes
  -- and sets no other byte of the target, and a read of any range within the blocks that has no byte in common
  -- with it gets what it got before.
  pub read-write :
      (has_memory : ℕ → Bool) (o : ℕ) (source : ℕ → ℕ) (size : ℕ) (target : ℕ → ℕ)
      → size + b.block_size ≤ u64_mod
      → o < total b.blocks
      → Fails fresh b has_memory o source size
        ⊎ ((after : Buffer) × (try_write fresh has_memory o source size b ≡ some after)
            × ReadsBack b o source size target after)
  unfolding try_write
  read-write has_memory o source size target small h = go (asked fresh o source size b) refl
    where
      back : ReadsBack b o source size target (write fresh o source size b)
      back = write-ReadsBack o source size target small h

      go :
          (a : Option ℕ)
          → asked fresh o source size b ≡ a
          → Fails fresh b has_memory o source size
            ⊎ ((after : Buffer) × (try_write fresh has_memory o source size b ≡ some after)
                × ReadsBack b o source size target after)
      go none e = inr (write fresh o source size b, rw (e, try_write) refl, back)
      go (some n) e = elim (Bool-cases (has_memory n)) [
        | inl m ↦ inr (write fresh o source size b, rw (e, m, try_write) refl, back)
        | inr m ↦ inl (n, e, m, asked-outside o source size n h e, rw (e, m, try_write) refl)
      ]
