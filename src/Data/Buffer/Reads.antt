-- ===== src/Data/Buffer/Reads.antt =====
-- What `Read` gets from the blocks.

use frosty_os_old.Common.{
  ◌&&◌, ℕ, ◌+◌, ◌-◌, ◌≤◌, ◌<◌, ◌≡◌, refl, ◌∙◌, arith, true, false, leb, ltb, List, [], ◌∷◌, inl,
  inr, lt_cases, ap, subst, sym,
}
use frosty_os_old.Data.Buffer.{Buffer, read, Block, copy_in, from_offset, read_rest, read_from}
use frosty_os_old.Data.Buffer.Bytes.{byte_at, total}

-- In the target there are, from `done` on, the bytes from the offset on; its other bytes are kept.
abbrev pub IsRead : ℕ → ℕ → ℕ → List Block → (ℕ → ℕ) → (ℕ → ℕ) → Type 0
IsRead done offset size bs target result =
    ((i : ℕ) → i < size → result (done + i) ≡ byte_at bs (offset + i))
    × ((i : ℕ) → i < done → result i ≡ target i)
    × ((i : ℕ) → done + size ≤ i → result i ≡ target i)

-- A part of the bytes of the first block.
IsRead-here :
    (done o size : ℕ) (f : ℕ → ℕ) (b : Block) (bs : List Block) (target : ℕ → ℕ)
    → ((i : ℕ) → f i ≡ b.bytes (o + i))
    → o + size ≤ b.size
    → IsRead done o size (b ∷ bs) target (copy_in done size f target)
unfolding copy_in
IsRead-here done o size f b bs target e h = (
  λ i l.
      let first : ltb (o + i) b.size ≡ true = ground (arith, h, l) in
      let index : done + i - done ≡ i = omega arith in
      rw first (ground (arith, l) ∙ ap f index ∙ e i),
  λ i l. ground (arith, l),
  λ i l. ground (arith, l),
)

-- The rest of the bytes of the first block, and some of the others.
IsRead-join :
    (done o room size : ℕ) (f : ℕ → ℕ) (b : Block) (bs : List Block) (target result : ℕ → ℕ)
    → ((i : ℕ) → f i ≡ b.bytes (o + i))
    → o + room ≡ b.size
    → room < size
    → IsRead (done + room) 0 (size - room) bs (copy_in done room f target) result
    → IsRead done o size (b ∷ bs) target result
unfolding copy_in
IsRead-join done o room size f b bs target result e fits more (inside, below, above) = (
  λ i l. elim (lt_cases i room) [
    | inl n ↦
        let first : ltb (o + i) b.size ≡ true = ground (arith, fits, n) in
        let index : done + i - done ≡ i = omega arith in
        rw first (below (done + i) (omega (arith, n)) ∙ ground (arith, n) ∙ ap f index ∙ e i)
    | inr n ↦
        let past : ltb (o + i) b.size ≡ false = ground (arith, fits, n) in
        let index : done + i ≡ done + room + (i - room) = omega (arith, n) in
        let back : 0 + (i - room) ≡ o + i - b.size = omega (arith, n, fits) in
        rw past (ap result index ∙ inside (i - room) (omega (arith, l, n)) ∙ ap (byte_at bs) back)
  ],
  λ i l. below i (omega (arith, l)) ∙ ground (arith, l),
  λ i l. above i (omega (arith, l, more)) ∙ ground (arith, l, more),
)

pub zero_plus : (i : ℕ) → i ≡ 0 + i
zero_plus i = omega arith

read_rest-IsRead :
    (done size : ℕ) (bs : List Block) (target : ℕ → ℕ)
    → size ≤ total bs
    → IsRead done 0 size bs target (read_rest done size bs target)
unfolding read_rest
read_rest-IsRead done size [] target h =
    (λ i l. absurd (omega (arith, l, h)), λ i l. refl, λ i l. refl)
read_rest-IsRead done size (b ∷ bs) target h =
    let same : (i : ℕ) → b.bytes i ≡ b.bytes (0 + i) = λ i. ap b.bytes (zero_plus i) in
    elim (lt_cases b.size size) [
      | inr n ↦
          let short : leb size b.size ≡ true = ground (arith, n) in
          rw short (IsRead-here done 0 size b.bytes b bs target same (omega (arith, n)))
      | inl n ↦
          let long : leb size b.size ≡ false = ground (arith, n) in
          rw long (
            IsRead-join done 0 b.size size b.bytes b bs target _ same (omega arith) n
              (read_rest-IsRead (done + b.size) (size - b.size) bs _ (omega (arith, h, n))))
    ]

read_from-IsRead :
    (start o size : ℕ) (bs : List Block) (target : ℕ → ℕ)
    → o + size ≤ total bs
    → IsRead 0 o size bs target (read_from start (start + o) size bs target)
unfolding read_from
read_from-IsRead start o size [] target h =
    (λ i l. absurd (omega (arith, l, h)), λ i l. refl, λ i l. refl)
read_from-IsRead start o size (b ∷ bs) target h = elim (lt_cases o b.size) [
  | inl n ↦
      let here : (leb start (start + o) && ltb (start + o) (start + b.size)) ≡ true =
        ground (arith, n) in
      let within : start + o - start ≡ o = omega arith in
      elim (lt_cases (b.size - o) size) [
        | inr m ↦
            let short : leb size (b.size - o) ≡ true = ground (arith, m) in
            rw (here, within, short)
              (IsRead-here 0 o size (from_offset o b.bytes) b bs target (λ i. refl)
                (omega (arith, m, n)))
        | inl m ↦
            let long : leb size (b.size - o) ≡ false = ground (arith, m) in
            let none_before : 0 + (b.size - o) ≡ b.size - o = omega arith in
            rw (here, within, long)
              (IsRead-join 0 o (b.size - o) size (from_offset o b.bytes) b bs target _ (λ i. refl)
                (omega (arith, n)) m
                (subst
                  (λ k.
                    IsRead k 0 (size - (b.size - o)) bs
                      (copy_in 0 (b.size - o) (from_offset o b.bytes) target)
                      (read_rest (b.size - o) (size - (b.size - o)) bs
                        (copy_in 0 (b.size - o) (from_offset o b.bytes) target)))
                  (sym none_before)
                  (read_rest-IsRead (b.size - o) (size - (b.size - o)) bs _
                    (omega (arith, h, n, m)))))
      ]
  | inr n ↦
      let later : (leb start (start + o) && ltb (start + o) (start + b.size)) ≡ false =
        ground (arith, n) in
      let index : start + b.size + (o - b.size) ≡ start + o = omega (arith, n) in
      let (inside, below, above) =
        subst
          (λ k. IsRead 0 (o - b.size) size bs target (read_from (start + b.size) k size bs target))
          index
          (read_from-IsRead (start + b.size) (o - b.size) size bs target (omega (arith, h, n))) in
      rw later (
        λ i l.
            let past : ltb (o + i) b.size ≡ false = ground (arith, n) in
            let back : o - b.size + i ≡ o + i - b.size = omega (arith, n) in
            rw past (inside i l ∙ ap (byte_at bs) back),
        below,
        above,
      )
]

pub read-IsRead :
    (b : Buffer) (o size : ℕ) (target : ℕ → ℕ)
    → o + size ≤ total b.blocks
    → IsRead 0 o size b.blocks target (read o size b target)
unfolding read
read-IsRead b o size target h =
    subst (λ k. IsRead 0 o size b.blocks target (read_from 0 k size b.blocks target))
      (sym (zero_plus o)) (read_from-IsRead 0 o size b.blocks target h)
