-- ===== src/Tests/Buffers.antt =====
-- A buffer with blocks of four bytes.
use frosty_os_old.Common.{
  ◌⊎◌, true, Option, sub64, ℕ, ◌+◌, ◌≡◌, refl, arith, none, some, [], ◌∷◌, map, false,
}
use frosty_os_old.Data.Buffer.{copy_in, Buffer, try_write, clear_until}
use frosty_os_old.Data.Buffer.Bytes.{byte_at}
use frosty_os_old.Data.Buffer.RoundTrip.{Fails, ReadsBack, read-write}
use frosty_os_old.Data.Buffer.Clear.{clear}

abbrev two_blocks : Buffer
two_blocks = record {
  size = 8;
  block_size = 4;
  blocks =
      record { bytes = λ i. 1; size = 4; is_empty = false }
      ∷ record { bytes = λ i. 2; size = 4; is_empty = false }
      ∷ [];
}

-- Seven bytes at offset 3: the rest of the first block, all of the second one, and a new one.
read-write_example :
    Fails (λ i. 0) two_blocks (λ n. true) 3 (λ i. 50 + i) 7
    ⊎ ((after : Buffer) × (try_write (λ i. 0) (λ n. true) 3 (λ i. 50 + i) 7 two_blocks ≡ some after)
        × ReadsBack two_blocks 3 (λ i. 50 + i) 7 (λ i. 0) after)
read-write_example =
    read-write (λ i. 0) two_blocks (omega arith) (λ n. true) 3 (λ i. 50 + i) 7 (λ i. 0)
      (omega arith) (omega arith)

abbrev byte_of : Option Buffer → ℕ → ℕ
byte_of none i = 256
byte_of (some b) i = byte_at b.blocks i

-- `Clear` of two bytes of the first block clears the rest of the buffer.
clear_two : map (byte_of (clear 1 2 two_blocks)) (0 ∷ 1 ∷ 3 ∷ 4 ∷ 7 ∷ []) ≡ 1 ∷ 0 ∷ 0 ∷ 0 ∷ 0 ∷ []
unfolding clear sub64 copy_in
clear_two = refl

-- `Clear` over the end of a block writes past the end of the block's bytes.
clear_over : clear 2 3 two_blocks ≡ none
unfolding clear
clear_over = refl

-- `ClearUntil` the end leaves the second block.
clear_until_end : (clear_until 8 two_blocks).0 ≡ 1
unfolding clear_until
clear_until_end = refl
