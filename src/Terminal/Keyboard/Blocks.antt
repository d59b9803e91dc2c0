-- ===== src/Terminal/Keyboard/Blocks.antt =====
-- The buffer of kernel/src/Data-structures/Buffer.cpp as the buffer of keyboard input.
use frosty_os_old.Common.{ℕ, zero, suc, some, List, [], ◌∷◌}
use frosty_os_old.Common.Integers.{ℤ}
use frosty_os_old.Data.Buffer.{Buffer, write, read, clear_until}
use frosty_os_old.Terminal.Keyboard.{Buffers, KeyboardInput, get_char}

-- The interface filled by that buffer. A read that finds no block leaves the byte at -1, as 255.
unfoldable pub block_buffer : (ℕ → ℕ) → Buffers Buffer
unfolding write read clear_until
block_buffer fresh = record {
  write = λ offset c b. write fresh offset (λ i. c) 1 b;
  read = λ offset b. some (read offset 1 b (λ i. 255) 0);
  clear_until = λ offset b. clear_until offset b;
}

-- As many calls of `GetChar`, with what they answer.
unfoldable pub get_chars : {W : Type 0} → Buffers W → ℕ → KeyboardInput W → List ℤ × KeyboardInput W
unfolding get_char
get_chars b zero s = ([], s)
get_chars b (suc n) s = let (c, t) = get_char b s in let (cs, u) = get_chars b n t in (c ∷ cs, u)
