-- ===== src/Data/Buffer.antt =====
-- kernel/src/Data-structures/Buffer.cpp. The list of blocks is a sequence; the bytes of a block are a
-- function, of which those below its size are the block's own.
pub mod Clear
pub mod Bytes
pub mod Transfer
pub mod Room
pub mod Reads
pub mod RoundTrip
use frosty_os_old.Common.{
  ◌==◌, ℕ, zero, suc, ◌+◌, ◌-◌, ◌*◌, ◌/◌, Bool, true, false, ltb, leb, ◌&&◌, if◌then◌else◌, Option,
  none, some, List, [], ◌∷◌, ◌++◌, length, add64, sub64,
}

pub record Block : Type 0 where
  pub bytes : ℕ → ℕ
  pub size : ℕ
  pub is_empty : Bool

pub record Buffer : Type 0 where
  pub size : ℕ
  pub block_size : ℕ
  pub blocks : List Block

-- `ALIGN_UP(value, unit)` on `size_t`
unfoldable pub align_up : ℕ → ℕ → ℕ
unfolding add64
align_up value unit = add64 value (unit - 1) / unit * unit

-- `memcpy` of bytes to an offset.
unfoldable pub copy_in : ℕ → ℕ → (ℕ → ℕ) → (ℕ → ℕ) → ℕ → ℕ
copy_in offset count source bytes i =
    if leb offset i && ltb i (offset + count) then source (i - offset) else bytes i

-- The bytes from an offset on.
abbrev pub from_offset : ℕ → (ℕ → ℕ) → ℕ → ℕ
from_offset offset bytes i = bytes (offset + i)

unfoldable pub filled : ℕ → ℕ → (ℕ → ℕ) → Block → Block
unfolding copy_in
filled offset count source b = record b {
  bytes = copy_in offset count source b.bytes;
  is_empty = false;
}

-- `fresh` is what new memory holds.
module _ (fresh : ℕ → ℕ) where
  -- The block of `AddBlock`.
  abbrev pub new_block : ℕ → Block
  new_block size = record { bytes = fresh; size = size; is_empty = true }

  -- A block is added at the end, and the size of the buffer goes up.
  unfoldable pub add_block : ℕ → Buffer → Buffer
  add_block size b = record b { size = add64 b.size size; blocks = b.blocks ++ new_block size ∷ [] }

  unfoldable pub make : ℕ → ℕ → Buffer
  unfolding add_block align_up
  make size block_size =
      add_block (align_up size block_size)
        (record { size = 0; block_size = block_size; blocks = [] })

  -- The second loop of `Write`, and the block that it adds: the blocks, and the bytes they grew by.
  unfoldable pub write_rest : ℕ → (ℕ → ℕ) → ℕ → List Block → List Block × ℕ
  unfolding filled align_up
  write_rest unit source size [] =
      let added = align_up size unit in (filled 0 size source (new_block added) ∷ [], added)
  write_rest unit source size (b ∷ bs) =
      let (later, grown) = write_rest unit (from_offset b.size source) (size - b.size) bs in
      if leb size b.size
      then (filled 0 size source b ∷ bs, 0)
      else (filled 0 b.size source b ∷ later, grown)

  -- `Write` from the block in which it starts.
  unfoldable pub write_block : ℕ → ℕ → (ℕ → ℕ) → ℕ → Block → List Block → List Block × ℕ
  unfolding filled write_rest copy_in
  write_block unit within source size b bs =
      let room = b.size - within in
      let (later, grown) = write_rest unit (from_offset room source) (size - room) bs in
      if leb size room
      then (filled within size source b ∷ bs, 0)
      else (record b { bytes = copy_in within room source b.bytes } ∷ later, grown)

  -- `Write`, with the search for the block in which it starts; past all blocks, it is a new one.
  unfoldable pub write_from : ℕ → ℕ → ℕ → (ℕ → ℕ) → ℕ → List Block → List Block × ℕ
  unfolding write_block filled align_up
  write_from unit start offset source size [] =
      let added = align_up size unit in (filled 0 size source (new_block added) ∷ [], added)
  write_from unit start offset source size (b ∷ bs) =
      let (later, grown) = write_from unit (start + b.size) offset source size bs in
      if leb start offset && ltb offset (start + b.size)
      then write_block unit (offset - start) source size b bs
      else (b ∷ later, grown)

  -- `Write`, where there is memory for the block that it adds, if it adds one.
  unfoldable pub write : ℕ → (ℕ → ℕ) → ℕ → Buffer → Buffer
  unfolding write_from
  write offset source size b =
      let (blocks, grown) = write_from b.block_size 0 offset source size b.blocks in
      record b { size = add64 b.size grown; blocks = blocks }

  -- The size of the block that `Write` adds, if it adds one.
  unfoldable pub asked : ℕ → (ℕ → ℕ) → ℕ → Buffer → Option ℕ
  unfolding write_from
  asked offset source size b =
      let (blocks, grown) = write_from b.block_size 0 offset source size b.blocks in
      if length blocks == length b.blocks then none else some grown

  -- `Write`, where it is known for which sizes `AddBlock` finds memory: without it, `none`, since `new` panics
  -- or the block is written through null.
  unfoldable pub try_write : (ℕ → Bool) → ℕ → (ℕ → ℕ) → ℕ → Buffer → Option Buffer
  unfolding write asked
  try_write has_memory offset source size b = elim (asked offset source size b) [
    | none ↦ some (write offset source size b)
    | some n ↦ if has_memory n then some (write offset source size b) else none
  ]

-- The second loop of `Read`, into the bytes from an offset of the target on.
unfoldable pub read_rest : ℕ → ℕ → List Block → (ℕ → ℕ) → ℕ → ℕ
unfolding copy_in
read_rest done size [] target = target
read_rest done size (b ∷ bs) target =
    let rest = read_rest (done + b.size) (size - b.size) bs (copy_in done b.size b.bytes target) in
    if leb size b.size then copy_in done size b.bytes target else rest

unfoldable pub read_from : ℕ → ℕ → ℕ → List Block → (ℕ → ℕ) → ℕ → ℕ
unfolding read_rest copy_in
read_from start offset size [] target = target
read_from start offset size (b ∷ bs) target =
    let within = offset - start in
    let room = b.size - within in
    let rest = read_from (start + b.size) offset size bs target in
    if leb start offset && ltb offset (start + b.size)
    then if leb size room
      then copy_in 0 size (from_offset within b.bytes) target
      else read_rest room (size - room) bs (copy_in 0 room (from_offset within b.bytes) target)
    else rest

-- `Read` into a target of bytes.
unfoldable pub read : ℕ → ℕ → Buffer → (ℕ → ℕ) → ℕ → ℕ
unfolding read_from
read offset size b target = read_from 0 offset size b.blocks target

-- `ClearUntil`: the number of blocks deleted, the blocks that are left, and the bytes that are gone.
-- The index goes up while the list gets shorter.
unfoldable pub clear_loop : ℕ → ℕ → List Block → ℕ × List Block × ℕ
unfolding copy_in
clear_loop i offset [] = (0, [], 0)
clear_loop i offset (b ∷ bs) =
    let (deleted, left, gone) = clear_loop (suc i) (offset - b.size) bs in
    if ltb i (suc (length bs)) && ltb 0 offset
    then if leb b.size offset
      then (suc deleted, left, gone + b.size)
      else (0, record b { bytes = copy_in 0 offset (λ k. 0) b.bytes; is_empty = false } ∷ bs, 0)
    else (0, b ∷ bs, 0)

unfoldable pub clear_until : ℕ → Buffer → ℕ × Buffer
unfolding clear_loop
clear_until offset b =
    let (deleted, left, gone) = clear_loop 0 offset b.blocks in
    (deleted, record b { size = sub64 b.size gone; blocks = left })
