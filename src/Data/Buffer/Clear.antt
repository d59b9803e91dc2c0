-- ===== src/Data/Buffer/Clear.antt =====
-- `Clear` and `AutoShrink` of kernel/src/Data-structures/Buffer.cpp, and the destructor.
use frosty_os_old.Common.{
  ℕ, suc, ◌+◌, ◌-◌, Bool, true, false, ltb, leb, ◌==◌, ◌&&◌, if◌then◌else◌, Option, none, some,
  List, [], ◌∷◌, length, sub64,
}
use frosty_os_old.Data.Buffer.{Block, Buffer, copy_in}

-- `memset` of zeros.
abbrev zeroed : ℕ → ℕ → Block → Block
zeroed offset count b = record b { bytes = copy_in offset count (λ k. 0) b.bytes }

-- `block->empty = true`
abbrev emptied : Block → Block
emptied b = record b { is_empty = true }

-- The blocks without the empty ones at the end, and the bytes of these.
unfoldable pub shrink : List Block → List Block × ℕ
shrink [] = ([], 0)
shrink (b ∷ bs) = let (left, gone) = shrink bs in joined left gone
  where
    joined : List Block → ℕ → List Block × ℕ
    joined [] gone = if b.is_empty then ([], b.size + gone) else (b ∷ [], gone)
    joined (c ∷ cs) gone = (b ∷ c ∷ cs, gone)

unfoldable pub auto_shrink : Buffer → Buffer
unfolding shrink
auto_shrink b =
    let (left, gone) = shrink b.blocks in record b { blocks = left; size = sub64 b.size gone }

-- The second loop of `Clear`: the blocks, and whether it ends with `AutoShrink`.
unfoldable pub clear_rest : ℕ → List Block → List Block × Bool
unfolding copy_in
clear_rest size [] = ([], false)
clear_rest size (b ∷ bs) =
    let (later, shrinks) = clear_rest (sub64 size b.size) bs in
    if leb size b.size
    then if b.size == size
      then (emptied (zeroed 0 size b) ∷ bs, true)
      else (zeroed 0 size b ∷ bs, false)
    else (emptied (zeroed 0 b.size b) ∷ later, shrinks)

-- `Clear` with its search. `none` is a `memset` past the end of the block's bytes.
unfoldable pub clear_from : ℕ → ℕ → ℕ → List Block → Option (List Block × Bool)
unfolding clear_rest copy_in
clear_from start offset size [] = some ([], false)
clear_from start offset size (b ∷ bs) =
    let within = offset - start in
    let room = b.size - within in
    let (rest, shrinks) = clear_rest (sub64 size room) bs in
    let later = clear_from (start + b.size) offset size bs in
    if leb start offset && ltb offset (start + b.size)
    then if leb room size
      then if leb size room
        then if within == 0
          then some (emptied (zeroed within size b) ∷ bs, true)
          else some (zeroed within size b ∷ bs, false)
        else none
      else some (zeroed within room b ∷ rest, shrinks)
    else prepend later
  where
    prepend : Option (List Block × Bool) → Option (List Block × Bool)
    prepend none = none
    prepend (some (cs, s)) = some (b ∷ cs, s)

unfoldable pub clear : ℕ → ℕ → Buffer → Option Buffer
unfolding clear_from auto_shrink
clear offset size b = finish (clear_from 0 offset size b.blocks)
  where
    finish : Option (List Block × Bool) → Option Buffer
    finish none = none
    finish (some (bs, true)) = some (auto_shrink (record b { blocks = bs }))
    finish (some (bs, false)) = some (record b { blocks = bs })

-- The loop of the destructor: the index goes up while the list gets shorter.
unfoldable pub drop_blocks : ℕ → List Block → List Block
drop_blocks i [] = []
drop_blocks i (b ∷ bs) = if ltb i (suc (length bs)) then drop_blocks (suc i) bs else b ∷ bs
