-- ===== src/Memory/Region.antt =====
-- kernel/src/Memory/VirtualRegion.cpp: a range of addresses, with its size beside its two ends.
pub mod Changes
pub mod Inside
use frosty_os_old.Common.{ℕ, Bool, true, false, ◌&&◌, ltb, leb, if◌then◌else◌, add64, sub64}

pub record Region : Type 0 where
  pub start : ℕ
  pub end : ℕ
  pub size : ℕ

-- The four constructors, and the destructor.
unfoldable pub nothing : Region
nothing = record { start = 0; end = 0; size = 0 }

unfoldable pub from_start : ℕ → ℕ → Region
from_start start size = record { start = start; end = add64 start size; size = size }

unfoldable pub from_ends : ℕ → ℕ → Region
from_ends start end = record { start = start; end = end; size = sub64 end start }

unfoldable pub from_end : ℕ → ℕ → Region
from_end size end = record { start = sub64 end size; end = end; size = size }

unfoldable pub set_start : Region → ℕ → Region
set_start r start =
    if ltb r.end start then r else record r { start = start; size = sub64 r.end start }

unfoldable pub set_end : Region → ℕ → Region
set_end r end = if ltb end r.start then r else record r { end = end; size = sub64 end r.start }

unfoldable pub expand_left : Region → ℕ → Region
expand_left r new_size = record r { size = new_size; start = sub64 r.end new_size }

unfoldable pub expand_right : Region → ℕ → Region
expand_right r new_size = record r { size = new_size; end = add64 r.start new_size }

unfoldable pub is_inside : Region → ℕ → ℕ → Bool
is_inside r mem size = leb r.start mem && leb (add64 mem size) r.end

-- The answer, and what the two references hold afterwards.
unfoldable pub ensure_is_inside : Region → ℕ → ℕ → Bool × ℕ × ℕ
unfolding is_inside
ensure_is_inside r mem size =
    let moved = if ltb r.start (add64 mem size) && ltb mem r.start then r.start else mem in
    let cut = if ltb r.size size then sub64 size (sub64 mem r.start) else size in
    if is_inside r mem size
    then (true, mem, size)
    else if ltb r.end mem
    then (false, mem, size)
    else if leb (add64 mem size) r.start
    then (false, mem, size)
    else (true, moved, cut)
