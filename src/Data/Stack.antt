-- ===== src/Data/Stack.antt =====
-- kernel/src/Data-structures/Stack.hpp: an array of pointers and the number of those on the stack. The
-- pointers are numbers, and 0 is null.
pub mod Model
use frosty_os_old.Common.{ℕ, ◌+◌, ◌-◌, ◌==◌, Bool, if◌then◌else◌, update}

pub record Stack : Type 0 where
  pub slots : ℕ → ℕ
  pub size : ℕ
  pub current_pos : ℕ

-- `Stack(size_t size)`: what the new array holds is a parameter.
unfoldable pub make : (ℕ → ℕ) → ℕ → Stack
make memory size = record { slots = memory; size = size; current_pos = 0 }

unfoldable pub is_empty : Stack → Bool
is_empty s = s.current_pos == 0

unfoldable pub is_full : Stack → Bool
is_full s = s.current_pos == s.size

unfoldable pub push : Stack → ℕ → Stack
unfolding is_full
push s item =
    if is_full s
    then s
    else record s { slots = update s.slots s.current_pos item; current_pos = s.current_pos + 1 }

unfoldable pub pop : Stack → ℕ × Stack
unfolding is_empty
pop s =
    if is_empty s
    then (0, s)
    else (s.slots (s.current_pos - 1), record s { current_pos = s.current_pos - 1 })

unfoldable pub peek : Stack → ℕ
unfolding is_empty
peek s = if is_empty s then 0 else s.slots (s.current_pos - 1)

unfoldable pub clear : Stack → Stack
clear s = record s { current_pos = 0 }
