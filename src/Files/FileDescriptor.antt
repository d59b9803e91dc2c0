-- ===== src/Files/FileDescriptor.antt =====
-- kernel/src/fs/FileDescriptor.cpp. What the descriptor calls, the streams and the terminal, is an
-- interface over the state of the rest of the system.
pub mod Opening
pub mod Calls
pub mod Locked
pub mod Steady
pub mod Follows
use frosty_os_old.Common.{
  if◌then◌else◌, ℕ, zero, suc, ◌+◌, ◌-◌, ◌*◌, ◌%◌, ◌==◌, Bool, true, false, Option, none, some,
}
use frosty_os_old.Common.Integers.{ℤ, pos, negsuc, neg, is_negative, is_zero, rounds, to_u64}
use frosty_os_old.Common.Locking.{
  Outcome, ok, deadlock, ◌>>=◌, ◌>>◌, return, get_state, modify, branch, take_lock,
}

pub data FileDescriptorType : Type 0 where
  unknown : FileDescriptorType
  file_stream : FileDescriptorType
  directory_stream : FileDescriptorType
  tty : FileDescriptorType
  debug : FileDescriptorType

pub data FileDescriptorMode : Type 0 where
  read : FileDescriptorMode
  write : FileDescriptorMode
  append : FileDescriptorMode
  read_write : FileDescriptorMode

-- Streams, terminals and inodes are numbers of addresses, 0 is null. `read_stream` and `write_stream`
-- answer with the result and the status; `get_next_inode` with the inode and the status.
pub record Devices (W : Type 0) : Type 0 where
  pub open_stream : ℕ → W → Option (ℤ × W)
  pub close_stream : ℕ → W → Option (ℤ × W)
  pub seek_stream : ℕ → ℤ → W → Option (ℤ × W)
  pub rewind_stream : ℕ → W → Option (ℤ × W)
  pub get_size : ℕ → W → Option (ℕ × W)
  pub read_stream : ℕ → ℕ → ℤ → W → Option ((ℤ × ℤ) × W)
  pub write_stream : ℕ → ℕ → ℤ → W → Option ((ℤ × ℤ) × W)
  pub open_directory : ℕ → W → Option (ℤ × W)
  pub close_directory : ℕ → W → Option (ℤ × W)
  pub seek_directory : ℕ → ℤ → W → Option (ℤ × W)
  pub get_next_inode : ℕ → W → Option ((ℕ × ℤ) × W)
  pub is_temp_fs : ℕ → W → Option (Bool × W)
  pub inode_size : ℕ
  pub copy : ℕ → ℕ → ℕ → W → W
  pub load_byte : ℕ → W → ℕ
  pub store_byte : ℕ → ℕ → W → W
  pub getc : ℕ → W → ℤ × W
  pub putc : ℕ → ℕ → W → W
  pub unlock_tty : ℕ → W → W
  pub amount_of_text_rows : ℕ → W → ℕ
  pub set_cursor_position : ℕ → ℕ → ℕ → W → W
  pub uldiv : ℕ → ℕ → ℕ × ℕ
  pub debug_putc : ℕ → W → W

pub record FileDescriptor : Type 0 where
  pub terminal : ℕ
  pub stream : ℕ
  pub is_open : Bool
  pub type : FileDescriptorType
  pub mode : FileDescriptorMode
  pub id : ℤ
  pub init_successful : Bool
  pub lock : Bool

-- A descriptor, and the state of the rest of the system.
pub record State (W : Type 0) : Type 0 where
  pub self : FileDescriptor
  pub world : W

abbrev pub esuccess : ℤ
esuccess = pos 0

abbrev pub ebadf : ℤ
ebadf = neg 8

abbrev pub enosys : ℤ
enosys = neg 23

abbrev pub einval : ℤ
einval = neg 29

abbrev pub eacces : ℤ
eacces = neg 62

abbrev pub eagain : ℤ
eagain = neg 67

unfoldable pub empty : FileDescriptor
empty = record {
  terminal = 0;
  stream = 0;
  is_open = false;
  type = unknown;
  mode = read;
  id = negsuc 0;
  init_successful = false;
  lock = false;
}

-- The tests of the mode in `Read`, `Write`, `Seek` and `Rewind`.
unfoldable pub can_read : FileDescriptorMode → Bool
can_read read = true
can_read read_write = true
can_read _ = false

unfoldable pub can_write : FileDescriptorMode → Bool
can_write read = false
can_write _ = true

unfoldable pub can_seek : FileDescriptorMode → Bool
can_seek append = false
can_seek _ = true

unfoldable pub get_data : FileDescriptor → ℕ
get_data f = elim f.type [
  | file_stream ↦ f.stream
  | directory_stream ↦ f.stream
  | tty ↦ f.terminal
  | debug ↦ 0
  | unknown ↦ 0
]

abbrev pub M : Type 0 → Type 0 → Type 0
M W A = State W → Outcome (State W) A

module _ {W : Type 0} where
  unfoldable pub acquire_lock : M W (Unit {0})
  acquire_lock =
      take_lock (λ (s : State W). s.self.lock)
        (λ s. record s { self = record s.self { lock = true } })

  unfoldable pub release_lock : M W (Unit {0})
  release_lock = modify (λ s. record s { self = record s.self { lock = false } })

  -- `m_is_open = value`
  abbrev pub set_open : Bool → M W (Unit {0})
  set_open value = modify (λ s. record s { self = record s.self { is_open = value } })

  -- A call into the rest of the system.
  abbrev pub outside : {A : Type 0} → (W → A × W) → M W A
  outside f s = ok (f s.world).0 (record s { world = (f s.world).1 })

  -- A call of a stream, which may spin for ever on a lock of the stream.
  abbrev pub device : {A : Type 0} → (W → Option (A × W)) → M W A
  device f s = elim (f s.world) [ none ↦ deadlock | some (a, w) ↦ ok a (record s { world = w }) ]

  abbrev pub change : (W → W) → M W (Unit {0})
  change f = modify (λ s. record s { world = f s.world })

  -- The lock is released before the answer.
  unfoldable pub answer : {A : Type 0} → A → M W A
  unfolding release_lock
  answer a = release_lock >> return a

-- The status that a caller is told, if it gave a place for one.
abbrev pub told : Bool → ℤ → Option ℤ
told wanted status = if wanted then some status else none

abbrev pub Reply : Type 0
Reply = ℤ × Option ℤ
