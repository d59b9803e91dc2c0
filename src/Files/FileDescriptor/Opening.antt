-- ===== src/Files/FileDescriptor/Opening.antt =====
-- The constructor, `Open`, `Close` and the destructor of kernel/src/fs/FileDescriptor.cpp.
use frosty_os_old.Common.{Option, ℕ, Bool, true, false, sub64}
use frosty_os_old.Common.Integers.{ℤ, is_zero, of_u64}
use frosty_os_old.Common.Locking.{Outcome, ◌>>=◌, ◌>>◌, return, get_state, modify, branch}
use frosty_os_old.Files.FileDescriptor.{
  FileDescriptorType, unknown, file_stream, directory_stream, tty, debug, FileDescriptorMode, read,
  write, append, read_write, Devices, State, esuccess, enosys, empty, M, acquire_lock, release_lock,
  set_open, device, change, answer,
}

abbrev is_append : FileDescriptorMode → Bool
is_append append = true
is_append _ = false

abbrev sets_cursor : FileDescriptorMode → Bool
sets_cursor read = false
sets_cursor write = true
sets_cursor append = false
sets_cursor read_write = true

module _ {W : Type 0} (d : Devices W) where
  -- What the constructor does after it has taken the lock of a descriptor with those fields.
  unfoldable pub attach : FileDescriptorType → FileDescriptorMode → ℕ → M W (Unit {0})
  unfolding release_lock
  attach type mode data_ = elim type [
    | file_stream ↦ (do modify (λ s. record s { self = record s.self { stream = data_ } }); succeed)
    | directory_stream ↦ elim mode [
      | read ↦ (do modify (λ s. record s { self = record s.self { stream = data_ } }); succeed)
      | write ↦ release_lock
      | append ↦ release_lock
      | read_write ↦ release_lock
    ]
    | tty ↦ (do
      modify (λ s. record s { self = record s.self { terminal = data_ } })
      branch (sets_cursor mode) (change (d.set_cursor_position data_ 0 0)) (return tt)
      set_open true
      succeed)
    | debug ↦ elim mode [
      | read ↦ return tt
      | write ↦ (do set_open true; succeed)
      | append ↦ (do set_open true; succeed)
      | read_write ↦ return tt
    ]
    | unknown ↦ release_lock
  ]
    where
      succeed : M W (Unit {0})
      succeed = do
        modify (λ s. record s { self = record s.self { init_successful = true } })
        release_lock

  -- `FileDescriptor(type, data, mode, ID)`: the field values, then the body.
  unfoldable pub make :
      FileDescriptorType → ℕ → FileDescriptorMode → ℤ → W → Outcome (State W) (Unit {0})
  unfolding empty acquire_lock attach
  make type data_ mode id w =
      (acquire_lock >> attach type mode data_)
        (record { self = record empty { type = type; mode = mode; id = id }; world = w })

  unfoldable pub open_file : ℕ → FileDescriptorMode → M W ℤ
  unfolding answer release_lock
  open_file stream mode = do
    rc ← device (d.open_stream stream)
    branch (is_zero rc)
        (branch (is_append mode)
          (do
            size ← device (d.get_size stream)
            sought ← device (d.seek_stream stream (of_u64 (sub64 size 1)))
            branch (is_zero sought) finish (answer enosys))
          finish)
        (answer rc)
    where
      finish : M W ℤ
      finish = do set_open true; release_lock; return esuccess

  unfoldable pub open_directory : ℕ → M W ℤ
  unfolding answer release_lock
  open_directory stream = do
    rc ← device (d.open_directory stream)
    branch (is_zero rc) (do set_open true; release_lock; return esuccess) (answer rc)

  unfoldable pub open_ready : M W ℤ
  unfolding release_lock
  open_ready = do release_lock; set_open true; return esuccess

  unfoldable pub open_descriptor : M W ℤ
  unfolding acquire_lock open_ready open_file open_directory
  open_descriptor = do
    acquire_lock
    s ← get_state
    elim s.self.type [
      | debug ↦ open_ready
      | tty ↦ open_ready
      | file_stream ↦ open_file s.self.stream s.self.mode
      | directory_stream ↦ open_directory s.self.stream
      | unknown ↦ return enosys
    ]

  -- The two `case`s of `Close` for streams.
  unfoldable pub close_with : (W → Option (ℤ × W)) → M W ℤ
  unfolding release_lock answer
  close_with f = do
    rc ← device f
    branch (is_zero rc) (do set_open false; release_lock; return esuccess) (answer enosys)

  unfoldable pub close_ready : M W ℤ
  unfolding release_lock
  close_ready = do set_open false; release_lock; return esuccess

  unfoldable pub close_descriptor : M W ℤ
  unfolding acquire_lock close_ready close_with answer
  close_descriptor = do
    acquire_lock
    s ← get_state
    elim s.self.type [
      | debug ↦ close_ready
      | tty ↦ close_ready
      | file_stream ↦ close_with (d.close_stream s.self.stream)
      | directory_stream ↦ close_with (d.close_directory s.self.stream)
      | unknown ↦ answer enosys
    ]

  -- The destructor.
  unfoldable pub destroy : M W (Unit {0})
  unfolding close_descriptor
  destroy = do s ← get_state; branch s.self.is_open (do _ ← close_descriptor; return tt) (return tt)
