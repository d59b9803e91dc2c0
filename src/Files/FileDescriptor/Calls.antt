-- ===== src/Files/FileDescriptor/Calls.antt =====
-- `Read`, `Write`, `Seek`, `Rewind` and `ForceUnlock` of kernel/src/fs/FileDescriptor.cpp, for x86_64 and
-- without `NDEBUG`.
use frosty_os_old.Common.{
  ltb, u64_mod, ◌%◌, if◌then◌else◌, ℕ, zero, suc, ◌+◌, ◌*◌, ◌==◌, Bool, true, false, none,
}
use frosty_os_old.Common.Integers.{ℤ, pos, negsuc, is_negative, rounds, to_u64, to_u8}
use frosty_os_old.Common.Locking.{◌>>=◌, ◌>>◌, return, get_state, branch}
use frosty_os_old.Files.FileDescriptor.{
  unknown, file_stream, directory_stream, tty, debug, Devices, esuccess, ebadf, enosys, einval,
  eacces, eagain, can_read, can_write, can_seek, M, acquire_lock, release_lock, outside, device,
  change, answer, told, Reply,
}

module _ {W : Type 0} (d : Devices W) where
  -- The loop of `Read` for terminals: the number of characters until the end of the count or of the input.
  unfoldable pub read_tty : ℕ → ℕ → ℕ → W → ℕ × W
  read_tty zero terminal buffer w = (0, w)
  read_tty (suc n) terminal buffer w =
      let (c, v) = d.getc terminal w in
      let (k, u) = read_tty n terminal (buffer + 1) (d.store_byte buffer (to_u8 c) v) in
      if is_end c then (0, v) else (suc k, u)
    where
      is_end : ℤ → Bool
      is_end (pos n) = false
      is_end (negsuc zero) = true
      is_end (negsuc (suc n)) = false

  -- The loop of `Write` for terminals.
  unfoldable pub write_tty : ℕ → ℕ → ℕ → W → W
  write_tty zero terminal buffer w = w
  write_tty (suc n) terminal buffer w =
      write_tty n terminal (buffer + 1) (d.putc terminal (d.load_byte buffer w) w)

  -- The loop of `Write` for the debug port.
  unfoldable pub write_debug : ℕ → ℕ → W → W
  write_debug zero buffer w = w
  write_debug (suc n) buffer w = write_debug n (buffer + 1) (d.debug_putc (d.load_byte buffer w) w)

  -- Whether a loop that has done `done` rounds stopped before the count.
  abbrev progress : ℕ → ℤ → ℤ
  progress done count = elim count [
    | pos n ↦ if ltb done n then eagain else esuccess
    | negsuc n ↦ esuccess
  ]

  unfoldable pub read_file : ℕ → ℕ → ℤ → Bool → M W Reply
  read_file stream buffer count wanted = do
    r ← device (d.read_stream stream buffer count)
    return (r.0, if is_negative r.0 then none else told wanted r.1)

  unfoldable pub read_directory : ℕ → ℕ → ℤ → Bool → M W Reply
  unfolding answer
  read_directory stream buffer count wanted = do
    r ← device (d.get_next_inode stream)
    branch (r.0 == 0) (answer (r.1, none)) (do
      temp ← device (d.is_temp_fs stream)
      branch temp
          (branch (to_u64 count == d.inode_size)
            (do
              change (d.copy buffer r.0 d.inode_size)
              answer (pos d.inode_size, told wanted esuccess))
            (answer (einval, none)))
          (answer (enosys, none)))

  unfoldable pub read_descriptor : ℕ → ℤ → Bool → M W Reply
  unfolding acquire_lock can_read answer read_tty read_file read_directory
  read_descriptor buffer count wanted = do
    acquire_lock
    s ← get_state
    branch (can_read s.self.mode)
        (elim s.self.type [
          | tty ↦ (do
            k ← outside (read_tty (rounds count) s.self.terminal buffer)
            answer (pos k, told wanted (progress k count)))
          | debug ↦ answer (enosys, none)
          | file_stream ↦ read_file s.self.stream buffer count wanted
          | directory_stream ↦ read_directory s.self.stream buffer count wanted
          | unknown ↦ return (enosys, none)
        ])
        (answer (ebadf, none))

  unfoldable pub write_file : ℕ → ℕ → ℤ → Bool → M W Reply
  unfolding release_lock
  write_file stream buffer count wanted = do
    r ← device (d.write_stream stream buffer count)
    release_lock
    return (r.0, if is_negative r.0 then none else told wanted r.1)

  unfoldable pub write_descriptor : ℕ → ℤ → Bool → M W Reply
  unfolding acquire_lock can_write answer write_tty write_debug write_file
  write_descriptor buffer count wanted = do
    acquire_lock
    s ← get_state
    branch (can_write s.self.mode)
        (elim s.self.type [
          | tty ↦ (do
            change (write_tty (rounds count) s.self.terminal buffer)
            answer (count, told wanted (progress (rounds count) count)))
          | file_stream ↦ write_file s.self.stream buffer count wanted
          | directory_stream ↦ answer (eacces, none)
          | debug ↦ (do
            change (write_debug (rounds count) buffer)
            answer (pos (rounds count), told wanted (progress (rounds count) count)))
          | unknown ↦ answer (enosys, none)
        ])
        (answer (ebadf, none))

  -- `Seek` of a terminal: the quotient and the remainder by the rows are the row and the column.
  unfoldable pub seek_tty : ℕ → ℤ → W → W
  seek_tty terminal offset w =
      let (quot, rem) = d.uldiv (to_u64 offset) (d.amount_of_text_rows terminal w) in
      d.set_cursor_position terminal (rem * 10 % u64_mod) (quot * 16 % u64_mod) w

  unfoldable pub seek_descriptor : ℤ → M W ℤ
  unfolding acquire_lock can_seek answer seek_tty
  seek_descriptor offset = branch (is_negative offset) (return einval) (do
    acquire_lock
    s ← get_state
    branch (can_seek s.self.mode)
        (elim s.self.type [
          | debug ↦ answer enosys
          | tty ↦ (do change (seek_tty s.self.terminal offset); answer esuccess)
          | file_stream ↦ (device (d.seek_stream s.self.stream offset) >>= answer)
          | directory_stream ↦ (device (d.seek_directory s.self.stream offset) >>= answer)
          | unknown ↦ return enosys
        ])
        (answer ebadf))

  unfoldable pub rewind_descriptor : M W ℤ
  unfolding acquire_lock can_seek answer
  rewind_descriptor = do
    acquire_lock
    s ← get_state
    branch (can_seek s.self.mode)
        (elim s.self.type [
          | debug ↦ answer enosys
          | tty ↦ (do change (d.putc s.self.terminal 12); answer esuccess)
          | file_stream ↦ (device (d.rewind_stream s.self.stream) >>= answer)
          | directory_stream ↦ (device (d.seek_directory s.self.stream (pos 0)) >>= answer)
          | unknown ↦ answer enosys
        ])
        (answer ebadf)

  unfoldable pub force_unlock : M W (Unit {0})
  unfolding release_lock
  force_unlock = do
    release_lock
    s ← get_state
    elim s.self.type [
      | tty ↦ change (d.unlock_tty s.self.terminal)
      | unknown ↦ return tt
      | file_stream ↦ return tt
      | directory_stream ↦ return tt
      | debug ↦ return tt
    ]
