-- ===== src/Files/FileDescriptor/Locked.antt =====
-- What the operations do with the lock.
use frosty_os_old.Common.{ℕ, Bool, true, false, ◌≡◌, arith, none, if◌then◌else◌}
use frosty_os_old.Common.Integers.{ℤ, is_negative}
use frosty_os_old.Common.Locking.{ok, deadlock, ◌>>=◌, return}
use frosty_os_old.Files.FileDescriptor.{
  FileDescriptorType, unknown, file_stream, FileDescriptorMode, Devices, State, einval, ebadf,
  can_read, can_write, can_seek, M, Reply, acquire_lock, release_lock, answer,
}
use frosty_os_old.Files.FileDescriptor.Opening.{open_descriptor, close_descriptor}
use frosty_os_old.Files.FileDescriptor.Calls.{
  read_descriptor, write_descriptor, seek_descriptor, rewind_descriptor,
}

pub data Call : Type 0 where
  opens : Call
  closes : Call
  reads : ℕ → ℤ → Bool → Call
  writes : ℕ → ℤ → Bool → Call
  seeks : ℤ → Call
  rewinds : Call

-- The modes in which a call does its work.
abbrev pub allows : Call → FileDescriptorMode → Bool
allows opens m = true
allows closes m = true
allows (reads b c s) m = can_read m
allows (writes b c s) m = can_write m
allows (seeks o) m = can_seek m
allows rewinds m = can_seek m

-- A negative offset is refused before the lock is taken.
abbrev pub is_refused : Call → Bool
is_refused (seeks o) = is_negative o
is_refused _ = false

-- The branches that return with the lock held.
abbrev pub leaks : Call → FileDescriptorType → Bool
leaks opens unknown = true
leaks (reads b c s) unknown = true
leaks (reads b c s) file_stream = true
leaks (seeks o) unknown = true
leaks _ _ = false

module _ {W : Type 0} (d : Devices W) where
  unfoldable pub call : Call → M W Reply
  unfolding open_descriptor close_descriptor read_descriptor write_descriptor seek_descriptor
      rewind_descriptor
  call opens = do r ← open_descriptor d; return (r, none)
  call closes = do r ← close_descriptor d; return (r, none)
  call (reads b c s) = read_descriptor d b c s
  call (writes b c s) = write_descriptor d b c s
  call (seeks o) = do r ← seek_descriptor d o; return (r, none)
  call rewinds = do r ← rewind_descriptor d; return (r, none)

  -- While the lock is held, every call but one that is refused at once spins for ever.
  pub call_locked :
      (c : Call) (s : State W) → s.self.lock ≡ true → is_refused c ≡ false → call c s ≡ deadlock
  unfolding call open_descriptor close_descriptor read_descriptor write_descriptor seek_descriptor
      rewind_descriptor acquire_lock
  call_locked opens s l e = ground (arith, l)
  call_locked closes s l e = ground (arith, l)
  call_locked (reads b c w) s l e = ground (arith, l)
  call_locked (writes b c w) s l e = ground (arith, l)
  call_locked (seeks o) s l e = ground (arith, l)
  call_locked rewinds s l e = ground (arith, l)

  -- A call that the mode does not allow, on a descriptor that is not locked, answers -EBADF and
  -- changes neither the descriptor nor anything else; a seek to a negative offset answers -EINVAL.
  call_bad_mode :
      (c : Call) (s : State W)
      → s.self.lock ≡ false
      → allows c s.self.mode ≡ false
      → call c s ≡ ok (if is_refused c then einval else ebadf, none) s
  unfolding call open_descriptor close_descriptor read_descriptor write_descriptor seek_descriptor
      rewind_descriptor acquire_lock release_lock answer
  call_bad_mode opens s l e = cc
  call_bad_mode closes s l e = cc
  call_bad_mode (reads b c w) s l e = ground (arith, l, e)
  call_bad_mode (writes b c w) s l e = ground (arith, l, e)
  call_bad_mode (seeks o) s l e = ground (arith, l, e)
  call_bad_mode rewinds s l e = ground (arith, l, e)
