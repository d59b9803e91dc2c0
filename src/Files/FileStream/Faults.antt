-- ===== src/Files/FileStream/Faults.antt =====
-- kernel/src/fs/FileStream.cpp: the lock that `GetFileSystem` keeps.
use frosty_os_old.Common.{◌≡◌, Bool, true, false, not, some, arith, refl}
use frosty_os_old.Common.Integers.{is_negative}
use frosty_os_old.Files.FileStream.{FileSystemType, Streams, State, done, deadlock}
use frosty_os_old.Files.FileStream.Calls.{
  Call, opens, closes, reads, writes, seeks, rewinds, asks_offset, asks_open, asks_size,
  asks_file_system, call, open_stream, close_stream, read_stream, write_stream, seek, rewind,
  get_offset, is_open, get_size, get_file_system,
}
use frosty_os_old.Files.FileStream.Actions.{esuccess}

module _ {C : Type 0} (ops : Streams C) where
  -- A call that takes the lock.
  abbrev pub takes_lock : Call → Bool
  takes_lock (reads bytes count) = not (is_negative count)
  takes_lock (writes bytes count) = not (is_negative count)
  takes_lock (seeks offset) = not (is_negative offset)
  takes_lock c = true

  call-locked :
      (c : Call) (s : State C) → s.self.lock ≡ true → takes_lock c ≡ true → call ops c s ≡ deadlock
  unfolding call open_stream close_stream read_stream write_stream seek rewind get_offset is_open
      get_size get_file_system
  call-locked opens s l h = rw l refl
  call-locked closes s l h = rw l refl
  call-locked (reads bytes count) s l h = ground (arith, l, h)
  call-locked (writes bytes count) s l h = ground (arith, l, h)
  call-locked (seeks offset) s l h = ground (arith, l, h)
  call-locked rewinds s l h = rw l refl
  call-locked asks_offset s l h = rw l refl
  call-locked asks_open s l h = rw l refl
  call-locked asks_size s l h = rw l refl
  call-locked asks_file_system s l h = rw l refl

  -- On a stream that is mounted and not locked: `GetFileSystem` ends, and after it every call with no
  -- negative argument deadlocks.
  pub get_file_system-deadlock :
      (s : State C) (fs : FileSystemType)
      → s.self.lock ≡ false
      → s.self.mount_point ≡ some fs
      → (t : State C) × (get_file_system s ≡ done (true, esuccess) t)
        × ((c : Call) → takes_lock c ≡ true → call ops c t ≡ deadlock)
  unfolding get_file_system
  get_file_system-deadlock s fs l m =
      let t = record s { self = record s.self { lock = true } } in
      (t, ground (arith, l, m), λ c h. call-locked c t refl h)
