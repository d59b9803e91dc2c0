-- ===== src/Files/FileStream/Calls.antt =====
-- kernel/src/fs/FileStream.cpp: the methods of a stream, and calls of them.
use frosty_os_old.Common.{
  List, [], ◌∷◌, ℕ, Bool, true, false, not, if◌then◌else◌, Option, none, some,
}
use frosty_os_old.Common.Integers.{ℤ, is_negative}
use frosty_os_old.Files.FileStream.{
  Privilege, Head, no_head, Streams, deleted, State, Outcome, done, ◌>>=◌, ◌>>◌, return, get_state,
  modify, branch,
}
use frosty_os_old.Files.FileStream.Actions.{
  enomem, keep_head, esuccess, enosys, einval, eisdir, enodev, eacces, may_read, may_write, Action,
  acquire_lock, lock_inode, unlock_inode, leave, set_head, set_current_head, save_head, set_open,
  on_inode, if_mounted, if_type, if_file, if_temp_fs,
}

module _ {C : Type 0} (ops : Streams C) where
  -- `Open`: the head is a copy of what the inode has after its own `Open`. Where there is no memory for it,
  -- the inode stays open and the stream does not.
  unfoldable pub open_stream : Action C ℤ
  unfolding if_mounted if_temp_fs
  open_stream = acquire_lock >> get_state >>= λ s. branch s.self.is_open (leave esuccess) (
      if_mounted enodev (
        if_temp_fs ops enodev eisdir (
          lock_inode >> set_head no_head >> on_inode (λ p. ops.open_inode) >>= λ rc.
          branch (is_negative rc) (unlock_inode >> leave enosys) (
            get_state >>= λ t.
            unlock_inode
            >> branch (not (ops.has_memory t.inode.contents)) (leave enomem)
                (keep_head t.inode.head >> set_open true >> leave esuccess)))))

  -- `Close`
  unfoldable pub close_stream : Action C ℤ
  unfolding if_mounted if_temp_fs set_current_head
  close_stream = acquire_lock >> get_state >>= λ s. branch (not s.self.is_open) (leave esuccess) (
      if_mounted enodev (
        if_temp_fs ops enodev eisdir (
          lock_inode
          >> set_current_head
          >> set_open false
          >> on_inode (λ p. ops.close_inode)
          >>= λ rc.
              unlock_inode
              >> modify (λ s. record s { self = record s.self { inode_state = deleted } })
              >> leave rc)))

  -- A method of the inode at the head that the stream keeps.
  abbrev pub at_head : {A : Type 0} → (Privilege → Head → C → A × (Head × C)) → Action C A
  at_head f =
      lock_inode >> set_current_head >> on_inode f >>= λ a. save_head >> unlock_inode >> leave a

  -- `ReadStream`, with the status that is set.
  unfoldable pub read_stream : ℕ → ℤ → Action C (ℤ × Option ℤ)
  unfolding if_mounted if_temp_fs set_current_head
  read_stream bytes count = branch (is_negative count) (return (einval, none)) (
      acquire_lock
      >> if_mounted (enodev, none)
          (get_state >>= λ s. branch (not (may_read s.self.modes)) (leave (eacces, none)) (
            if_temp_fs ops (enodev, none) (eisdir, none)
              (at_head (λ p. ops.read_inode p bytes count)))))

  -- The status is set where the result is no error.
  abbrev told : ℤ × Option ℤ → ℤ × Option ℤ
  told (rc, status) = (rc, if is_negative rc then none else status)

  -- `WriteStream`
  unfoldable pub write_stream : ℕ → ℤ → Action C (ℤ × Option ℤ)
  unfolding if_mounted if_temp_fs set_current_head
  write_stream bytes count = branch (is_negative count) (return (einval, none)) (
      acquire_lock
      >> if_mounted (enodev, none)
          (get_state >>= λ s. branch (not (may_write s.self.modes)) (leave (eacces, none)) (
            if_temp_fs ops (enodev, none) (eisdir, none)
              (at_head (λ p. ops.write_inode p bytes count) >>= λ r. return (told r)))))

  abbrev error_or_success : ℤ → ℤ
  error_or_success rc = if is_negative rc then rc else esuccess

  -- `Seek`
  unfoldable pub seek : ℤ → Action C ℤ
  unfolding if_mounted if_temp_fs set_current_head
  seek offset = branch (is_negative offset) (return einval) (
      acquire_lock
      >> if_mounted enodev (
          if_temp_fs ops enodev eisdir
            (at_head (λ p. ops.seek_inode offset) >>= λ rc. return (error_or_success rc))))

  -- `Rewind`
  unfoldable pub rewind : Action C ℤ
  unfolding if_mounted if_temp_fs set_current_head
  rewind =
      acquire_lock
      >> if_mounted enodev (
          if_temp_fs ops enodev eisdir
            (at_head (λ p. ops.rewind_inode) >>= λ rc. return (error_or_success rc)))

  -- `GetOffset`
  unfoldable pub get_offset : Action C ℤ
  unfolding if_mounted if_file if_type set_current_head
  get_offset =
      acquire_lock
      >> if_mounted enodev (
          if_file ops eisdir (
            if_type enodev (
              lock_inode >> set_current_head >> get_state >>= λ s.
              unlock_inode >> leave s.inode.head.current_offset)))

  -- `isOpen`, with the status.
  unfoldable pub is_open : Action C (Bool × ℤ)
  unfolding if_mounted if_file if_type set_current_head
  is_open =
      acquire_lock
      >> if_mounted (false, enodev)
          (if_file ops (false, eisdir)
            (if_type (false, enodev)
              (lock_inode >> set_current_head >> get_state >>= λ s.
                unlock_inode >> leave (s.inode.head.is_open, esuccess))))

  -- `GetSize`, with the status.
  unfoldable pub get_size : Action C (ℕ × ℤ)
  unfolding if_file if_type
  get_size =
      acquire_lock
      >> if_file ops (0, eisdir)
          (if_type (0, enodev)
            (lock_inode >> get_state >>= λ s. unlock_inode >> leave (ops.size_of s.inode.contents)))

-- `GetFileSystem`, with whether there is one and the status. The lock is not given back where there is.
unfoldable pub get_file_system : {C : Type 0} → State C → Outcome (State C) (Bool × ℤ)
get_file_system = acquire_lock >> λ s. elim s.self.mount_point [
  | none ↦ leave (false, enodev) s
  | some fs ↦ done (true, esuccess) s
]

-- A call of a method, and its answer.
pub data Call : Type 0 where
  opens : Call
  closes : Call
  reads : ℕ → ℤ → Call
  writes : ℕ → ℤ → Call
  seeks : ℤ → Call
  rewinds : Call
  asks_offset : Call
  asks_open : Call
  asks_size : Call
  asks_file_system : Call

pub data Answer : Type 0 where
  number : ℤ → Answer
  counted : ℤ × Option ℤ → Answer
  truth : Bool × ℤ → Answer
  size : ℕ × ℤ → Answer

module _ {C : Type 0} (ops : Streams C) where
  unfoldable pub call : Call → Action C Answer
  unfolding open_stream close_stream read_stream write_stream seek rewind get_offset is_open
      get_size get_file_system
  call opens = open_stream ops >>= λ a. return (number a)
  call closes = close_stream ops >>= λ a. return (number a)
  call (reads bytes count) = read_stream ops bytes count >>= λ a. return (counted a)
  call (writes bytes count) = write_stream ops bytes count >>= λ a. return (counted a)
  call (seeks offset) = seek ops offset >>= λ a. return (number a)
  call rewinds = rewind ops >>= λ a. return (number a)
  call asks_offset = get_offset ops >>= λ a. return (number a)
  call asks_open = is_open ops >>= λ a. return (truth a)
  call asks_size = get_size ops >>= λ a. return (size a)
  call asks_file_system = get_file_system >>= λ a. return (truth a)

  -- Calls in a row.
  unfoldable pub run : List Call → Action C (List Answer)
  unfolding call
  run [] = return []
  run (c ∷ cs) = call c >>= λ a. run cs >>= λ later. return (a ∷ later)
