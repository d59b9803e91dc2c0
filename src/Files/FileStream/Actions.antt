-- ===== src/Files/FileStream/Actions.antt =====
-- kernel/src/fs/FileStream.cpp: what the methods are made of, the locks, the head of the inode, and the tests.
use frosty_os_old.Common.{ℕ, ◌/◌, ◌%◌, ◌==◌, Bool, true, false, if◌then◌else◌, none, some}
use frosty_os_old.Common.Integers.{ℤ, pos, neg}
use frosty_os_old.Files.FileStream.{
  Privilege, file, tmpfs, vfs, Head, Streams, null, deleted, kept, State, Outcome, done, deadlock,
  fault, ◌>>◌, return, modify, branch,
}

abbrev pub esuccess : ℤ
esuccess = pos 0

abbrev pub enosys : ℤ
enosys = neg 23

abbrev pub einval : ℤ
einval = neg 29

abbrev pub eisdir : ℤ
eisdir = neg 32

abbrev pub enodev : ℤ
enodev = neg 46

abbrev pub enomem : ℤ
enomem = neg 54

abbrev pub eacces : ℤ
eacces = neg 62

-- `m_modes & VFS_READ` and `m_modes & VFS_WRITE`
abbrev pub may_read : ℕ → Bool
may_read modes = modes % 2 == 1

abbrev pub may_write : ℕ → Bool
may_write modes = modes / 2 % 2 == 1

abbrev pub Action : Type 0 → Type 0 → Type 0
Action C A = State C → Outcome (State C) A

module _ {C : Type 0} where
  -- `spinlock_acquire(&m_lock)`
  abbrev pub acquire_lock : Action C (Unit {0})
  acquire_lock s = elim s.self.lock [
    | true ↦ deadlock
    | false ↦ done tt (record s { self = record s.self { lock = true } })
  ]

  abbrev pub release_lock : Action C (Unit {0})
  release_lock = modify (λ s. record s { self = record s.self { lock = false } })

  -- `Lock` and `Unlock` of the inode
  abbrev pub lock_inode : Action C (Unit {0})
  lock_inode s = elim s.inode.lock [
    | true ↦ deadlock
    | false ↦ done tt (record s { inode = record s.inode { lock = true } })
  ]

  abbrev pub unlock_inode : Action C (Unit {0})
  unlock_inode = modify (λ s. record s { inode = record s.inode { lock = false } })

  -- A return after the lock is given back.
  abbrev pub leave : {A : Type 0} → A → Action C A
  leave a = release_lock >> return a

  abbrev pub set_head : Head → Action C (Unit {0})
  set_head h = modify (λ s. record s { inode = record s.inode { head = h } })

  -- `inode->SetCurrentHead(*(TempFSInode::Head*)m_inode_state)`
  unfoldable pub set_current_head : Action C (Unit {0})
  set_current_head s = elim s.self.inode_state [
    | null ↦ fault
    | deleted ↦ fault
    | kept h ↦ set_head h s
  ]

  -- `*(TempFSInode::Head*)m_inode_state = inode->GetCurrentHead()`
  abbrev pub save_head : Action C (Unit {0})
  save_head = modify (λ s. record s { self = record s.self { inode_state = kept s.inode.head } })

  -- `m_inode_state = head`
  abbrev pub keep_head : Head → Action C (Unit {0})
  keep_head h = modify (λ s. record s { self = record s.self { inode_state = kept h } })

  abbrev pub set_open : Bool → Action C (Unit {0})
  set_open b = modify (λ s. record s { self = record s.self { is_open = b } })

  -- What a method of the inode does, which may get `m_privilege`.
  abbrev pub on_inode : {A : Type 0} → (Privilege → Head → C → A × (Head × C)) → Action C A
  on_inode f s =
      let r = f s.self.privilege s.inode.head s.inode.contents in
      done r.0 (record s { inode = record s.inode { head = (r.1).0; contents = (r.1).1 } })

  -- `-ENODEV` where there is no mount point.
  unfoldable pub if_mounted : {A : Type 0} → A → Action C A → Action C A
  if_mounted enodev_answer m s = elim s.self.mount_point [
    | none ↦ leave enodev_answer s
    | some fs ↦ m s
  ]

  -- `switch (m_mountPoint->type)`
  unfoldable pub if_type : {A : Type 0} → A → Action C A → Action C A
  if_type enodev_answer m s = elim s.self.mount_point [
    | none ↦ fault
    | some fs ↦ elim fs [ vfs ↦ leave enodev_answer s | tmpfs ↦ m s ]
  ]

module _ {C : Type 0} (ops : Streams C) where
  -- `inode != nullptr && inode->GetType() == InodeType::File`
  unfoldable pub is_file : State C → Bool
  is_file s =
      if s.self.has_inode
      then elim (ops.get_type s.inode.contents) [ file ↦ true | _ ↦ false ]
      else false

  unfoldable pub if_file : {A : Type 0} → A → Action C A → Action C A
  unfolding is_file
  if_file eisdir_answer m s = branch (is_file s) m (leave eisdir_answer) s

  -- The `switch` with the test of the inode in its case.
  unfoldable pub if_temp_fs : {A : Type 0} → A → A → Action C A → Action C A
  unfolding if_file if_type
  if_temp_fs enodev_answer eisdir_answer m = if_type enodev_answer (if_file eisdir_answer m)
