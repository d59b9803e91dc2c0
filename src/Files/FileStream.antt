-- ===== src/Files/FileStream.antt =====
-- kernel/src/fs/FileStream.cpp: a stream, the inode that it reads and writes, and actions on both. The methods
-- of the inode are an interface over its head and its contents.
pub mod Actions
pub mod Calls
pub mod Unlocked
pub mod Heads
pub mod Faults
use frosty_os_old.Common.{
  ℕ, ◌/◌, ◌%◌, ◌==◌, Bool, true, false, not, if◌then◌else◌, Option, none, some,
}
use frosty_os_old.Common.Integers.{ℤ, pos, neg}

pub data InodeType : Type 0 where
  unknown_type : InodeType
  file : InodeType
  folder : InodeType
  sym_link : InodeType

pub data FileSystemType : Type 0 where
  vfs : FileSystemType
  tmpfs : FileSystemType

-- `TempFSInode::Head`, the members that say where in the file the next bytes are read or written. A block
-- is the number of its address.
pub record Head : Type 0 where
  pub current_offset : ℤ
  pub is_open : Bool
  pub current_block : ℕ
  pub block_index : ℤ
  pub block_offset : ℕ

-- `{0, false, nullptr, 0, 0}`
abbrev pub no_head : Head
no_head = record {
  current_offset = pos 0;
  is_open = false;
  current_block = 0;
  block_index = pos 0;
  block_offset = 0;
}

-- UID, GID and ACL.
abbrev pub Privilege : Type 0
Privilege = ℕ × ℕ × ℕ

-- The methods of an inode that is no symbolic link. Contents are what the inode holds, together with the
-- memory of the caller, in which a buffer is the number of its address. Reading and writing answer with the result and the status, if they set it.
-- The last field says whether `new` finds memory for a head.
pub record Streams (C : Type 0) : Type 0 where
  pub get_type : C → InodeType
  pub open_inode : Head → C → ℤ × (Head × C)
  pub close_inode : Head → C → ℤ × (Head × C)
  pub read_inode : Privilege → ℕ → ℤ → Head → C → (ℤ × Option ℤ) × (Head × C)
  pub write_inode : Privilege → ℕ → ℤ → Head → C → (ℤ × Option ℤ) × (Head × C)
  pub seek_inode : ℤ → Head → C → ℤ × (Head × C)
  pub rewind_inode : Head → C → ℤ × (Head × C)
  pub size_of : C → ℕ × ℤ
  pub has_memory : C → Bool

pub record Inode (C : Type 0) : Type 0 where
  pub head : Head
  pub contents : C
  pub lock : Bool

-- `m_inode_state`
pub data Saved : Type 0 where
  null : Saved
  deleted : Saved
  kept : Head → Saved

pub record FileStream : Type 0 where
  pub is_open : Bool
  pub has_inode : Bool
  pub inode_state : Saved
  pub mount_point : Option FileSystemType
  pub modes : ℕ
  pub privilege : Privilege
  pub lock : Bool

pub record State (C : Type 0) : Type 0 where
  pub self : FileStream
  pub inode : Inode C

-- The constructor.
abbrev pub make : Bool → Option FileSystemType → ℕ → Privilege → FileStream
make has_inode mount_point modes privilege = record {
  is_open = false;
  has_inode = has_inode;
  inode_state = Saved.null;
  mount_point = mount_point;
  modes = modes;
  privilege = privilege;
  lock = false;
}

-- How a method ends: with a value, by spinning for ever on a lock that is held, or by an access through a
-- pointer that is null or to what was deleted.
pub data Outcome (S A : Type 0) : Type 0 where
  done : A → S → Outcome S A
  deadlock : Outcome S A
  fault : Outcome S A

module _ {S : Type 0} where
  infixl 5 ◌>>=◌ ◌>>◌
  abbrev pub ◌>>=◌ : {A B : Type 0} → (S → Outcome S A) → (A → S → Outcome S B) → S → Outcome S B
  ◌>>=◌ m f s = elim (m s) [ done a t ↦ f a t | deadlock ↦ deadlock | fault ↦ fault ]

  abbrev pub ◌>>◌ : {A B : Type 0} → (S → Outcome S A) → (S → Outcome S B) → S → Outcome S B
  m >> k = m >>= λ _. k

  abbrev pub return : {A : Type 0} → A → S → Outcome S A
  return a s = done a s

  abbrev pub crash : {A : Type 0} → S → Outcome S A
  crash s = fault

  abbrev pub get_state : S → Outcome S S
  get_state s = done s s

  abbrev pub modify : (S → S) → S → Outcome S (Unit {0})
  modify f s = done tt (f s)

  -- `if` between two actions.
  abbrev pub branch : {A : Type 0} → Bool → (S → Outcome S A) → (S → Outcome S A) → S → Outcome S A
  branch b m n s = elim b [ true ↦ m s | false ↦ n s ]
