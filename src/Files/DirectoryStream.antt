-- ===== src/Files/DirectoryStream.antt =====
-- kernel/src/fs/DirectoryStream.cpp: a stream of the inodes in a folder, or in the root of a file system.
pub mod Enumerate
use frosty_os_old.Common.{
  ℕ, zero, suc, ◌+◌, ◌/◌, ◌%◌, ◌==◌, ◌||◌, leb, length, Bool, true, false, not, if◌then◌else◌, List,
  [], ◌∷◌, Option, none, some,
}
use frosty_os_old.Common.Integers.{ℤ, pos, negsuc, neg}
use frosty_os_old.Files.FileStream.{
  Outcome, done, deadlock, fault, ◌>>=◌, ◌>>◌, return, crash, get_state, modify, branch, Privilege,
}
use frosty_os_old.Files.FileStream.Actions.{esuccess, enosys, einval, eacces}

-- What a stream reads of a folder or of the root of a file system. An inode is the number of its address.
pub record Listing : Type 0 where
  pub is_folder : Bool
  pub privilege_level : Privilege
  pub children : List ℕ

pub record DirectoryStream : Type 0 where
  pub inode : Option Listing
  pub fs : Option Listing
  pub privilege : Privilege
  pub index : ℕ
  pub is_open : Bool
  pub lock : Bool

abbrev pub ebadf : ℤ
ebadf = neg 8

abbrev pub enotdir : ℤ
enotdir = neg 50

-- `GetChild`, and `GetRootInode`, in range.
unfoldable pub child_at : List ℕ → ℕ → ℕ
child_at [] i = 0
child_at (x ∷ xs) zero = x
child_at (x ∷ xs) (suc i) = child_at xs i

-- The tests of the access control list.
unfoldable pub has_access : Privilege → Privilege → Bool
has_access (owner, group, acl) (uid, gid, mine) =
    if owner == uid || owner == 0
    then acl / 256 % 2 == 1
    else if group == gid
    then acl / 32 % 2 == 1
    else acl / 4 % 2 == 1

abbrev pub Action : Type 0 → Type 0
Action A = DirectoryStream → Outcome DirectoryStream A

abbrev pub acquire_lock : Action (Unit {0})
acquire_lock s = elim s.lock [ true ↦ deadlock | false ↦ done tt (record s { lock = true }) ]

abbrev pub leave : {A : Type 0} → A → Action A
leave a = modify (λ s. record s { lock = false }) >> return a

-- The rest of `Open`, where there is a listing.
abbrev pub open_listing : Listing → Action ℤ
open_listing d s =
    branch (has_access d.privilege_level s.privilege)
      (modify (λ s. record s { index = 0; is_open = true }) >> leave esuccess) (leave eacces) s

abbrev pub open_source : Action ℤ
open_source s = elim s.inode [
  | some d ↦ branch d.is_folder (open_listing d) (leave enotdir) s
  | none ↦ elim s.fs [ some d ↦ open_listing d s | none ↦ leave enosys s ]
]

-- `Open`
unfoldable pub open_directory : Action ℤ
unfolding has_access
open_directory = acquire_lock >> get_state >>= λ s. branch s.is_open (leave esuccess) open_source

-- `Close`
unfoldable pub close_directory : Action ℤ
close_directory = acquire_lock >> modify (λ s. record s { is_open = false }) >> leave esuccess

-- `Seek`: it returns with the lock where it succeeds.
unfoldable pub seek_directory : ℤ → Action ℤ
seek_directory (negsuc n) = return einval
seek_directory (pos n) = acquire_lock >> get_state >>= λ s.
    branch (not s.is_open) (leave ebadf) (λ s. elim s.inode [
      | none ↦ fault
      | some d ↦
          branch (leb (length d.children) n) (leave einval)
            (modify (λ s. record s { index = n }) >> return esuccess) s
    ])

-- The next inode of a listing, with the status.
abbrev pub next_of : Listing → Action (ℕ × ℤ)
next_of d s =
    branch (leb (length d.children) s.index) (leave (0, einval))
      (λ s. leave (child_at d.children s.index, esuccess) (record s { index = s.index + 1 })) s

-- `GetNextInode`
unfoldable pub get_next_inode : Action (ℕ × ℤ)
unfolding child_at
get_next_inode = acquire_lock >> get_state >>= λ s. branch (not s.is_open) (leave (0, ebadf)) (λ s.
    elim s.inode [
      | some d ↦ next_of d s
      | none ↦ elim s.fs [ some d ↦ next_of d s | none ↦ leave (0, enosys) s ]
    ])

-- That many calls of `GetNextInode`.
unfoldable pub next_inodes : ℕ → Action (List (ℕ × ℤ))
unfolding get_next_inode
next_inodes zero = return []
next_inodes (suc n) = get_next_inode >>= λ a. next_inodes n >>= λ later. return (a ∷ later)
