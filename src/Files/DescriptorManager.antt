-- ===== src/Files/DescriptorManager.antt =====
-- kernel/src/fs/FileDescriptorManager.cpp. Descriptors are objects of a heap, by address; the list of
-- them is a sequence of addresses. Identifiers that are reserved are not negative.
pub mod Operations
pub mod Lookup
pub mod Table
pub mod Full
use frosty_os_old.Common.{
  ◌-◌, ℕ, zero, suc, ◌+◌, ◌*◌, ◌/◌, ◌==◌, leb, Bool, true, false, not, ◌&&◌, if◌then◌else◌, Option,
  none, some, List, [], ◌∷◌, ◌++◌, update,
}
use frosty_os_old.Common.Integers.{ℤ, pos, negsuc}
use frosty_os_old.Common.Locking.{
  Outcome, ok, deadlock, ◌>>=◌, ◌>>◌, return, get_state, modify, branch, take_lock,
}
use frosty_os_old.Data.Bitmap.{Bitmap, get, set, set_size, set_buffer}
use frosty_os_old.Files.FileDescriptor.{
  FileDescriptor, FileDescriptorType, FileDescriptorMode, Devices, State,
}
use frosty_os_old.Files.FileDescriptor.Opening.{make, destroy}
use frosty_os_old.Files.FileDescriptor.Calls.{force_unlock}

pub record FileDescriptorManager (W : Type 0) : Type 0 where
  pub auto_expand : Bool
  pub descriptors : List ℕ
  pub bitmap : Bitmap
  pub lock : Bool
  pub heap : ℕ → FileDescriptor
  pub world : W

-- Memory for a descriptor, its release, and `krealloc`: the bytes from the new address on, if it is
-- not null.
pub record Memory (W : Type 0) : Type 0 where
  pub allocate : W → ℕ × W
  pub release : ℕ → W → W
  pub krealloc : (ℕ → ℕ) → ℕ → W → Option (ℕ → ℕ) × W

unfoldable pub same_id : ℤ → ℤ → Bool
same_id (pos a) (pos b) = a == b
same_id (negsuc a) (negsuc b) = a == b
same_id _ _ = false

-- The loop of `GetFileDescriptor`: the address, or null.
unfoldable pub find_id : ℤ → (ℕ → FileDescriptor) → List ℕ → ℕ
unfolding same_id
find_id id heap [] = 0
find_id id heap (a ∷ rest) =
    if a == 0 then 0 else if same_id (heap a).id id then a else find_id id heap rest

-- The loop of `AllocateFileDescriptor`: the first clear bit of that many.
unfoldable pub first_clear : ℕ → ℕ → Bitmap → Option ℕ
first_clear zero i m = none
first_clear (suc n) i m = if get m i then first_clear n (i + 1) m else some i

-- `remove(descriptor)` of the list
unfoldable pub drop_address : ℕ → List ℕ → List ℕ
drop_address a [] = []
drop_address a (b ∷ bs) = if b == a then bs else b ∷ drop_address a bs

-- The loop of the destructor: the index goes up while the list gets shorter.
unfoldable pub remove_heads : ℕ → List ℕ → List ℕ
remove_heads i [] = []
remove_heads i (a ∷ rest) =
    if leb (suc (list_length rest)) i then a ∷ rest else remove_heads (suc i) rest
  where
    list_length : List ℕ → ℕ
    list_length [] = 0
    list_length (x ∷ xs) = suc (list_length xs)

-- `ALIGN_UP(value, 8)`
abbrev pub align_up_8 : ℕ → ℕ
align_up_8 value = (value + 7) / 8 * 8

-- `fast_memset` of zeros in the words from an offset on.
abbrev pub zero_words : ℕ → ℕ → (ℕ → ℕ) → ℕ → ℕ
zero_words from words bytes i = if leb from i && not (leb (from + words * 8) i) then 0 else bytes i

abbrev pub M : Type 0 → Type 0 → Type 0
M W A = FileDescriptorManager W → Outcome (FileDescriptorManager W) A

module _ {W : Type 0} where
  unfoldable pub acquire_lock : M W (Unit {0})
  acquire_lock = take_lock (λ (s : FileDescriptorManager W). s.lock) (λ s. record s { lock = true })

  unfoldable pub release_lock : M W (Unit {0})
  release_lock = modify (λ s. record s { lock = false })

  unfoldable pub answer : {A : Type 0} → A → M W A
  unfolding release_lock
  answer a = release_lock >> return a

  -- A method of the descriptor at an address.
  unfoldable pub on_descriptor : {A : Type 0} → ℕ → (State W → Outcome (State W) A) → M W A
  on_descriptor address f s = elim (f (record { self = s.heap address; world = s.world })) [
    | ok a t ↦ ok a (record s { heap = update s.heap address t.self; world = t.world })
    | deadlock ↦ deadlock
  ]

  unfoldable pub get_file_descriptor : ℤ → M W ℕ
  unfolding acquire_lock answer find_id
  get_file_descriptor id = do
    acquire_lock
    s ← get_state
    branch (reaches id (s.bitmap.size * 8)) (answer 0) (answer (find_id id s.heap s.descriptors))
    where
      reaches : ℤ → ℕ → Bool
      reaches (pos n) bits = leb bits n
      reaches (negsuc n) bits = false
