-- ===== src/Files/DescriptorManager/Operations.antt =====
-- The operations of kernel/src/fs/FileDescriptorManager.cpp.
use frosty_os_old.Common.{
  ◌-◌, ℕ, ◌+◌, ◌*◌, ◌/◌, ◌==◌, leb, Bool, true, false, not, ◌&&◌, if◌then◌else◌, Option, none, some,
  List, [], ◌∷◌, ◌++◌, update,
}
use frosty_os_old.Common.Integers.{ℤ, pos, negsuc}
use frosty_os_old.Common.Locking.{
  Outcome, ok, deadlock, ◌>>=◌, ◌>>◌, return, get_state, modify, branch,
}
use frosty_os_old.Data.Bitmap.{get, set, set_size, set_buffer}
use frosty_os_old.Files.FileDescriptor.{FileDescriptorType, FileDescriptorMode, Devices}
use frosty_os_old.Files.FileDescriptor.Opening.{make, destroy}
use frosty_os_old.Files.FileDescriptor.Calls.{force_unlock}
use frosty_os_old.Files.DescriptorManager.{
  FileDescriptorManager, Memory, first_clear, drop_address, remove_heads, align_up_8, zero_words, M,
  acquire_lock, release_lock, answer, on_descriptor, get_file_descriptor,
}

module _ {W : Type 0} (d : Devices W) (memory : Memory W) where
  unfoldable pub expand_bitmap : ℕ → M W Bool
  unfolding set_size set_buffer
  expand_bitmap new_size s =
      let old_size = s.bitmap.size in
      let (data_, w) = memory.krealloc s.bitmap.buffer new_size s.world in
      if leb new_size old_size
      then ok true s
      else if not s.auto_expand
      then ok false s
      else grown data_ w
    where
      grown : Option (ℕ → ℕ) → W → Outcome (FileDescriptorManager W) Bool
      grown none w = ok false (record s { world = w })
      grown (some bytes) w = ok true (record s {
        bitmap =
            set_size
              (set_buffer s.bitmap
                (zero_words s.bitmap.size ((new_size - s.bitmap.size) / 8) bytes))
              new_size;
        world = w;
      })

  -- `new FileDescriptor(type, data, mode, ID)`
  unfoldable pub construct : FileDescriptorType → ℕ → FileDescriptorMode → ℤ → M W ℕ
  unfolding make
  construct type data_ mode id s =
      let (address, w) = memory.allocate s.world in
      elim (make d type data_ mode id w) [
        | ok a t ↦ ok address (record s { heap = update s.heap address t.self; world = t.world })
        | deadlock ↦ deadlock
      ]

  -- `delete descriptor`
  unfoldable pub delete_descriptor : ℕ → M W (Unit {0})
  unfolding on_descriptor destroy
  delete_descriptor address = do
    on_descriptor address (destroy d)
    modify (λ s. record s { world = memory.release address s.world })

  -- The descriptor is listed under its identifier.
  unfoldable pub enlist : ℕ → ℕ → M W (Unit {0})
  unfolding set
  enlist address id =
      modify (λ s. record s {
        descriptors = s.descriptors ++ address ∷ [];
        bitmap = set s.bitmap id true;
      })

  unfoldable pub reserve_file_descriptor :
      FileDescriptorType → ℕ → FileDescriptorMode → ℕ → M W Bool
  unfolding acquire_lock answer get expand_bitmap construct delete_descriptor enlist
  reserve_file_descriptor type data_ mode id = do
    acquire_lock
    s ← get_state
    branch (not (leb (s.bitmap.size * 8) id) && get s.bitmap id) (answer false) (do
      enough ← expand_bitmap (align_up_8 (id + 1))
      branch enough
          (do
            address ← construct type data_ mode (pos id)
            t ← get_state
            branch (t.heap address).init_successful (do enlist address id; answer true)
                (do delete_descriptor address; answer false))
          (answer false))

  -- `ReserveFileDescriptor` of a descriptor that there is, or null, under its own identifier.
  unfoldable pub reserve_descriptor : ℕ → ℕ → M W Bool
  unfolding acquire_lock answer get expand_bitmap enlist
  reserve_descriptor address id = branch (address == 0) (return false) (do
    acquire_lock
    s ← get_state
    branch (not (leb (s.bitmap.size * 8) id) && get s.bitmap id) (answer false) (do
      enough ← expand_bitmap (align_up_8 (id + 1))
      branch enough (do enlist address id; answer true) (answer false)))

  unfoldable pub allocate_with : FileDescriptorType → ℕ → FileDescriptorMode → ℕ → M W ℤ
  unfolding construct enlist answer release_lock delete_descriptor
  allocate_with type data_ mode id = do
    address ← construct type data_ mode (pos id)
    s ← get_state
    branch (s.heap address).init_successful (do enlist address id; answer (pos id))
        (do release_lock; delete_descriptor address; return (negsuc 0))

  unfoldable pub allocate_file_descriptor : FileDescriptorType → ℕ → FileDescriptorMode → M W ℤ
  unfolding acquire_lock answer first_clear expand_bitmap allocate_with
  allocate_file_descriptor type data_ mode = do
    acquire_lock
    s ← get_state
    elim (first_clear (s.bitmap.size * 8) 0 s.bitmap) [
      | some id ↦ allocate_with type data_ mode id
      | none ↦ (do
        enough ← expand_bitmap (align_up_8 (s.bitmap.size + 1))
        branch enough (allocate_with type data_ mode s.bitmap.size) (answer (negsuc 0)))
    ]

  -- `FreeFileDescriptor`, and `UnreserveFileDescriptor`, which is the same.
  unfoldable pub free_file_descriptor : ℕ → M W Bool
  unfolding get_file_descriptor drop_address acquire_lock answer set
  free_file_descriptor id = do
    address ← get_file_descriptor (pos id)
    branch (address == 0) (return false) (do
      acquire_lock
      modify (λ s. record s {
        descriptors = drop_address address s.descriptors;
        bitmap = set s.bitmap id false;
      })
      answer true)

  -- The loop of `ForceUnlock`, over the list.
  unfoldable pub unlock_each : List ℕ → M W (Unit {0})
  unfolding on_descriptor force_unlock
  unlock_each [] s = ok tt s
  unlock_each (a ∷ rest) s =
      (branch (a == 0) (return tt) (on_descriptor a (force_unlock d)) >> unlock_each rest) s

  unfoldable pub force_unlock_all : M W (Unit {0})
  unfolding acquire_lock release_lock unlock_each
  force_unlock_all = do acquire_lock; s ← get_state; unlock_each s.descriptors; release_lock

  unfoldable pub destroy_manager : M W (Unit {0})
  unfolding acquire_lock release_lock remove_heads
  destroy_manager = do
    acquire_lock
    modify (λ s. record s { descriptors = remove_heads 0 s.descriptors })
    release_lock
