-- ===== src/Files/DescriptorManager/Lookup.antt =====
-- The table that a client sees: which descriptor an identifier leads to.
use frosty_os_old.Data.Bitmap.Laws.{IsBytes}
use frosty_os_old.Common.{
  inr, subst, inl, eq_cases, ℕ, zero, suc, ◌+◌, ◌==◌, ◌≤◌, ◌<◌, ◌≡◌, ◌≢◌, refl, arith, Bool, true,
  false, not, if◌then◌else◌, none, some, List, [], ◌∷◌, ◌++◌, update, has,
}
use frosty_os_old.Common.Integers.{ℤ, pos}
use frosty_os_old.Common.Locking.{ok}
use frosty_os_old.Data.Bitmap.{Bitmap, get, set}
use frosty_os_old.Files.FileDescriptor.{
  FileDescriptor, FileDescriptorType, unknown, file_stream, directory_stream, tty, debug,
  FileDescriptorMode, read, write, append, read_write, Devices, State, empty,
}
use frosty_os_old.Files.FileDescriptor.Opening.{make, attach}
use frosty_os_old.Files.DescriptorManager.{
  FileDescriptorManager, Memory, find_id, same_id, first_clear,
}
use frosty_os_old.Files.DescriptorManager.Operations.{allocate_with}

-- The kinds of descriptors that the constructor makes.
abbrev pub constructs : FileDescriptorType → FileDescriptorMode → Bool
constructs unknown mode = false
constructs file_stream mode = true
constructs directory_stream read = true
constructs directory_stream _ = false
constructs tty mode = true
constructs debug write = true
constructs debug append = true
constructs debug _ = false

module _ {W : Type 0} (d : Devices W) where
  -- A descriptor that is ready, under that identifier.
  abbrev pub Made : FileDescriptorType → ℕ → FileDescriptorMode → ℤ → W → Type 0
  Made type data_ mode id w =
      (t : State W) × (make d type data_ mode id w ≡ ok tt t)
      × (t.self.init_successful ≡ true)
      × (t.self.id ≡ id)

  pub make-Made :
      (type : FileDescriptorType) (data_ : ℕ) (mode : FileDescriptorMode) (id : ℤ) (w : W)
      → constructs type mode ≡ true
      → Made type data_ mode id w
  unfolding make attach empty
  make-Made unknown n mode id w h = cc
  make-Made file_stream n mode id w h = (_, refl, refl, refl)
  make-Made directory_stream n read id w h = (_, refl, refl, refl)
  make-Made directory_stream n write id w h = cc
  make-Made directory_stream n append id w h = cc
  make-Made directory_stream n read_write id w h = cc
  make-Made tty n read id w h = (_, refl, refl, refl)
  make-Made tty n write id w h = (_, refl, refl, refl)
  make-Made tty n append id w h = (_, refl, refl, refl)
  make-Made tty n read_write id w h = (_, refl, refl, refl)
  make-Made debug n read id w h = cc
  make-Made debug n write id w h = (_, refl, refl, refl)
  make-Made debug n append id w h = (_, refl, refl, refl)
  make-Made debug n read_write id w h = cc

-- The address of the descriptor with an identifier, or null.
abbrev pub lookup : {W : Type 0} → FileDescriptorManager W → ℕ → ℕ
lookup s i = find_id (pos i) s.heap s.descriptors

pub find_id-append :
    (i j a : ℕ) (f : FileDescriptor) (heap : ℕ → FileDescriptor) (xs : List ℕ)
    → a ≢ 0
    → has a xs ≡ false
    → has 0 xs ≡ false
    → f.id ≡ pos i
    → find_id (pos j) (update heap a f) (xs ++ a ∷ []) ≡ (
        if find_id (pos j) heap xs == 0 then (if i == j then a else 0) else find_id (pos j) heap xs)
unfolding find_id same_id
find_id-append i j a f heap [] ne out null e = ground (arith, e)
find_id-append i j a f heap (x ∷ xs) ne out null e =
    ground (arith, find_id-append i j a f heap xs ne (ground (arith, out)) (ground (arith, null)) e)

pub first_clear-some :
    (n i k : ℕ) (m : Bitmap)
    → first_clear n i m ≡ some k
    → (get m k ≡ false) × (i ≤ k) × (k < i + n)
unfolding first_clear
first_clear-some zero i k m h = cc
first_clear-some (suc n) i k m h = ground (arith, first_clear-some n (i + 1) k m)

pub first_clear-none :
    (n i : ℕ) (m : Bitmap) → first_clear n i m ≡ none → (j : ℕ) → i ≤ j → j < i + n → get m j ≡ true
unfolding first_clear
first_clear-none zero i m h j l u = absurd (omega (arith, l, u))
first_clear-none (suc n) i m h j l u =
    let here : get m i ≡ true = ground (arith, h) in
    let later : first_clear n (i + 1) m ≡ none = ground (arith, h) in
    elim (eq_cases i j) [
      | inl e ↦ subst (λ k. get m k ≡ true) e here
      | inr ne ↦ first_clear-none n (i + 1) m later j (omega (arith, l, ne)) (omega (arith, u))
    ]

-- The locks are free, the bytes are bytes, no null is listed, and a bit is set exactly where the
-- identifier leads to a descriptor.
pub record Inv {W : Type 0} (s : FileDescriptorManager W) : Type 0 where
  pub free : s.lock ≡ false
  pub bytes : IsBytes s.bitmap
  pub no_null : has 0 s.descriptors ≡ false
  pub agree : (i : ℕ) → get s.bitmap i ≡ not (lookup s i == 0)

module _ {W : Type 0} (d : Devices W) (memory : Memory W) where
  -- The manager after a new descriptor is enlisted.
  abbrev pub with_new : ℕ → ℕ → State W → FileDescriptorManager W → FileDescriptorManager W
  with_new a id t s = record s {
    heap = update s.heap a t.self;
    world = t.world;
    descriptors = s.descriptors ++ a ∷ [];
    bitmap = set s.bitmap id true;
    lock = false;
  }

  pub allocate_with-with_new :
      (type : FileDescriptorType) (data_ : ℕ) (mode : FileDescriptorMode) (id : ℕ)
      (s : FileDescriptorManager W) (t : State W)
      → make d type data_ mode (pos id) (memory.allocate s.world).1 ≡ ok tt t
      → t.self.init_successful ≡ true
      → allocate_with d memory type data_ mode id s
        ≡ ok (pos id) (with_new (memory.allocate s.world).0 id t s)
  unfolding allocate_with
  allocate_with-with_new type data_ mode id s t e ready = ground (arith, e, ready)
