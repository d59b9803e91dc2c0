-- ===== src/Files/DescriptorManager/Table.antt =====
-- Identifiers that `AllocateFileDescriptor` hands out.
use frosty_os_old.Common.{
  ◌/◌, ◌-◌, inr, inl, ℕ, ◌+◌, ◌*◌, ◌==◌, ◌<◌, ◌≡◌, ◌≢◌, refl, ◌∙◌, arith, true, false,
  if◌then◌else◌, none, some, [], ◌∷◌, has, has-append, Option-cases,
}
use frosty_os_old.Common.Integers.{pos}
use frosty_os_old.Common.Locking.{ok}
use frosty_os_old.Data.Bitmap.{get}
use frosty_os_old.Data.Bitmap.Laws.{set-IsBytes, get-set_at}
use frosty_os_old.Files.FileDescriptor.{FileDescriptorType, FileDescriptorMode, Devices, State}
use frosty_os_old.Files.DescriptorManager.{
  zero_words, FileDescriptorManager, Memory, first_clear, align_up_8,
}
use frosty_os_old.Files.DescriptorManager.Operations.{allocate_with, allocate_file_descriptor}
use frosty_os_old.Files.DescriptorManager.Lookup.{
  constructs, make-Made, lookup, find_id-append, first_clear-some, first_clear-none, Inv, with_new,
  allocate_with-with_new,
}

module _ {W : Type 0} (d : Devices W) (memory : Memory W) where
  -- The memory for the new descriptor is neither null nor that of a listed one.
  abbrev pub IsFresh : FileDescriptorManager W → Type 0
  IsFresh s =
      ((memory.allocate s.world).0 ≢ 0) × (has (memory.allocate s.world).0 s.descriptors ≡ false)

  pub lookup-with_new :
      (a k i : ℕ) (t : State W) (s : FileDescriptorManager W)
      → a ≢ 0
      → has a s.descriptors ≡ false
      → has 0 s.descriptors ≡ false
      → t.self.id ≡ pos k
      → lookup (with_new d memory a k t s) i
        ≡ (if lookup s i == 0 then (if k == i then a else 0) else lookup s i)
  lookup-with_new a k i t s ne out null e =
      find_id-append k i a t.self s.heap s.descriptors ne out null e

  with_new-Inv :
      (a k : ℕ) (t : State W) (s : FileDescriptorManager W)
      → Inv s
      → a ≢ 0
      → has a s.descriptors ≡ false
      → t.self.id ≡ pos k
      → k < s.bitmap.size * 8
      → Inv (with_new d memory a k t s)
  with_new-Inv a k t s v ne out e room = record {
    free = refl;
    bytes = set-IsBytes s.bitmap k true v.bytes;
    no_null = has-append 0 s.descriptors (a ∷ []) ∙ ground (arith, v.no_null, ne);
    agree = λ i. ground (
      arith,
      get-set_at s.bitmap k i true v.bytes room,
      v.agree i,
      lookup-with_new a k i t s ne out v.no_null e,
      ne,
    );
  }

  allocate_clear :
      (type : FileDescriptorType) (data_ : ℕ) (mode : FileDescriptorMode)
      (s : FileDescriptorManager W) (k : ℕ)
      → s.lock ≡ false
      → first_clear (s.bitmap.size * 8) 0 s.bitmap ≡ some k
      → allocate_file_descriptor d memory type data_ mode s
        ≡ allocate_with d memory type data_ mode k (record s { lock = true })
  unfolding allocate_file_descriptor
  allocate_clear type data_ mode s k free e = ground (arith, free, e)

  -- Under the invariant, with memory for one more descriptor, for a kind of descriptor that the
  -- constructor makes: where a bit of the table is clear, `AllocateFileDescriptor` answers with
  -- an identifier that led to no descriptor; that identifier leads to the new descriptor then, every
  -- other one leads where it led before, and the invariant holds again.
  pub allocate_file_descriptor-lookup :
      (type : FileDescriptorType) (data_ : ℕ) (mode : FileDescriptorMode)
      (s : FileDescriptorManager W) (i : ℕ)
      → Inv s
      → IsFresh s
      → constructs type mode ≡ true
      → i < s.bitmap.size * 8
      → get s.bitmap i ≡ false
      → (k : ℕ) × (u : FileDescriptorManager W) × (allocate_file_descriptor d memory type data_ mode
            s
          ≡ ok (pos k) u)
        × (lookup s k ≡ 0)
        × (lookup u k ≡ (memory.allocate s.world).0)
        × ((j : ℕ) → j ≢ k → lookup u j ≡ lookup s j)
        × Inv u
  allocate_file_descriptor-lookup type data_ mode s i v (ne, out) c room clear =
      let a = (memory.allocate s.world).0 in
      elim (Option-cases (first_clear (s.bitmap.size * 8) 0 s.bitmap)) [
        | inl e ↦ ground (
          arith,
          clear,
          first_clear-none (s.bitmap.size * 8) 0 s.bitmap e i (omega arith) (omega (arith, room)),
        )
        | inr (k, e) ↦
            let (unset, _, below) = first_clear-some (s.bitmap.size * 8) 0 k s.bitmap e in
            let (t, made, ready, named) =
              make-Made d type data_ mode (pos k) (memory.allocate s.world).1 c in
            let before : lookup s k ≡ 0 = ground (arith, v.agree k, unset) in
            (
              k,
              with_new d memory a k t s,
              allocate_clear type data_ mode s k v.free e
                  ∙ allocate_with-with_new d memory type data_ mode k (record s { lock = true }) t
                      made ready,
              before,
              ground (arith, lookup-with_new a k k t s ne out v.no_null named, before),
              λ j other. ground (arith, lookup-with_new a k j t s ne out v.no_null named, other),
              with_new-Inv a k t s v ne out named (omega (arith, below)),
            )
      ]

  -- The manager after `krealloc` has given the bytes of a larger table.
  abbrev pub grown : (ℕ → ℕ) → W → FileDescriptorManager W → FileDescriptorManager W
  grown bytes w s = record s {
    bitmap = record {
      size = align_up_8 (s.bitmap.size + 1);
      buffer =
          zero_words s.bitmap.size ((align_up_8 (s.bitmap.size + 1) - s.bitmap.size) / 8) bytes;
    };
    world = w;
    lock = true;
  }

  pub allocate_full :
      (type : FileDescriptorType) (data_ : ℕ) (mode : FileDescriptorMode)
      (s : FileDescriptorManager W) (bytes : ℕ → ℕ) (w : W)
      → s.lock ≡ false
      → s.auto_expand ≡ true
      → first_clear (s.bitmap.size * 8) 0 s.bitmap ≡ none
      → memory.krealloc s.bitmap.buffer (align_up_8 (s.bitmap.size + 1)) s.world ≡ (some bytes, w)
      → allocate_file_descriptor d memory type data_ mode s
        ≡ allocate_with d memory type data_ mode s.bitmap.size (grown bytes w s)
  unfolding allocate_file_descriptor
  allocate_full type data_ mode s bytes w free grows e alloc = ground (arith, free, grows, e, alloc)
