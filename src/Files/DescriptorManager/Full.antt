-- ===== src/Files/DescriptorManager/Full.antt =====
-- `AllocateFileDescriptor` with every bit of the table set.
use frosty_os_old.Common.{
  inr, inl, ℕ, ◌+◌, ◌*◌, ◌<◌, ◌≡◌, ◌≢◌, ◌∙◌, arith, true, none, some, Option-cases,
}
use frosty_os_old.Common.Integers.{pos}
use frosty_os_old.Common.Locking.{ok}
use frosty_os_old.Data.Bitmap.{get}
use frosty_os_old.Files.FileDescriptor.{FileDescriptorType, FileDescriptorMode, Devices}
use frosty_os_old.Files.DescriptorManager.{FileDescriptorManager, Memory, first_clear, align_up_8}
use frosty_os_old.Files.DescriptorManager.Operations.{allocate_file_descriptor}
use frosty_os_old.Files.DescriptorManager.Lookup.{
  constructs, make-Made, lookup, first_clear-some, Inv, with_new, allocate_with-with_new,
}
use frosty_os_old.Files.DescriptorManager.Table.{IsFresh, grown, allocate_full, lookup-with_new}

module _ {W : Type 0} (d : Devices W) (memory : Memory W) where
  -- Under the invariant, for a table of at least one byte that may grow, with every bit set, where
  -- `krealloc` gives memory and there is memory for one more descriptor, of a kind that the
  -- constructor makes: `AllocateFileDescriptor` answers with the size of the table in bytes, an
  -- identifier that leads to a descriptor already, and it leads to that one afterwards too.
  pub allocate_file_descriptor-in_use :
      (type : FileDescriptorType) (data_ : ℕ) (mode : FileDescriptorMode)
      (s : FileDescriptorManager W) (bytes : ℕ → ℕ) (w : W)
      → Inv s
      → 0 < s.bitmap.size
      → s.auto_expand ≡ true
      → ((i : ℕ) → i < s.bitmap.size * 8 → get s.bitmap i ≡ true)
      → memory.krealloc s.bitmap.buffer (align_up_8 (s.bitmap.size + 1)) s.world ≡ (some bytes, w)
      → IsFresh d memory (grown d memory bytes w s)
      → constructs type mode ≡ true
      → (u : FileDescriptorManager W) × (allocate_file_descriptor d memory type data_ mode s
          ≡ ok (pos s.bitmap.size) u)
        × (lookup s s.bitmap.size ≢ 0)
        × (lookup u s.bitmap.size ≡ lookup s s.bitmap.size)
  allocate_file_descriptor-in_use type data_ mode s bytes w v some_bytes grows full given (ne, out)
        c =
      let a = (memory.allocate w).0 in
      let k = s.bitmap.size in
      let (t, made, ready, named) = make-Made d type data_ mode (pos k) (memory.allocate w).1 c in
      let used : lookup s k ≢ 0 = ground (arith, v.agree k, full k (omega (arith, some_bytes))) in
      let none_clear : first_clear (k * 8) 0 s.bitmap ≡ none =
        elim (Option-cases (first_clear (k * 8) 0 s.bitmap)) [
          | inl e ↦ e
          | inr (i, e) ↦
              let (unset, _, below) = first_clear-some (k * 8) 0 i s.bitmap e in
              ground (arith, unset, full i (omega (arith, below)))
        ] in
      (
        with_new d memory a k t (grown d memory bytes w s),
        allocate_full d memory type data_ mode s bytes w v.free grows none_clear given
            ∙ allocate_with-with_new d memory type data_ mode k (grown d memory bytes w s) t made
                ready,
        used,
        ground (
          arith,
          lookup-with_new d memory a k k t (grown d memory bytes w s) ne out v.no_null named,
          used,
        ),
      )
