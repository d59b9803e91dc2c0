-- ===== src/Tests/Tables.antt =====
-- Tables of descriptors of one byte, empty and full.
use frosty_os_old.Common.{
  ◌≤◌, zero, ◌∙◌, ℕ, suc, ◌-◌, ◌==◌, ◌≡◌, ◌≢◌, ◌<◌, refl, arith, true, false, not, some, List, [],
  ◌∷◌, test_bit,
}
use frosty_os_old.Common.Integers.{pos}
use frosty_os_old.Common.Locking.{ok}
use frosty_os_old.Data.Bitmap.{get}
use frosty_os_old.Data.Bitmap.Laws.{get_out}
use frosty_os_old.Files.FileDescriptor.{tty, write, empty}
use frosty_os_old.Files.DescriptorManager.{FileDescriptorManager, Memory, find_id, same_id}
use frosty_os_old.Files.DescriptorManager.Operations.{allocate_file_descriptor}
use frosty_os_old.Files.DescriptorManager.Lookup.{lookup, Inv}
use frosty_os_old.Files.DescriptorManager.Table.{allocate_file_descriptor-lookup}
use frosty_os_old.Files.DescriptorManager.Full.{allocate_file_descriptor-in_use}
use frosty_os_old.Tests.Descriptors.{plain_devices}

abbrev plain_memory : Memory (List ℕ)
plain_memory = record {
  allocate = λ w. (4096, w);
  release = λ a w. w;
  krealloc = λ bytes n w. (some bytes, w);
}

abbrev empty_table : FileDescriptorManager (List ℕ)
empty_table = record {
  auto_expand = false;
  descriptors = [];
  bitmap = record { size = 1; buffer = λ i. 0 };
  lock = false;
  heap = λ a. empty;
  world = [];
}

by_8 :
    (P : ℕ → Type 0)
    → P 0
    → P 1
    → P 2
    → P 3
    → P 4
    → P 5
    → P 6
    → P 7
    → ((n : ℕ) → 8 ≤ n → P n)
    → (i : ℕ) → P i
by_8 P p0 p1 p2 p3 p4 p5 p6 p7 rest zero = p0
by_8 P p0 p1 p2 p3 p4 p5 p6 p7 rest (suc zero) = p1
by_8 P p0 p1 p2 p3 p4 p5 p6 p7 rest (suc (suc zero)) = p2
by_8 P p0 p1 p2 p3 p4 p5 p6 p7 rest (suc (suc (suc zero))) = p3
by_8 P p0 p1 p2 p3 p4 p5 p6 p7 rest (suc (suc (suc (suc zero)))) = p4
by_8 P p0 p1 p2 p3 p4 p5 p6 p7 rest (suc (suc (suc (suc (suc zero))))) = p5
by_8 P p0 p1 p2 p3 p4 p5 p6 p7 rest (suc (suc (suc (suc (suc (suc zero)))))) = p6
by_8 P p0 p1 p2 p3 p4 p5 p6 p7 rest (suc (suc (suc (suc (suc (suc (suc zero))))))) = p7
by_8 P p0 p1 p2 p3 p4 p5 p6 p7 rest (suc (suc (suc (suc (suc (suc (suc (suc n)))))))) =
    rest _ (omega arith)

empty_table-Inv : Inv empty_table
unfolding find_id get test_bit
empty_table-Inv = record {
  free = refl;
  bytes = λ i. omega arith;
  no_null = refl;
  agree =
      by_8 (λ i. get empty_table.bitmap i ≡ not (lookup empty_table i == 0)) refl refl refl refl
        refl refl refl refl (λ n h. get_out empty_table.bitmap n (omega (arith, h)));
}

allocate_file_descriptor-lookup_example :
    (k : ℕ) × (u : FileDescriptorManager (List ℕ)) × (allocate_file_descriptor plain_devices
        plain_memory tty 64 write empty_table
      ≡ ok (pos k) u)
    × (lookup empty_table k ≡ 0)
    × (lookup u k ≡ 4096)
    × ((j : ℕ) → j ≢ k → lookup u j ≡ lookup empty_table j)
    × Inv u
unfolding get test_bit
allocate_file_descriptor-lookup_example =
    allocate_file_descriptor-lookup plain_devices plain_memory tty 64 write empty_table 3
      empty_table-Inv (omega arith, refl) refl (omega arith) refl

-- The descriptor at 64 + i has the identifier i, for eight of them.
abbrev full_table : FileDescriptorManager (List ℕ)
full_table = record {
  auto_expand = true;
  descriptors = 64 ∷ 65 ∷ 66 ∷ 67 ∷ 68 ∷ 69 ∷ 70 ∷ 71 ∷ [];
  bitmap = record { size = 1; buffer = λ i. 255 };
  lock = false;
  heap = λ a. record empty { id = pos (a - 64) };
  world = [];
}

full_table-set : (i : ℕ) → i < 8 → get full_table.bitmap i ≡ true
unfolding get test_bit
full_table-set =
    by_8 (λ i. i < 8 → get full_table.bitmap i ≡ true) (λ h. refl) (λ h. refl) (λ h. refl)
      (λ h. refl) (λ h. refl) (λ h. refl) (λ h. refl) (λ h. refl)
      (λ n l h. absurd (omega (arith, l, h)))

full_table-agrees : (i : ℕ) → get full_table.bitmap i ≡ not (lookup full_table i == 0)
unfolding get test_bit find_id same_id
full_table-agrees =
    by_8 (λ i. get full_table.bitmap i ≡ not (lookup full_table i == 0)) refl refl refl refl refl
      refl refl refl (λ n h. get_out full_table.bitmap n (omega (arith, h)) ∙ ground (arith, h))

full_table-Inv : Inv full_table
full_table-Inv = record {
  free = refl;
  bytes = λ i. omega arith;
  no_null = refl;
  agree = full_table-agrees;
}

-- The ninth descriptor gets the identifier 1, which the second one has.
allocate_file_descriptor-in_use_example :
    (u : FileDescriptorManager (List ℕ)) × (allocate_file_descriptor plain_devices plain_memory tty
        64 write full_table
      ≡ ok (pos 1) u)
    × (lookup full_table 1 ≢ 0)
    × (lookup u 1 ≡ lookup full_table 1)
allocate_file_descriptor-in_use_example =
    allocate_file_descriptor-in_use plain_devices plain_memory tty 64 write full_table (λ i. 255) []
      full_table-Inv (omega arith) refl full_table-set refl (omega arith, refl) refl
