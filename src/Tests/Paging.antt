-- ===== src/Tests/Paging.antt =====
-- kernel/src/arch/x86_64/Memory/PageMapIndexer.cpp, tried on small tables.
use frosty_os_old.Memory.PageTable.Start.{make-keeps}
use frosty_os_old.Memory.PageTables
use frosty_os_old.Memory.PageTables.Direct.{get_physaddr-to_hhdm}
use frosty_os_old.Memory.PageTable.Laws.{
  Keeps, sent, map_page-get_physical_address, unmap_page-get_physical_address,
  remap_page-get_physical_address,
}
use frosty_os_old.Memory.PageTable.{
  make, Permissions, PageTable, Space, get_physical_address, map_page, remap_page, unmap_page,
}
use frosty_os_old.Common.{
  ◌<◌, ◌∙◌, sym, ◌%◌, ◌≢◌, ◌/◌, ◌^◌, Option, ◌||◌, ◌&&◌, ℕ, suc, ◌+◌, ◌-◌, ◌*◌, ◌==◌, ◌≤◌, ◌≡◌,
  true, false, if◌then◌else◌, List, [], ◌∷◌, some, none, refl, arith, inl,
}
use frosty_os_old.Memory.PageTables.{
  pml4_index, to_hhdm, Layout, get_physaddr, pt_index, walk, flag, Entry, Memory, Frames, Paging,
  present, reach, zero_entry,
}
use frosty_os_old.Memory.PageTables.LargeLaws.{map_large_page-walk, large_page_of}
use frosty_os_old.Memory.PageTables.Large.{map_large_page}
use frosty_os_old.Memory.PageTables.MapLaws.{map_page-large, IsLargePage}
use frosty_os_old.Memory.PageTables.Walk.{page_of, lookup, is_leaf}
use frosty_os_old.Memory.PageTables.Shape.{FrameLaws, TakesFrame, Role, Shape}
use frosty_os_old.Memory.PageTables.Drop.{FreeLaws}

-- Frames handed out one after another from the second on, and never again.
abbrev counting : Frames ℕ
counting = record { allocate_page = λ a. some ((a + 2) * 4096, suc a); free_page = λ n a. some a }

counting_seen : (a : ℕ) → 1 ≤ 1000 - a → reach (a + 2) ≡ some (a + 2)
unfolding reach
counting_seen a h = ground arith

counting_at : (a : ℕ) → a + 2 ≤ a + 2
counting_at a = omega arith

counting_free_one : (a f : ℕ) → suc a + 2 ≤ f → a + 2 ≤ f
counting_free_one a f e = omega arith

counting_gone : (a : ℕ) → ¬ suc a + 2 ≤ a + 2
counting_gone a e = ground arith

counting_less : (a : ℕ) → 1000 - a ≤ suc (1000 - suc a)
counting_less a = omega arith

abbrev counted : (a : ℕ) → 1 ≤ 1000 - a → TakesFrame counting (λ a f. a + 2 ≤ f) a
counted a h = record {
  frame = a + 2;
  rest = suc a;
  gives = refl;
  seen = counting_seen a h;
  was_free = counting_at a;
  gone = counting_gone a;
  others = counting_free_one a;
}

abbrev counting_laws : FrameLaws counting
counting_laws = record {
  Free = λ a f. a + 2 ≤ f;
  spare = λ a. 1000 - a;
  take_frame = counted;
  one_less = λ a h. counting_less a;
}

abbrev counting_free : FreeLaws counting (λ a f. a + 2 ≤ f)
counting_free = record { give = λ n a. a; gives = λ n a. refl; only = λ n a f e. inl e }

-- No entry of the table in frame 1 is present.
abbrev empty_tables : Paging ℕ
empty_tables = record { tables = λ f i. zero_entry; frames = 0 }

abbrev empty_role : Role
empty_role f = if f == 1 then some [] else none

empty_tables-Shape : Shape (λ a f. a + 2 ≤ f) 1 empty_role empty_tables
unfolding reach
empty_tables-Shape = record {
  rooted = refl;
  closed = λ f i path r p l. cc;
  within = λ f path r. ground (arith, r);
  used = λ f path r e. ground (arith, r, e);
}

-- The tables of frames 1 to 4 lead the first page to the frame 9 by one entry each, and the second 2 MiB
-- to a large page.
abbrev entry_to : ℕ → Entry
entry_to n = record { bit = λ k. k == 0; address = n }

abbrev large_entry : Entry
large_entry = record { bit = λ k. k == 0 || k == 7; address = 1024 }

abbrev first_entries : ℕ → Entry
first_entries f =
    if f == 1
    then entry_to 2
    else if f == 2
    then entry_to 3
    else if f == 3
    then entry_to 4
    else if f == 4
    then entry_to 9
    else zero_entry

abbrev four_tables : Memory
four_tables f i =
    if i == 0 then first_entries f else if i == 1 && f == 3 then large_entry else zero_entry

abbrev chain : Paging ℕ
chain = record { tables = four_tables; frames = 8 }

abbrev chain_role : Role
chain_role f =
    if f == 1
    then some []
    else if f == 2
    then some (0 ∷ [])
    else if f == 3
    then some (0 ∷ 0 ∷ [])
    else if f == 4
    then some (0 ∷ 0 ∷ 0 ∷ [])
    else none

chain-closed :
    (f i : ℕ) (path : List ℕ)
    → chain_role f ≡ some path
    → present (four_tables f i) ≡ true
    → is_leaf path (four_tables f i) ≡ false
    → chain_role (four_tables f i).address ≡ some (i ∷ path)
unfolding is_leaf
chain-closed f i path r p l = ground (arith, r, p, l)

chain-Shape : Shape (λ a f. a + 2 ≤ f) 1 chain_role chain
unfolding reach
chain-Shape = record {
  rooted = refl;
  closed = chain-closed;
  within = λ f path r. ground (arith, r);
  used = λ f path r e. ground (arith, r, e);
}

no_large :
    (v : ℕ) (x : Option (ℕ × List ℕ))
    → lookup four_tables [] 1 (page_of v) ≡ some x
    → ((a : ℕ) → x ≢ some (a, pt_index v ∷ []))
    → (a : ℕ) → ¬ IsLargePage four_tables 1 v a
no_large v x e ne a l = ne a (let both = sym e ∙ l in cc)

map_page-large_example :
    (t : Paging ℕ) × (PageTables.map_page counting 1 28672 2101248 3 chain ≡ some t)
    × ((w : ℕ) → walk t.tables 1 w ≡ walk four_tables 1 w)
unfolding flag lookup is_leaf reach
map_page-large_example =
    map_page-large counting counting_laws 1 3 28672 2101248 chain_role chain 1024 chain-Shape refl
      (omega arith) refl

map_large_page-walk_example :
    (t : Paging ℕ) × (map_large_page counting 1 6291456 4198405 3 chain ≡ some t)
    × (walk t.tables 1 4198405 ≡ some (6291456 / 2 ^ 21 % 2 ^ 31 * 2 ^ 21 + 4198405 % 2 ^ 21))
    × ((w : ℕ) → large_page_of 4198405 ≢ large_page_of w → walk t.tables 1 w ≡ walk four_tables 1 w)
    × (r : Role) × Shape (λ a f. a + 2 ≤ f) 1 r t
unfolding flag
map_large_page-walk_example =
    map_large_page-walk counting counting_laws 1 3 6291456 4198405 chain_role chain chain-Shape refl
      refl (omega arith)

abbrev layout : Layout
layout = record {
  kernel_virtual = 2 ^ 63;
  kernel_physical = 2 ^ 20;
  kernel_length = 2 ^ 20;
  hhdm_start = 2 ^ 47;
}

abbrev user_table : PageTable
user_table = record { mode = true; root = 1 }

abbrev space : Space ℕ
space = record { paging = chain; shootdowns = [] }

get_physaddr-to_hhdm_example :
    get_physaddr layout four_tables 1 (to_hhdm (2 ^ 47) 753664) ≡ some 753664
get_physaddr-to_hhdm_example =
    get_physaddr-to_hhdm layout four_tables 1 753664 (omega arith) (omega arith) (omega arith)
      (omega arith) (inl (omega arith))

map_page-get_physical_address_example :
    (after : Space ℕ) × (map_page counting user_table 28672 4198405 Permissions.write true space
      ≡ some after)
    × (get_physical_address layout user_table 4198405 after
        ≡ some (28672 / 4096 % 2 ^ 40 * 4096 + 4198405 % 4096))
    × Keeps layout user_table (λ w. page_of 4198405 ≢ page_of w) space after
    × (after.shootdowns ≡ sent true 4198405 space)
    × (r : Role) × Shape (λ a f. a + 2 ≤ f) 1 r after.paging
unfolding lookup is_leaf reach
map_page-get_physical_address_example =
    map_page-get_physical_address counting counting_laws layout user_table chain_role space
      chain-Shape 4198405 (refl, refl) (no_large 4198405 none refl (λ a e. cc)) 28672
      Permissions.write true (λ e. cc) (omega arith)

unmap_page-get_physical_address_example :
    (after : Space ℕ) × (unmap_page counting (2 ^ 47) user_table 123 false space ≡ some after)
    × (get_physical_address layout user_table 123 after ≡ some 0)
    × Keeps layout user_table (λ w. page_of 123 ≢ page_of w) space after
    × (after.shootdowns ≡ sent false 123 space)
    × Shape (λ a f. a + 2 ≤ f) 1 chain_role after.paging
unfolding lookup is_leaf reach
unmap_page-get_physical_address_example =
    unmap_page-get_physical_address counting counting_laws layout user_table chain_role space
      chain-Shape 123 (refl, refl) (no_large 123 (some (9, [])) refl (λ a e. cc)) counting_free
      (2 ^ 47) false (omega arith) (omega arith)

remap_page-get_physical_address_example :
    (after : Space ℕ) × (remap_page user_table 123 Permissions.read true space ≡ some after)
    × Keeps layout user_table (λ w. Unit {0}) space after
    × (after.shootdowns ≡ sent true 123 space)
    × Shape (λ a f. a + 2 ≤ f) 1 chain_role after.paging
unfolding lookup is_leaf reach
remap_page-get_physical_address_example =
    remap_page-get_physical_address (λ a f. a + 2 ≤ f) layout user_table chain_role space
      chain-Shape 123 Permissions.read true (9, []) (λ e. cc) refl

-- In the frame 2, which is taken for the root, the entry 100 is present.
abbrev used_frame : Paging ℕ
used_frame = record {
  tables = λ f i. if f == 2 && i == 100 then entry_to 77 else zero_entry;
  frames = 0;
}

make-keeps_example :
    (t : PageTable) × (after : Paging ℕ) × (make counting (2 ^ 47) 1 true true used_frame
      ≡ some (t, after))
    × (t.root ≡ 2)
    × ((i : ℕ)
        → 64 ≤ i
        → i < 511
        → i ≢ pml4_index (2 ^ 47)
        → after.tables 2 i ≡ used_frame.tables 2 i)
unfolding reach
make-keeps_example = make-keeps counting (2 ^ 47) 1 2 1 used_frame refl refl
