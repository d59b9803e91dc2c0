-- ===== src/Tests/Pools.antt =====
-- The pool of nodes of 40 bytes each at an address.
use frosty_os_old.Common.{◌≡◌, true, false, arith, refl, count_true, test_bit, write_bit}
use frosty_os_old.Data.Bitmap.{get, set, empty}
use frosty_os_old.Data.NodePool.{Pool, init, allocate_node}
use frosty_os_old.Data.NodePool.Laws.{IsPool, TakesNode, init-IsPool, allocate_node-TakesNode}

abbrev blank : Pool
blank = record {
  base = 65536;
  node_size = 40;
  used_count = 0;
  bitmap = empty (λ i. 0);
  has_been_initialised = false;
}

unfoldable fresh : Pool
unfolding init
fresh = init blank (λ i. 0)

fresh-IsPool : IsPool fresh
unfolding fresh
fresh-IsPool =
    let (v, clear) =
      init-IsPool blank (λ i. 0) (λ i. omega arith) (omega arith) (omega arith) (omega arith) in
    v

allocate_node-TakesNode_example : TakesNode fresh
allocate_node-TakesNode_example = allocate_node-TakesNode fresh fresh-IsPool

first_node : (allocate_node fresh).0 ≡ 65536
unfolding fresh allocate_node get test_bit
first_node = refl

-- The pool with its first node in use.
unfoldable one_used : Pool
unfolding fresh set write_bit
one_used = record fresh { used_count = 1; bitmap = set fresh.bitmap 0 true }

one_used-IsPool : IsPool one_used
unfolding one_used init set get count_true test_bit write_bit
one_used-IsPool = record {
  bytes = λ i. ground arith;
  is_sized = refl;
  counted = refl;
  has_room = omega arith;
  node_size_pos = omega arith;
  base_pos = omega arith;
  in_memory = omega arith;
}

node_0_used : get one_used.bitmap 0 ≡ true
unfolding one_used get test_bit
node_0_used = refl

node_1_free : get one_used.bitmap 1 ≡ false
unfolding one_used get test_bit
node_1_free = refl

one_used_base : one_used.base ≡ 65536
unfolding one_used
one_used_base = refl
