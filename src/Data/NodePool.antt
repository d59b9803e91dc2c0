-- ===== src/Data/NodePool.antt =====
-- The pool of nodes that kernel/src/Data-structures/AVLTree.cpp and
-- kernel/src/Data-structures/LinkedList.cpp each declare for the time before the heap: an array of 128
-- nodes and a bitmap of those in use. The two differ in the size of a node only.
pub mod Laws
use frosty_os_old.Common.{
  ℕ, zero, suc, ◌+◌, ◌*◌, ◌==◌, ltb, leb, Bool, true, false, Option, none, some, ◌&&◌,
  if◌then◌else◌, add64, sub64,
}
use frosty_os_old.Data.Bitmap.{Bitmap, get, set, empty, set_size, set_buffer, destroy}

-- `POOL_SIZE`
abbrev pub pool_size : ℕ
pool_size = 128

-- The address of the array and `sizeof(Node)` are the same at all times.
pub record Pool : Type 0 where
  pub base : ℕ
  pub node_size : ℕ
  pub used_count : ℕ
  pub bitmap : Bitmap
  pub has_been_initialised : Bool

-- `&(nodePool[i])`
abbrev pub node_at : Pool → ℕ → ℕ
node_at p i = p.base + i * p.node_size

-- `memset(nodePool_BitmapData, 0, POOL_SIZE / 8)`, in the memory from the array onward.
abbrev pub cleared : (ℕ → ℕ) → ℕ → ℕ
cleared memory i = if ltb i 16 then 0 else memory i

unfoldable pub init : Pool → (ℕ → ℕ) → Pool
unfolding set_size set_buffer
init p memory = record p {
  used_count = 0;
  bitmap = set_buffer (set_size p.bitmap pool_size) (cleared memory);
  has_been_initialised = true;
}

unfoldable pub tear_down : Pool → Pool
unfolding destroy
tear_down p = record p { bitmap = destroy p.bitmap; has_been_initialised = false }

-- The loop of `NodePool_AllocateNode`: the rounds left, and `i`.
unfoldable pub first_clear : Bitmap → ℕ → ℕ → Option ℕ
first_clear m zero i = none
first_clear m (suc rounds) i = if get m i then first_clear m rounds (i + 1) else some i

-- The node, 0 for null, and the pool afterwards.
unfoldable pub allocate_node : Pool → ℕ × Pool
unfolding first_clear
allocate_node p =
    let found : ℕ × Pool = elim (first_clear p.bitmap pool_size 0) [
      | none ↦ (0, p)
      | some i ↦ (
        node_at p i,
        record p { bitmap = set p.bitmap i true; used_count = add64 p.used_count 1 },
      )
    ] in
    if p.used_count == 127 then (0, p) else found

-- The loop of `NodePool_FreeNode`: the rounds left, and `i`.
unfoldable pub index_of : Pool → ℕ → ℕ → ℕ → Option ℕ
index_of p node zero i = none
index_of p node (suc rounds) i =
    if node == node_at p i then some i else index_of p node rounds (i + 1)

unfoldable pub free_node : Pool → ℕ → Bool × Pool
unfolding index_of
free_node p node = elim (index_of p node pool_size 0) [
  | none ↦ (false, p)
  | some i ↦ (true, record p { bitmap = set p.bitmap i false; used_count = sub64 p.used_count 1 })
]

unfoldable pub is_in_pool : Pool → ℕ → Bool
is_in_pool p obj = leb p.base obj && ltb obj (add64 p.base (pool_size * p.node_size))
