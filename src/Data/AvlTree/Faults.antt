-- ===== src/Data/AvlTree/Faults.antt =====
-- Three cases in which `insert` and `deleteNode` leave another tree than an AVL tree would have.
use frosty_os_old.Common.{ℕ, ◌<◌, ◌≡◌, true, none, some, arith}
use frosty_os_old.Data.AvlTree.{Tree, leaf, node, insert}
use frosty_os_old.Data.AvlTree.Order.{lookup}
use frosty_os_old.Data.AvlTree.Heights.{IsBalanced, IsSized}
use frosty_os_old.Data.AvlTree.Delete.{delete_node}

abbrev pub single : ℕ → ℕ → Tree
single k x = node leaf k x 1 leaf

-- A right-left case: into the balanced tree of a key `a` with a larger key `c` on its right, a key
-- between the two is inserted. The one rotation leaves a tree that is not balanced.
insert_right_left-unbalanced :
    (a b c x y z : ℕ)
    → a < b
    → b < c
    → (u : Tree) × (insert true (node leaf a x 2 (single c y)) b z ≡ some u)
      × IsSized u
      × ¬ IsBalanced u
unfolding insert IsBalanced IsSized
insert_right_left-unbalanced a b c x y z h k = (
  node (node leaf a x 2 (single b z)) c y 3 leaf,
  ground arith,
  ground arith,
  λ q. omega (arith, q.0),
)

-- A left-left case of `deleteNode`: of four keys `a < b < c < d` in a balanced tree, where `c` is at the
-- top and `d` on its right, the deletion of `d` loses `a` and `b` too.
pub delete_node-loses_nodes :
    (a b c d x y z w : ℕ)
    → a < b
    → b < c
    → c < d
    → (u : Tree) × (delete_node (node (node (single a x) b y 2 leaf) c z 3 (single d w)) d ≡ some u)
      × (lookup u a ≡ none)
      × (lookup u b ≡ none)
unfolding delete_node lookup
delete_node-loses_nodes a b c d x y z w p q r =
    (single c z, ground arith, ground arith, ground arith)

-- A node with two children: where the top `b` of three keys `a < b < c` is deleted, the key `c` is
-- found afterwards with the extra data of `b`.
pub delete_node-mixes_data :
    (a b c x y z : ℕ)
    → a < b
    → b < c
    → (u : Tree) × (delete_node (node (single a x) b y 2 (single c z)) b ≡ some u)
      × (lookup u c ≡ some y)
unfolding delete_node lookup
delete_node-mixes_data a b c x y z p q = (node (single a x) c y 2 leaf, ground arith, ground arith)
