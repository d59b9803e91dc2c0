-- ===== src/Tests/Trees.antt =====
-- kernel/src/Data-structures/AVLTree.cpp on trees of a few keys.
use frosty_os_old.Common.{ℕ, ◌≤◌, ◌≡◌, ◌+◌, true, none, some, if◌then◌else◌, ◌==◌, arith}
use frosty_os_old.Data.AvlTree.{Tree, leaf, node, insert, height, find_node, find_node_or_higher}
use frosty_os_old.Data.AvlTree.Order.{IsOrdered, lookup}
use frosty_os_old.Data.AvlTree.Insert.{entered}
use frosty_os_old.Data.AvlTree.Heights.{IsSized, IsBalanced}
use frosty_os_old.Data.AvlTree.Total.{insert_correct}
use frosty_os_old.Data.AvlTree.Find.{
  entry, keyed, IsHigher, entry-find_node, find_node_or_higher-IsHigher,
}
use frosty_os_old.Data.AvlTree.Delete.{delete_node}
use frosty_os_old.Data.AvlTree.Remove.{Removes, delete_node-Removes}
use frosty_os_old.Data.AvlTree.Faults.{single, delete_node-loses_nodes, delete_node-mixes_data}

-- The keys 1, 2, 3.
abbrev three_keys : Tree
three_keys = node (single 1 10) 2 20 2 (single 3 30)

three_keys-IsOrdered : IsOrdered three_keys
three_keys-IsOrdered = ground arith

three_keys-IsSized : IsSized three_keys
unfolding IsSized height
three_keys-IsSized = ground arith

three_keys-IsBalanced : IsBalanced three_keys
unfolding IsBalanced height
three_keys-IsBalanced = ground arith

insert_correct_example :
    (u : Tree) × (insert true three_keys 4 40 ≡ some u)
    × IsOrdered u
    × IsSized u
    × (height u ≤ height three_keys + 1)
    × ((p : ℕ)
        → lookup u p
          ≡ (if p == 4 then entered true (lookup three_keys 4) 40 else lookup three_keys p))
insert_correct_example =
    insert_correct three_keys 4 40 three_keys-IsOrdered three_keys-IsSized three_keys-IsBalanced

delete_node-Removes_example : Removes three_keys 2 (delete_node three_keys 2)
delete_node-Removes_example = delete_node-Removes three_keys 2 three_keys-IsSized

entry-find_node_example : entry (find_node three_keys 3) ≡ keyed 3 (lookup three_keys 3)
entry-find_node_example = entry-find_node three_keys 3

find_node_or_higher-IsHigher_example : IsHigher three_keys 3 (find_node_or_higher three_keys 3)
find_node_or_higher-IsHigher_example =
    find_node_or_higher-IsHigher three_keys 3 three_keys-IsOrdered

delete_node-loses_nodes_example :
    (u : Tree) × (delete_node (node (node (single 1 10) 2 20 2 leaf) 3 30 3 (single 4 40)) 4
      ≡ some u)
    × (lookup u 1 ≡ none)
    × (lookup u 2 ≡ none)
delete_node-loses_nodes_example =
    delete_node-loses_nodes 1 2 3 4 10 20 30 40 (omega arith) (omega arith) (omega arith)

delete_node-mixes_data_example :
    (u : Tree) × (delete_node three_keys 2 ≡ some u) × (lookup u 3 ≡ some 20)
delete_node-mixes_data_example = delete_node-mixes_data 1 2 3 10 20 30 (omega arith) (omega arith)
