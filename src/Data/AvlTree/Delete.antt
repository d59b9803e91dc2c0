-- ===== src/Data/AvlTree/Delete.antt =====
-- `minValueNode`, `deleteNode` and `getParent`. `deleteNode` calls the rotations for their effect on the
-- node and drops the node that they return.
use frosty_os_old.Common.{ℕ, ltb, not, ◌==◌, Bool, ◌&&◌, Option, none, some, if◌then◌else◌}
use frosty_os_old.Common.Partial.{◌>>=◌}
use frosty_os_old.Data.AvlTree.{
  Tree, leaf, node, sized, right_rotate, left_rotate, is_left_heavy, is_right_heavy, leans_left,
  leans_right,
}

-- `minValueNode(root)->key`
unfoldable pub min_key : Tree → Option ℕ
min_key leaf = none
min_key (node leaf k x h r) = some k
min_key (node (node ll lk lx lh lr) k x h r) = min_key (node ll lk lx lh lr)

-- `rightRotate(root);` and `leftRotate(root);` as statements.
unfoldable pub call_right : Tree → Option Tree
unfolding right_rotate
call_right t = do r ← right_rotate t; some r.argument

unfoldable pub call_left : Tree → Option Tree
unfolding left_rotate
call_left t = do r ← left_rotate t; some r.argument

-- `leftRotate(root->left); rightRotate(root);`, and the mirror image.
unfoldable pub call_left_right : Tree → Option Tree
unfolding call_left call_right
call_left_right leaf = none
call_left_right (node l k x h r) = do l' ← call_left l; call_right (node l' k x h r)

unfoldable pub call_right_left : Tree → Option Tree
unfolding call_left call_right
call_right_left leaf = none
call_right_left (node l k x h r) = do r' ← call_right r; call_left (node l k x h r')

unfoldable pub left_of : Tree → Tree
left_of leaf = leaf
left_of (node l k x h r) = l

unfoldable pub right_of : Tree → Tree
right_of leaf = leaf
right_of (node l k x h r) = r

-- One of the four `if` statements: a test of the children as they are now, and the statement.
unfoldable pub step_if : Bool → (Tree → Option Tree) → Tree → Option Tree
step_if b f t = if b then f t else some t

-- The four statements in their order. The balance of the root is taken once, before them; those of
-- the children are taken in each test.
unfoldable pub rebalance_delete : Tree → Option Tree
unfolding step_if is_left_heavy is_right_heavy leans_left leans_right left_of right_of call_right
    call_left call_left_right call_right_left
rebalance_delete t = do
  t1 ← step_if (is_left_heavy t && leans_left (left_of t)) call_right t
  t2 ← step_if (is_left_heavy t && not (leans_left (left_of t1))) call_left_right t1
  t3 ← step_if (is_right_heavy t && leans_right (right_of t2)) call_left t2
  step_if (is_right_heavy t && not (leans_right (right_of t3))) call_right_left t3

-- The part after the removal: nothing for null, else the new height and the rebalancing.
unfoldable pub finish_delete : Tree → Option Tree
unfolding sized rebalance_delete
finish_delete leaf = some leaf
finish_delete (node l k x h r) = rebalance_delete (sized l k x r)

-- The removal of the top: with two children the key of the least node on the right moves up, and
-- its extra data does not. `rest` is the right child without that key.
unfoldable pub remove_top : Tree → ℕ → ℕ → Tree → (ℕ → Option Tree) → Option Tree
unfolding min_key
remove_top leaf x h r rest = some r
remove_top l x h leaf rest = some l
remove_top (node ll lk lx lh lr) x h (node rl rk rx rh rr) rest = do
  m ← min_key (node rl rk rx rh rr)
  r' ← rest m
  some (node (node ll lk lx lh lr) m x h r')

unfoldable pub delete_node : Tree → ℕ → Option Tree
unfolding finish_delete remove_top
delete_node leaf key = some leaf
delete_node (node l k x h r) key =
    let left = (do l' ← delete_node l key; finish_delete (node l' k x h r)) in
    let right = (do r' ← delete_node r key; finish_delete (node l k x h r')) in
    let top = (do t ← remove_top l x h r (λ m. delete_node r m); finish_delete t) in
    if ltb key k then left else if ltb k key then right else top

unfoldable pub get_parent : Tree → ℕ → Tree
get_parent leaf key = leaf
get_parent (node (node ll lk lx lh lr) k x h (node rl rk rx rh rr)) key =
    let low = get_parent (node ll lk lx lh lr) key in
    let high = get_parent (node rl rk rx rh rr) key in
    if lk == key
    then node (node ll lk lx lh lr) k x h (node rl rk rx rh rr)
    else if rk == key
    then node (node ll lk lx lh lr) k x h (node rl rk rx rh rr)
    else if ltb k key
    then high
    else if ltb key k
    then low
    else leaf
get_parent _ key = leaf
