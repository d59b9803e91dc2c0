-- ===== src/Data/AvlTree.antt =====
-- kernel/src/Data-structures/AVLTree.cpp. Each node is owned by the pointer that leads to it, so a
-- `Node*` is the tree below it and null is `leaf`. A dereference of null is `none`. Heights are
-- below 2 ^ 63, so that their difference as an `int64_t` is exact: it is read here by comparisons.
pub mod Order
pub mod Insert
pub mod Heights
pub mod Total
pub mod Find
pub mod Delete
pub mod DeleteLaws
pub mod Remove
pub mod Faults
use frosty_os_old.Common.{
  ℕ, suc, ◌+◌, max, ltb, leb, ◌==◌, Bool, true, false, Option, none, some, if◌then◌else◌,
}
use frosty_os_old.Common.Partial.{◌>>=◌}

-- left, key, extraData, height, right
pub data Tree : Type 0 where
  leaf : Tree
  node : Tree → ℕ → ℕ → ℕ → Tree → Tree

unfoldable pub height : Tree → ℕ
height leaf = 0
height (node l k x h r) = h

-- `ulmax(height(left), height(right)) + 1`, written into a node.
unfoldable pub sized : Tree → ℕ → ℕ → Tree → Tree
unfolding height
sized l k x r = node l k x (suc (max (height l) (height r))) r

-- `root->key`
unfoldable pub top_key : Tree → Option ℕ
top_key leaf = none
top_key (node l k x h r) = some k

-- What a rotation returns, and what becomes of the node that it was called on, which stays where the
-- caller's pointer leads unless the caller writes the result back.
pub record Rotated : Type 0 where
  pub result : Tree
  pub argument : Tree

unfoldable pub right_rotate : Tree → Option Rotated
unfolding sized
right_rotate leaf = none
right_rotate (node leaf k x h r) = none
right_rotate (node (node ll lk lx lh lr) k x h r) =
    some (record { result = sized ll lk lx (sized lr k x r); argument = sized lr k x r })

unfoldable pub left_rotate : Tree → Option Rotated
unfolding sized
left_rotate leaf = none
left_rotate (node l k x h leaf) = none
left_rotate (node l k x h (node rl rk rx rh rr)) =
    some (record { result = sized (sized l k x rl) rk rx rr; argument = sized l k x rl })

-- The tests on `getBalance`: above 1, below -1, at least 0, at most 0.
unfoldable pub is_left_heavy : Tree → Bool
unfolding height
is_left_heavy leaf = false
is_left_heavy (node l k x h r) = ltb (height r + 1) (height l)

unfoldable pub is_right_heavy : Tree → Bool
unfolding height
is_right_heavy leaf = false
is_right_heavy (node l k x h r) = ltb (height l + 1) (height r)

unfoldable pub leans_left : Tree → Bool
unfolding height
leans_left leaf = true
leans_left (node l k x h r) = leb (height r) (height l)

unfoldable pub leans_right : Tree → Bool
unfolding height
leans_right leaf = true
leans_right (node l k x h r) = leb (height l) (height r)

-- `root = rightRotate(root)`, `root = leftRotate(root)`
unfoldable pub rotated_right : Tree → Option Tree
unfolding right_rotate
rotated_right t = do r ← right_rotate t; some r.result

unfoldable pub rotated_left : Tree → Option Tree
unfolding left_rotate
rotated_left t = do r ← left_rotate t; some r.result

-- `root->left = leftRotate(root->left); root = rightRotate(root);`
unfoldable pub rotated_left_right : Tree → Option Tree
unfolding rotated_left rotated_right
rotated_left_right leaf = none
rotated_left_right (node l k x h r) = do l' ← rotated_left l; rotated_right (node l' k x h r)

-- The two cases of a balance above 1 at the end of `insert`.
unfoldable pub fix_left : Tree → ℕ → Option Tree
unfolding rotated_right rotated_left_right top_key
fix_left leaf key = none
fix_left (node l k x h r) key = do
  lk ← top_key l
  if ltb key lk
      then rotated_right (node l k x h r)
      else if ltb lk key
      then rotated_left_right (node l k x h r)
      else some (node l k x h r)

-- The two cases of a balance below -1. In the second the code rotates the root only.
unfoldable pub fix_right : Tree → ℕ → Option Tree
unfolding rotated_left top_key
fix_right leaf key = none
fix_right (node l k x h r) key = do
  rk ← top_key r
  if ltb rk key
      then rotated_left (node l k x h r)
      else if ltb key rk
      then rotated_left (node l k x h r)
      else some (node l k x h r)

-- The four cases. The two balances exclude one another.
unfoldable pub rebalance_insert : Tree → ℕ → Option Tree
unfolding is_left_heavy is_right_heavy fix_left fix_right
rebalance_insert t key =
    if is_left_heavy t then fix_left t key else if is_right_heavy t then fix_right t key else some t

-- The first argument says whether `newNode` gets a node.
unfoldable pub insert : Bool → Tree → ℕ → ℕ → Option Tree
unfolding rebalance_insert sized
insert room leaf key extra = some (if room then node leaf key extra 1 leaf else leaf)
insert room (node l k x h r) key extra =
    let left = (do l' ← insert room l key extra; rebalance_insert (sized l' k x r) key) in
    let right = (do r' ← insert room r key extra; rebalance_insert (sized l k x r') key) in
    if ltb key k then left else if ltb k key then right else some (node l k x h r)

unfoldable pub is_null : Tree → Bool
is_null leaf = true
is_null (node l k x h r) = false

unfoldable pub find_node : Tree → ℕ → Tree
unfolding is_null
find_node leaf key = leaf
find_node (node l k x h r) key =
    let below = find_node r key in
    let above = find_node l key in
    if k == key
    then node l k x h r
    else if (if is_null r then false else ltb k key)
    then below
    else if (if is_null l then false else ltb key k)
    then above
    else leaf

unfoldable pub find_node_or_higher : Tree → ℕ → Tree
unfolding find_node
find_node_or_higher leaf key = leaf
find_node_or_higher (node l k x h r) key =
    let temp = find_node (node l k x h r) key in
    let low = find_node_or_higher l key in
    let high = find_node_or_higher r key in
    if is_null temp
    then (if leb key k then (if is_null low then node l k x h r else low) else high)
    else temp
