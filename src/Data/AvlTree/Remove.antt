-- ===== src/Data/AvlTree/Remove.antt =====
-- The whole of `deleteNode`, by induction.
use frosty_os_old.Common.{
  ℕ, ◌≤◌, ◌<◌, ◌≡◌, refl, subst, ◌≢◌, Bool, true, false, Option, some, if◌then◌else◌, ltb, arith,
  ltb→lt, ltb→le,
}
use frosty_os_old.Common.Partial.{◌>>=◌}
use frosty_os_old.Data.AvlTree.{Tree, leaf, node, sized}
use frosty_os_old.Data.AvlTree.Order.{All, IsOrdered, Above, Below, All-imp}
use frosty_os_old.Data.AvlTree.Heights.{IsSized}
use frosty_os_old.Data.AvlTree.Delete.{min_key, finish_delete, remove_top, delete_node}
use frosty_os_old.Data.AvlTree.DeleteLaws.{
  Shrinks, Shrinks-refl, Shrinks-trans, rebalance_delete-Gives,
}

-- The key is gone from a tree that shrank.
pub record Removes (t : Tree) (q : ℕ) (o : Option Tree) : Type 1 where
  pub tree : Tree
  pub is_some : o ≡ some tree
  pub is_sized : IsSized tree
  pub shrinks : Shrinks t tree
  pub gone : IsOrdered t → All (λ j. j ≢ q) tree

abbrev IsSizedBelow : Tree → Type 0
IsSizedBelow leaf = Unit {0}
IsSizedBelow (node l k x h r) = IsSized l × IsSized r

below : (t : Tree) → IsSized t → IsSizedBelow t
unfolding IsSized
below leaf s = tt
below (node l k x h r) s = (s.1, s.2)

resized : (l r : Tree) (k x : ℕ) → IsSized l → IsSized r → IsSized (sized l k x r)
unfolding sized IsSized
resized l r k x sl sr = (refl, sl, sr)

resize : (l r : Tree) (k x h : ℕ) → Shrinks (node l k x h r) (sized l k x r)
unfolding sized
resize l r k x h = record { all = λ P a. a; order = λ o. o }

finish-Removes :
    (t u : Tree) (q : ℕ)
    → IsSizedBelow u
    → Shrinks t u
    → (IsOrdered t → All (λ j. j ≢ q) u)
    → Removes t q (finish_delete u)
unfolding finish_delete IsSized
finish-Removes t leaf q s c g = record {
  tree = leaf;
  is_some = refl;
  is_sized = s;
  shrinks = c;
  gone = g;
}
finish-Removes t (node l k x h r) q s c g =
    let f = rebalance_delete-Gives (sized l k x r) (resized l r k x s.0 s.1) in
    record {
      tree = f.tree;
      is_some = f.is_some;
      is_sized = f.is_sized;
      shrinks = Shrinks-trans (Shrinks-trans c (resize l r k x h)) f.shrinks;
      gone = λ o. f.shrinks.all (λ j. j ≢ q) ((resize l r k x h).all (λ j. j ≢ q) (g o));
    }

ne_of_Below : (q b : ℕ) (t : Tree) → b ≤ q → Below b t → All (λ j. j ≢ q) t
ne_of_Below q b t h = All-imp (λ j (a : j < b). omega arith) t

ne_of_Above : (q b : ℕ) (t : Tree) → q ≤ b → Above b t → All (λ j. j ≢ q) t
ne_of_Above q b t h = All-imp (λ j (a : b < j). omega arith) t

Above-least : (m : ℕ) (t : Tree) → All (λ j. m ≤ j) t → All (λ j. j ≢ m) t → Above m t
Above-least m leaf a b = tt
Above-least m (node l k x h r) a b =
    (Above-least m l a.0 b.0, omega (arith, a.1, b.1), Above-least m r a.2 b.2)

-- The least key on the right: there is one, it is a key, and no other is below it.
record IsLeast (t : Tree) (o : Option ℕ) : Type 1 where
  key : ℕ
  is_some : o ≡ some key
  is_key : (P : ℕ → Type 0) → All P t → P key
  is_least : IsOrdered t → All (λ j. key ≤ j) t

min_key-IsLeast : (t : Tree) → t ≢ leaf → IsLeast t (min_key t)
unfolding min_key
min_key-IsLeast leaf ne = absurd (ne refl)
min_key-IsLeast (node leaf k x h r) ne = record {
  key = k;
  is_some = refl;
  is_key = λ P a. a.1;
  is_least = λ o. (tt, omega arith, All-imp (λ j (a : k < j). omega arith) r o.1);
}
min_key-IsLeast (node (node ll lk lx lh lr) k x h r) ne =
    let m = min_key-IsLeast (node ll lk lx lh lr) (λ p. cc) in
    record {
      key = m.key;
      is_some = m.is_some;
      is_key = λ P a. m.is_key P a.0;
      is_least = λ o. (
        m.is_least o.2,
        omega (arith, m.is_key (λ j. j < k) o.0),
        All-imp (λ j (a : k < j). omega (arith, m.is_key (λ j. j < k) o.0)) r o.1,
      );
    }

module _ (l r : Tree) (k x h q : ℕ) (s : IsSized (node l k x h r)) where
  Removes-left :
      q < k
      → Removes l q (delete_node l q)
      → Removes (node l k x h r) q (delete_node l q >>= (λ l'. finish_delete (node l' k x h r)))
  unfolding IsSized
  Removes-left lt g = rw g.is_some (
      finish-Removes (node l k x h r) (node g.tree k x h r) q (g.is_sized, s.2)
        (record {
          all = λ P a. (g.shrinks.all P a.0, a.1, a.2);
          order = λ o. (g.shrinks.all (λ j. j < k) o.0, o.1, g.shrinks.order o.2, o.3);
        })
        (λ o. (g.gone o.2, (λ e. omega arith), ne_of_Above q k r (omega arith) o.1)))

  Removes-right :
      k < q
      → Removes r q (delete_node r q)
      → Removes (node l k x h r) q (delete_node r q >>= (λ r'. finish_delete (node l k x h r')))
  unfolding IsSized
  Removes-right lt g = rw g.is_some (
      finish-Removes (node l k x h r) (node l k x h g.tree) q (s.1, g.is_sized)
        (record {
          all = λ P a. (a.0, a.1, g.shrinks.all P a.2);
          order = λ o. (o.0, g.shrinks.all (λ j. k < j) o.1, o.2, g.shrinks.order o.3);
        })
        (λ o. (ne_of_Below q k l (omega arith) o.0, (λ e. omega arith), g.gone o.3)))

-- Two children: the least key on the right moves up.
moved_up :
    (l r r' : Tree) (k x h m : ℕ)
    → Shrinks r r'
    → ((P : ℕ → Type 0) → All P r → P m)
    → (IsOrdered r → All (λ j. m ≤ j) r)
    → (IsOrdered r → All (λ j. j ≢ m) r')
    → Shrinks (node l k x h r) (node l m x h r')
moved_up l r r' k x h m c is_key least gone = record {
  all = λ P a. (a.0, is_key P a.2, c.all P a.2);
  order = λ o. (
    All-imp (λ j (a : j < k). omega (arith, is_key (λ j. k < j) o.1)) l o.0,
    Above-least m r' (c.all (λ j. m ≤ j) (least o.3)) (gone o.3),
    o.2,
    c.order o.3,
  );
}

Removes-top :
    (l r : Tree) (k x h : ℕ)
    → IsSized l
    → IsSized r
    → ((m : ℕ) → Removes r m (delete_node r m))
    → Removes
        (node l k x h r)
        k
        (remove_top l x h r (λ m. delete_node r m) >>= (λ t. finish_delete t))
unfolding remove_top
Removes-top leaf r k x h sl sr g =
    finish-Removes (node leaf k x h r) r k (below r sr)
      (record { all = λ P a. a.2; order = λ o. o.3 }) (λ o. ne_of_Above k k r (omega arith) o.1)
Removes-top (node ll lk lx lh lr) leaf k x h sl sr g =
    let l = node ll lk lx lh lr in
    finish-Removes (node l k x h leaf) l k (below l sl)
      (record { all = λ P a. a.0; order = λ o. o.2 }) (λ o. ne_of_Below k k l (omega arith) o.0)
Removes-top (node ll lk lx lh lr) (node rl rk rx rh rr) k x h sl sr g =
    let l = node ll lk lx lh lr in
    let r = node rl rk rx rh rr in
    let m = min_key-IsLeast r (λ p. cc) in
    let d = g m.key in
    rw m.is_some (
      rw d.is_some (
        finish-Removes (node l k x h r) (node l m.key x h d.tree) k (sl, d.is_sized)
          (moved_up l r d.tree k x h m.key d.shrinks m.is_key m.is_least d.gone)
          (λ o. (
            ne_of_Below k k l (omega arith) o.0,
            (λ e. omega (arith, m.is_key (λ j. k < j) o.1)),
            ne_of_Above k k d.tree (omega arith) (d.shrinks.all (λ j. k < j) o.1),
          ))))

Removes-if :
    (c : Bool) (t : Tree) (q : ℕ) (m n : Option Tree)
    → (c ≡ true → Removes t q m)
    → (c ≡ false → Removes t q n)
    → Removes t q (if c then m else n)
Removes-if true t q m n a b = a refl
Removes-if false t q m n a b = b refl

delete_node_if :
    (l r : Tree) (k x h q : ℕ)
    → delete_node (node l k x h r) q ≡ (
        if ltb q k
        then delete_node l q >>= (λ l'. finish_delete (node l' k x h r))
        else if ltb k q
        then delete_node r q >>= (λ r'. finish_delete (node l k x h r'))
        else remove_top l x h r (λ m. delete_node r m) >>= (λ t. finish_delete t))
unfolding delete_node
delete_node_if l r k x h q = refl

delete_node_leaf : (q : ℕ) → Removes leaf q (delete_node leaf q)
unfolding delete_node IsSized
delete_node_leaf q = record {
  tree = leaf;
  is_some = refl;
  is_sized = tt;
  shrinks = Shrinks-refl leaf;
  gone = λ o. tt;
}

-- On a tree whose heights are right `deleteNode` returns (it dereferences no null): a tree whose
-- heights are right, with no key that was not there; if the tree was ordered the result is, and
-- the key is not in it.
pub delete_node-Removes : (t : Tree) (q : ℕ) → IsSized t → Removes t q (delete_node t q)
delete_node-Removes leaf q s = delete_node_leaf q
delete_node-Removes (node l k x h r) q s =
    let (sl, sr) = below (node l k x h r) s in
    rw (delete_node_if l r k x h q) (
      Removes-if (ltb q k) (node l k x h r) q _ _
        (λ e. Removes-left l r k x h q s (ltb→lt q k e) (delete_node-Removes l q sl))
        (λ a.
          Removes-if (ltb k q) (node l k x h r) q _ _
            (λ e. Removes-right l r k x h q s (ltb→lt k q e) (delete_node-Removes r q sr))
            (λ b.
              let same : k ≡ q = omega (arith, ltb→le q k a, ltb→le k q b) in
              subst
                (λ p.
                  Removes (node l k x h r) p
                    (remove_top l x h r (λ m. delete_node r m) >>= (λ t. finish_delete t)))
                same (Removes-top l r k x h sl sr (λ m. delete_node-Removes r m sr)))))
