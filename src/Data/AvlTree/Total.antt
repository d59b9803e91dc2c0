-- ===== src/Data/AvlTree/Total.antt =====
-- `insert` into a balanced tree, with room for a node: it returns, and what it leaves.
use frosty_os_old.Common.{
  le→leb, inr, inl, lt_cases, ℕ, suc, ◌+◌, ◌≤◌, ◌≡◌, refl, subst, Bool, true, false, Option, none,
  some, if◌then◌else◌, ltb, leb, ◌==◌, arith, max,
}
use frosty_os_old.Common.Partial.{◌>>=◌}
use frosty_os_old.Data.AvlTree.{Tree, leaf, node, height, sized, rebalance_insert, insert}
use frosty_os_old.Data.AvlTree.Order.{IsOrdered, lookup}
use frosty_os_old.Data.AvlTree.Insert.{Inserts, MayInsert, insert-MayInsert, entered}
use frosty_os_old.Data.AvlTree.Heights.{
  IsSized, IsBalanced, Grows, rebalance_left-Fits, rebalance_right-Fits,
}

insert-Inserts : (t : Tree) (q w : ℕ) {u : Tree} → insert true t q w ≡ some u → Inserts true t q w u
insert-Inserts t q w e = subst (MayInsert true t q w) e (insert-MayInsert true t q w)

entered-some : (o : Option ℕ) (w : ℕ) → (v : ℕ) × (entered true o w ≡ some v)
entered-some none w = (w, refl)
entered-some (some x) w = (x, refl)

-- The inserted key is found.
lookup_inserted :
    (t : Tree) (q w : ℕ) {u : Tree}
    → IsOrdered t
    → insert true t q w ≡ some u
    → (v : ℕ) × (lookup u q ≡ some v)
lookup_inserted t q w o e =
    let (v, f) = entered-some (lookup t q) w in
    (v, ground (arith, (insert-Inserts t q w e).entries o q))

insert_if :
    (l r : Tree) (k x h q w : ℕ)
    → insert true (node l k x h r) q w ≡ (
        if ltb q k
        then insert true l q w >>= (λ l'. rebalance_insert (sized l' k x r) q)
        else if ltb k q
        then insert true r q w >>= (λ r'. rebalance_insert (sized l k x r') q)
        else some (node l k x h r))
unfolding insert
insert_if l r k x h q w = refl

Grows-same : (t : Tree) → IsSized t → Grows t (some t)
Grows-same t s = record {
  tree = t;
  is_some = refl;
  is_sized = s;
  not_lower = omega arith;
  not_higher = omega arith;
}

-- The arithmetic of a subtree that grows from `a` to `a'` beside one of height `b`.
still_as_high :
    (a a' b top u : ℕ)
    → a ≤ a'
    → a' ≤ a + 1
    → a ≤ b + 1
    → top ≡ suc (max a' b)
    → top ≤ u + 1
    → (leb a' (b + 1) ≡ true → u ≡ top)
    → suc (max a b) ≤ u
still_as_high a a' b top u p q c d f e = elim (lt_cases (b + 1) a') [
  | inl h ↦ omega arith
  | inr h ↦ omega (arith, e (le→leb a' (b + 1) h))
]

module _ (l r : Tree) (k x h q w : ℕ) (o : IsOrdered (node l k x h r))
    (s : IsSized (node l k x h r)) (b : IsBalanced (node l k x h r)) where
  Grows-left :
      Grows l (insert true l q w)
      → Grows (node l k x h r) (insert true l q w >>= (λ l'. rebalance_insert (sized l' k x r) q))
  unfolding IsSized IsBalanced
  Grows-left g =
      let l' = g.tree in
      let (v, found) = lookup_inserted l q w o.2 g.is_some in
      let f =
        rebalance_left-Fits l' r k x q v g.is_sized s.2 (omega (arith, g.not_higher))
          (omega (arith, g.not_lower)) found in
      rw g.is_some (record {
        tree = f.tree;
        is_some = f.is_some;
        is_sized = f.is_sized;
        not_lower = omega (
          arith,
          still_as_high (height l) (height l') (height r) (suc (max (height l') (height r)))
              (height f.tree) g.not_lower g.not_higher b.0 (omega arith) f.not_lower f.is_exact,
        );
        not_higher = omega (arith, f.not_higher, g.not_higher);
      })

  Grows-right :
      Grows r (insert true r q w)
      → Grows (node l k x h r) (insert true r q w >>= (λ r'. rebalance_insert (sized l k x r') q))
  unfolding IsSized IsBalanced
  Grows-right g =
      let r' = g.tree in
      let f =
        rebalance_right-Fits l r' k x q s.1 g.is_sized (omega (arith, g.not_higher))
          (omega (arith, g.not_lower)) in
      rw g.is_some (record {
        tree = f.tree;
        is_some = f.is_some;
        is_sized = f.is_sized;
        not_lower = omega (
          arith,
          still_as_high (height r) (height r') (height l) (suc (max (height l) (height r')))
              (height f.tree) g.not_lower g.not_higher b.1 (omega arith) f.not_lower f.is_exact,
        );
        not_higher = omega (arith, f.not_higher, g.not_higher);
      })

Grows-if :
    (c : Bool) (t : Tree) (m n : Option Tree)
    → (c ≡ true → Grows t m)
    → (c ≡ false → Grows t n)
    → Grows t (if c then m else n)
Grows-if true t m n a b = a refl
Grows-if false t m n a b = b refl

insert-Grows :
    (t : Tree) (q w : ℕ) → IsOrdered t → IsSized t → IsBalanced t → Grows t (insert true t q w)
unfolding IsSized IsBalanced insert
insert-Grows leaf q w o s b = record {
  tree = node leaf q w 1 leaf;
  is_some = refl;
  is_sized = (refl, tt, tt);
  not_lower = omega arith;
  not_higher = omega arith;
}
insert-Grows (node l k x h r) q w o s b =
    let t = node l k x h r in
    Grows-if (ltb q k) t _ _ (λ _. Grows-left l r k x h q w o s b (insert-Grows l q w o.2 s.1 b.2))
      (λ _.
        Grows-if (ltb k q) t _ _
          (λ _. Grows-right l r k x h q w o s b (insert-Grows r q w o.3 s.2 b.3))
          (λ _. Grows-same t s))

-- Into an ordered and balanced tree whose heights are right, with room for a node, `insert` returns
-- (it dereferences no null): a tree that is ordered, whose heights are right and which is at most
-- one level higher. It holds the entries of the old one and the new entry, or the old entry of
-- that key where there was one.
pub insert_correct :
    (t : Tree) (q w : ℕ)
    → IsOrdered t
    → IsSized t
    → IsBalanced t
    → (u : Tree) × (insert true t q w ≡ some u)
      × IsOrdered u
      × IsSized u
      × (height u ≤ height t + 1)
      × ((p : ℕ) → lookup u p ≡ (if p == q then entered true (lookup t q) w else lookup t p))
insert_correct t q w o s b =
    let g = insert-Grows t q w o s b in
    let i = insert-Inserts t q w g.is_some in
    (g.tree, g.is_some, i.order o, g.is_sized, g.not_higher, i.entries o)
