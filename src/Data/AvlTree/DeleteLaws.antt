-- ===== src/Data/AvlTree/DeleteLaws.antt =====
-- `deleteNode`: it never dereferences null on a tree whose heights are right, it removes the key, and
-- it makes up none.
use frosty_os_old.Common.{
  not, ◌&&◌, none, sym, Bool, subst, true, ℕ, ◌≡◌, refl, ◌≢◌, false, Option, some, arith,
}
use frosty_os_old.Data.AvlTree.{
  ◌>>=◌, is_right_heavy, is_left_heavy, Tree, leaf, node, sized, leans_left, leans_right,
}
use frosty_os_old.Data.AvlTree.Order.{All, IsOrdered}
use frosty_os_old.Data.AvlTree.Heights.{IsSized}
use frosty_os_old.Data.AvlTree.Delete.{
  left_of, rebalance_delete, right_of, step_if, call_right, call_left, call_left_right,
  call_right_left,
}

-- The second tree has no other keys than the first, and is in order if the first was.
pub record Shrinks (t u : Tree) : Type 1 where
  pub all : (P : ℕ → Type 0) → All P t → All P u
  pub order : IsOrdered t → IsOrdered u

-- The code returns such a tree, with the right heights.
pub record Gives (t : Tree) (o : Option Tree) : Type 1 where
  pub tree : Tree
  pub is_some : o ≡ some tree
  pub is_sized : IsSized tree
  pub shrinks : Shrinks t tree

pub Shrinks-refl : (t : Tree) → Shrinks t t
Shrinks-refl t = record { all = λ P a. a; order = λ o. o }

pub Shrinks-trans : {t u v : Tree} → Shrinks t u → Shrinks u v → Shrinks t v
Shrinks-trans a b = record { all = λ P p. b.all P (a.all P p); order = λ o. b.order (a.order o) }

call_right-Gives :
    (l r : Tree) (k x h : ℕ)
    → IsSized l
    → IsSized r
    → l ≢ leaf
    → Gives (node l k x h r) (call_right (node l k x h r))
unfolding call_right sized IsSized
call_right-Gives leaf r k x h sl sr ne = absurd (ne refl)
call_right-Gives (node ll lk lx lh lr) r k x h sl sr ne = record {
  tree = sized lr k x r;
  is_some = refl;
  is_sized = (refl, sl.2, sr);
  shrinks = record { all = λ P a. (a.0.2, a.1, a.2); order = λ o. (o.0.2, o.1, o.2.3, o.3) };
}

call_left-Gives :
    (l r : Tree) (k x h : ℕ)
    → IsSized l
    → IsSized r
    → r ≢ leaf
    → Gives (node l k x h r) (call_left (node l k x h r))
unfolding call_left sized IsSized
call_left-Gives l leaf k x h sl sr ne = absurd (ne refl)
call_left-Gives l (node rl rk rx rh rr) k x h sl sr ne = record {
  tree = sized l k x rl;
  is_some = refl;
  is_sized = (refl, sl, sr.1);
  shrinks = record { all = λ P a. (a.0, a.1, a.2.0); order = λ o. (o.0, o.1.0, o.2, o.3.2) };
}

-- The child that leans to the other side has a child on that side.
call_left_right-Gives :
    (l r : Tree) (k x h : ℕ)
    → IsSized l
    → IsSized r
    → leans_left l ≡ false
    → Gives (node l k x h r) (call_left_right (node l k x h r))
unfolding call_left_right call_left call_right sized IsSized leans_left
call_left_right-Gives leaf r k x h sl sr e = cc
call_left_right-Gives (node ll lk lx lh leaf) r k x h sl sr e = ground arith
call_left_right-Gives (node ll lk lx lh (node ml mk mx mh mr)) r k x h sl sr e = record {
  tree = sized ml k x r;
  is_some = refl;
  is_sized = (refl, sl.2.1, sr);
  shrinks = record { all = λ P a. (a.0.2.0, a.1, a.2); order = λ o. (o.0.2.0, o.1, o.2.3.2, o.3) };
}

call_right_left-Gives :
    (l r : Tree) (k x h : ℕ)
    → IsSized l
    → IsSized r
    → leans_right r ≡ false
    → Gives (node l k x h r) (call_right_left (node l k x h r))
unfolding call_right_left call_left call_right sized IsSized leans_right
call_right_left-Gives l leaf k x h sl sr e = cc
call_right_left-Gives l (node leaf rk rx rh rr) k x h sl sr e = ground arith
call_right_left-Gives l (node (node ml mk mx mh mr) rk rx rh rr) k x h sl sr e = record {
  tree = sized l k x mr;
  is_some = refl;
  is_sized = (refl, sl, sr.1.2);
  shrinks = record { all = λ P a. (a.0, a.1, a.2.0.2); order = λ o. (o.0, o.1.0.2, o.2, o.3.2.3) };
}

Gives-step :
    (b : Bool) (f : Tree → Option Tree) (t : Tree)
    → IsSized t
    → (b ≡ true → Gives t (f t))
    → Gives t (step_if b f t)
unfolding step_if
Gives-step true f t s g = g refl
Gives-step false f t s g = record {
  tree = t;
  is_some = refl;
  is_sized = s;
  shrinks = Shrinks-refl t;
}

Gives-bind :
    (t : Tree) (o : Option Tree) (f : Tree → Option Tree)
    → Gives t o
    → ((u : Tree) → IsSized u → Gives u (f u))
    → Gives t (o >>= f)
Gives-bind t none f g next = absurd (none_some g.tree g.is_some)
  where
    none_some : (u : Tree) → none ≡ some u → ⊥
    none_some u e = cc
Gives-bind t (some v) f g next =
    let same : v ≡ g.tree = ground (arith, g.is_some) in
    let n = next v (subst IsSized (sym same) g.is_sized) in
    record {
      tree = n.tree;
      is_some = n.is_some;
      is_sized = n.is_sized;
      shrinks = Shrinks-trans (subst (Shrinks t) (sym same) g.shrinks) n.shrinks;
    }

-- A heavy side is not empty.
left_heavy-ne : (l r : Tree) (k x h : ℕ) → is_left_heavy (node l k x h r) ≡ true → l ≢ leaf
unfolding is_left_heavy
left_heavy-ne leaf r k x h e = ground arith
left_heavy-ne (node a b c d f) r k x h e = λ p. cc

right_heavy-ne : (l r : Tree) (k x h : ℕ) → is_right_heavy (node l k x h r) ≡ true → r ≢ leaf
unfolding is_right_heavy
right_heavy-ne l leaf k x h e = ground arith
right_heavy-ne l (node a b c d f) k x h e = λ p. cc

not_both : (t : Tree) → is_left_heavy t ≡ true → is_right_heavy t ≡ false
unfolding is_left_heavy is_right_heavy
not_both leaf e = refl
not_both (node l k x h r) e = ground arith

leaf_light : (is_left_heavy leaf ≡ false) × (is_right_heavy leaf ≡ false)
unfolding is_left_heavy is_right_heavy
leaf_light = (refl, refl)

leaf_leans : (leans_left (left_of leaf) ≡ true) × (leans_right (right_of leaf) ≡ true)
unfolding leans_left leans_right left_of right_of
leaf_leans = (refl, refl)

not-true : (b : Bool) → not b ≡ true → b ≡ false
not-true b e = ground arith

-- Each of the four statements, where its test passes.
call_right_step : (t : Tree) → IsSized t → is_left_heavy t ≡ true → Gives t (call_right t)
unfolding IsSized
call_right_step leaf s e = cc (leaf_light.0, e)
call_right_step (node l k x h r) s e =
    call_right-Gives l r k x h s.1 s.2 (left_heavy-ne l r k x h e)

call_left_step : (t : Tree) → IsSized t → is_right_heavy t ≡ true → Gives t (call_left t)
unfolding IsSized
call_left_step leaf s e = cc (leaf_light.1, e)
call_left_step (node l k x h r) s e = call_left-Gives l r k x h s.1 s.2 (right_heavy-ne l r k x h e)

call_left_right_step :
    (t : Tree) → IsSized t → not (leans_left (left_of t)) ≡ true → Gives t (call_left_right t)
unfolding IsSized left_of
call_left_right_step leaf s e = cc (leaf_leans.0, not-true (leans_left leaf) e)
call_left_right_step (node l k x h r) s e =
    call_left_right-Gives l r k x h s.1 s.2 (not-true (leans_left l) e)

call_right_left_step :
    (t : Tree) → IsSized t → not (leans_right (right_of t)) ≡ true → Gives t (call_right_left t)
unfolding IsSized right_of
call_right_left_step leaf s e = cc (leaf_leans.1, not-true (leans_right leaf) e)
call_right_left_step (node l k x h r) s e =
    call_right_left-Gives l r k x h s.1 s.2 (not-true (leans_right r) e)

step_false : (f : Tree → Option Tree) (t : Tree) → step_if false f t ≡ some t
unfolding step_if
step_false f t = refl

chain : (a b : Bool) (t : Tree) → Option Tree
chain a b t = do
  t1 ← step_if (a && leans_left (left_of t)) call_right t
  t2 ← step_if (a && not (leans_left (left_of t1))) call_left_right t1
  t3 ← step_if (b && leans_right (right_of t2)) call_left t2
  step_if (b && not (leans_right (right_of t3))) call_right_left t3

chain-Gives :
    (a b : Bool) (t : Tree)
    → IsSized t
    → (a ≡ true → is_left_heavy t ≡ true)
    → (b ≡ true → is_right_heavy t ≡ true)
    → (a && b) ≡ false
    → Gives t (chain a b t)
unfolding chain
chain-Gives true true t s p q e = cc
chain-Gives true false t s p q e =
    Gives-bind t _ _ (Gives-step _ call_right t s (λ _. call_right_step t s (p refl))) (λ u v.
      Gives-bind u _ _ (Gives-step _ call_left_right u v (λ f. call_left_right_step u v f))
        (λ w z. rw (step_false call_left w) (Gives-step false call_right_left w z (λ f. cc))))
chain-Gives false true t s p q e = rw (step_false call_right t) (
    rw (step_false call_left_right t) (
      Gives-bind t _ _ (Gives-step _ call_left t s (λ _. call_left_step t s (q refl)))
        (λ u v. Gives-step _ call_right_left u v (λ f. call_right_left_step u v f))))
chain-Gives false false t s p q e = rw (step_false call_right t) (
    rw (step_false call_left_right t)
      (rw (step_false call_left t) (Gives-step false call_right_left t s (λ f. cc))))

rebalance_chain : (t : Tree) → rebalance_delete t ≡ chain (is_left_heavy t) (is_right_heavy t) t
unfolding rebalance_delete chain
rebalance_chain t = refl

-- The rebalancing returns, and only loses nodes.
pub rebalance_delete-Gives : (t : Tree) → IsSized t → Gives t (rebalance_delete t)
rebalance_delete-Gives t s = rw (rebalance_chain t) (
    chain-Gives (is_left_heavy t) (is_right_heavy t) t s (λ e. e) (λ e. e)
      (ground (arith, not_both t)))
