-- ===== src/Data/AvlTree/Order.antt =====
-- The order of the keys: what the rotations and `insert` keep of it.
use frosty_os_old.Common.{
  if◌then◌else◌, ltb, Bool, true, false, ltb, refl, ◌≡◌, ◌∙◌, ℕ, ◌≤◌, ◌<◌, Option, none, some,
  arith,
}
use frosty_os_old.Data.AvlTree.{
  is_right_heavy, is_left_heavy, fix_right, rebalance_insert, ◌>>=◌, rotated_left_right, fix_left,
  Tree, leaf, node, rotated_right, rotated_left,
}

-- Every key of the tree satisfies `P`.
abbrev pub All {ℓ} : (ℕ → Type ℓ) → Tree → Type ℓ
All P leaf = Unit
All P (node l k x h r) = All P l × P k × All P r

abbrev pub Below : ℕ → Tree → Type 0
Below b t = All (λ k. k < b) t

abbrev pub Above : ℕ → Tree → Type 0
Above b t = All (λ k. b < k) t

abbrev pub IsOrdered : Tree → Type 0
IsOrdered leaf = Unit
IsOrdered (node l k x h r) = Below k l × Above k r × IsOrdered l × IsOrdered r

pub All-imp {ℓ κ} :
    {P : ℕ → Type ℓ} {Q : ℕ → Type κ} → ((k : ℕ) → P k → Q k) → (t : Tree) → All P t → All Q t
All-imp f leaf a = tt
All-imp f (node l k x h r) (a, b, c) = (All-imp f l a, f k b, All-imp f r c)

pub Below-mono : (a b : ℕ) (t : Tree) → a ≤ b → Below a t → Below b t
Below-mono a b t h = All-imp (λ k (p : k < a). omega arith) t

pub Above-mono : (a b : ℕ) (t : Tree) → b ≤ a → Above a t → Above b t
Above-mono a b t h = All-imp (λ k (p : a < k). omega arith) t

-- The search by the order of the keys.
unfoldable pub lookup : Tree → ℕ → Option ℕ
lookup leaf q = none
lookup (node l k x h r) q =
    let low = lookup l q in
    let high = lookup r q in if ltb q k then low else if ltb k q then high else some x

-- The second tree has the keys of the first, in order if they were, and the same entries.
pub record Keeps (t u : Tree) : Type 1 where
  pub all : (P : ℕ → Type 0) → All P t → All P u
  pub order : IsOrdered t → IsOrdered u
  pub entries : IsOrdered t → (q : ℕ) → lookup u q ≡ lookup t q

abbrev pub MayKeep : Tree → Option Tree → Type 1
MayKeep t none = Unit
MayKeep t (some u) = Keeps t u

Keeps-refl : (t : Tree) → Keeps t t
Keeps-refl t = record { all = λ P a. a; order = λ o. o; entries = λ o q. refl }

Keeps-trans : {t u v : Tree} → Keeps t u → Keeps u v → Keeps t v
Keeps-trans a b = record {
  all = λ P p. b.all P (a.all P p);
  order = λ o. b.order (a.order o);
  entries = λ o q. b.entries (a.order o) q ∙ a.entries o q;
}

MayKeep-trans : {t u : Tree} → Keeps t u → (o : Option Tree) → MayKeep u o → MayKeep t o
MayKeep-trans a none m = tt
MayKeep-trans a (some v) m = Keeps-trans a m

MayKeep-if :
    (b : Bool) (t : Tree) (m n : Option Tree)
    → MayKeep t m
    → MayKeep t n
    → MayKeep t (if b then m else n)
MayKeep-if true t m n a b = a
MayKeep-if false t m n a b = b

rotated_right-Keeps : (t : Tree) → MayKeep t (rotated_right t)
unfolding rotated_right lookup
rotated_right-Keeps leaf = tt
rotated_right-Keeps (node leaf k x h r) = tt
rotated_right-Keeps (node (node ll lk lx lh lr) k x h r) = record {
  all = λ P a. (a.0.0, a.0.1, (a.0.2, a.1, a.2));
  order = λ o.
      (o.2.0, (o.2.1, o.0.1, Above-mono k lk r (omega arith) o.1), o.2.2, (o.0.2, o.1, o.2.3, o.3));
  entries = λ o q. ground arith;
}

rotated_left-Keeps : (t : Tree) → MayKeep t (rotated_left t)
unfolding rotated_left lookup
rotated_left-Keeps leaf = tt
rotated_left-Keeps (node l k x h leaf) = tt
rotated_left-Keeps (node l k x h (node rl rk rx rh rr)) = record {
  all = λ P a. ((a.0, a.1, a.2.0), a.2.1, a.2.2);
  order = λ o.
      ((Below-mono k rk l (omega arith) o.0, o.1.1, o.3.0), o.3.1, (o.0, o.1.0, o.2, o.3.2), o.3.3);
  entries = λ o q. ground arith;
}

-- A new left child that keeps the old one.
Keeps-left : (l l' r : Tree) (k x h h' : ℕ) → Keeps l l' → Keeps (node l k x h r) (node l' k x h' r)
unfolding lookup
Keeps-left l l' r k x h h' a = record {
  all = λ P p. (a.all P p.0, p.1, p.2);
  order = λ o. (a.all (λ j. j < k) o.0, o.1, a.order o.2, o.3);
  entries = λ o q. ground (arith, a.entries o.2 q);
}

rotated_left_right-Keeps : (t : Tree) → MayKeep t (rotated_left_right t)
unfolding rotated_left_right
rotated_left_right-Keeps leaf = tt
rotated_left_right-Keeps (node l k x h r) = go (rotated_left l) (rotated_left-Keeps l)
  where
    go :
        (o : Option Tree)
        → MayKeep l o
        → MayKeep (node l k x h r) (o >>= λ l'. rotated_right (node l' k x h r))
    go none m = tt
    go (some l') m =
        MayKeep-trans (Keeps-left l l' r k x h h m) (rotated_right (node l' k x h r))
          (rotated_right-Keeps (node l' k x h r))

fix_left-Keeps : (t : Tree) (key : ℕ) → MayKeep t (fix_left t key)
unfolding fix_left
fix_left-Keeps leaf key = tt
fix_left-Keeps (node leaf k x h r) key = tt
fix_left-Keeps (node (node ll lk lx lh lr) k x h r) key =
    let t = node (node ll lk lx lh lr) k x h r in
    MayKeep-if (ltb key lk) t _ _ (rotated_right-Keeps t)
      (MayKeep-if (ltb lk key) t _ _ (rotated_left_right-Keeps t) (Keeps-refl t))

fix_right-Keeps : (t : Tree) (key : ℕ) → MayKeep t (fix_right t key)
unfolding fix_right
fix_right-Keeps leaf key = tt
fix_right-Keeps (node l k x h leaf) key = tt
fix_right-Keeps (node l k x h (node rl rk rx rh rr)) key =
    let t = node l k x h (node rl rk rx rh rr) in
    MayKeep-if (ltb rk key) t _ _ (rotated_left-Keeps t)
      (MayKeep-if (ltb key rk) t _ _ (rotated_left-Keeps t) (Keeps-refl t))

pub rebalance_insert-Keeps : (t : Tree) (key : ℕ) → MayKeep t (rebalance_insert t key)
unfolding rebalance_insert
rebalance_insert-Keeps t key =
    MayKeep-if (is_left_heavy t) t _ _ (fix_left-Keeps t key)
      (MayKeep-if (is_right_heavy t) t _ _ (fix_right-Keeps t key) (Keeps-refl t))
