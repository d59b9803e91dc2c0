-- ===== src/Data/AvlTree/Heights.antt =====
-- The heights in the nodes, and that `insert` into a balanced tree never dereferences null.
use frosty_os_old.Data.AvlTree.Order.{lookup}
use frosty_os_old.Common.{
  lt→ltb, le→ltb, lt_cases, if◌then◌else◌, leb, ltb→lt, inr, inl, ltb, Bool-cases, false, ◌<◌, ◌≢◌,
  suc, ℕ, suc, ◌+◌, ◌≤◌, ◌≡◌, refl, Bool, true, Option, some, arith, max,
}
use frosty_os_old.Data.AvlTree.{
  rebalance_insert, fix_right, fix_left, rotated_left, rotated_left_right, rotated_right, Tree,
  leaf, node, height, sized,
}

-- Every node holds the height of its tree.
unfoldable pub IsSized : Tree → Type 0
unfolding height
IsSized leaf = Unit {0}
IsSized (node l k x h r) = (h ≡ suc (max (height l) (height r))) × IsSized l × IsSized r

-- The heights below a node differ by 1 at most.
unfoldable pub IsBalanced : Tree → Type 0
unfolding height
IsBalanced leaf = Unit {0}
IsBalanced (node l k x h r) =
    (height l ≤ height r + 1) × (height r ≤ height l + 1) × IsBalanced l × IsBalanced r

-- A rebalanced tree, next to the height that the tree had before.
pub record Fits (before : ℕ) (exact : Bool) (o : Option Tree) : Type 0 where
  pub tree : Tree
  pub is_some : o ≡ some tree
  pub is_sized : IsSized tree
  pub not_higher : height tree ≤ before
  pub not_lower : before ≤ height tree + 1
  pub is_exact : exact ≡ true → height tree ≡ before

module _ (l r : Tree) (k x q : ℕ) (sl : IsSized l) (sr : IsSized r) where
  Fits-here : (e : Bool) → Fits (suc (max (height l) (height r))) e (some (sized l k x r))
  unfolding sized IsSized
  Fits-here e = record {
    tree = sized l k x r;
    is_some = refl;
    is_sized = (refl, sl, sr);
    not_higher = omega arith;
    not_lower = omega arith;
    is_exact = λ _. refl;
  }

rotated_right-Fits :
    (l r : Tree) (k x : ℕ)
    → IsSized l
    → IsSized r
    → height l ≡ height r + 2
    → Fits (suc (max (height l) (height r))) false (rotated_right (sized l k x r))
unfolding rotated_right sized IsSized
rotated_right-Fits leaf r k x sl sr e = absurd (omega arith)
rotated_right-Fits (node ll lk lx lh lr) r k x sl sr e = record {
  tree = sized ll lk lx (sized lr k x r);
  is_some = refl;
  is_sized = (refl, sl.1, (refl, sl.2, sr));
  not_higher = omega arith;
  not_lower = omega arith;
  is_exact = λ b. cc;
}

rotated_left-Fits :
    (l r : Tree) (k x : ℕ)
    → IsSized l
    → IsSized r
    → height r ≡ height l + 2
    → Fits (suc (max (height l) (height r))) false (rotated_left (sized l k x r))
unfolding rotated_left sized IsSized
rotated_left-Fits l leaf k x sl sr e = absurd (omega arith)
rotated_left-Fits l (node rl rk rx rh rr) k x sl sr e = record {
  tree = sized (sized l k x rl) rk rx rr;
  is_some = refl;
  is_sized = (refl, (refl, sl, sr.1), sr.2);
  not_higher = omega arith;
  not_lower = omega arith;
  is_exact = λ b. cc;
}

-- The double rotation wants the right child of the left child.
rotated_left_right-Fits :
    (ll lr r : Tree) (lk lx lh k x : ℕ)
    → IsSized (node ll lk lx lh lr)
    → IsSized r
    → lr ≢ leaf
    → height (node ll lk lx lh lr) ≡ height r + 2
    → Fits
        (suc (max (height (node ll lk lx lh lr)) (height r)))
        false
        (rotated_left_right (sized (node ll lk lx lh lr) k x r))
unfolding rotated_left_right sized IsSized
rotated_left_right-Fits ll leaf r lk lx lh k x sl sr ne e = absurd (ne refl)
rotated_left_right-Fits ll (node ml mk mx mh mr) r lk lx lh k x sl sr ne e = record {
  tree = sized (sized ll lk lx ml) mk mx (sized mr k x r);
  is_some = refl;
  is_sized = (refl, (refl, sl.1, sl.2.1), (refl, sl.2.2, sr));
  not_higher = omega arith;
  not_lower = omega arith;
  is_exact = λ b. cc;
}

-- A key that is found and lies above the top lies in the right child.
right_of_found :
    (ll lr : Tree) (lk lx lh q v : ℕ) → lookup (node ll lk lx lh lr) q ≡ some v → lk < q → lr ≢ leaf
unfolding lookup
right_of_found ll leaf lk lx lh q v e h = ground arith
right_of_found ll (node a b c d f) lk lx lh q v e h = λ p. cc

not_low : (r : Tree) → height leaf ≢ height r + 2
unfolding height
not_low r = omega arith

fix_left_if :
    (ll lr r : Tree) (lk lx lh k x q : ℕ)
    → let t = sized (node ll lk lx lh lr) k x r in
      fix_left t q
      ≡ (if ltb q lk then rotated_right t else if ltb lk q then rotated_left_right t else some t)
unfolding fix_left sized
fix_left_if ll lr r lk lx lh k x q = refl

fix_right_if :
    (l rl rr : Tree) (rk rx rh k x q : ℕ)
    → let t = sized l k x (node rl rk rx rh rr) in
      fix_right t q
      ≡ (if ltb rk q then rotated_left t else if ltb q rk then rotated_left t else some t)
unfolding fix_right sized
fix_right_if l rl rr rk rx rh k x q = refl

fix_left-Fits :
    (l r : Tree) (k x q v : ℕ)
    → IsSized l
    → IsSized r
    → height l ≡ height r + 2
    → lookup l q ≡ some v
    → Fits (suc (max (height l) (height r))) false (fix_left (sized l k x r) q)
fix_left-Fits leaf r k x q v sl sr e f = absurd (not_low r e)
fix_left-Fits (node ll lk lx lh lr) r k x q v sl sr e f =
    let l = node ll lk lx lh lr in
    rw (fix_left_if ll lr r lk lx lh k x q) (elim (Bool-cases (ltb q lk)) [
      | inl a ↦ rw a (rotated_right-Fits l r k x sl sr e)
      | inr a ↦ elim (Bool-cases (ltb lk q)) [
        | inl b ↦
            rw (a, b)
              (rotated_left_right-Fits ll lr r lk lx lh k x sl sr
                (right_of_found ll lr lk lx lh q v f (ltb→lt lk q b)) e)
        | inr b ↦ rw (a, b) (Fits-here l r k x q sl sr false)
      ]
    ])

fix_right-Fits :
    (l r : Tree) (k x q : ℕ)
    → IsSized l
    → IsSized r
    → height r ≡ height l + 2
    → Fits (suc (max (height l) (height r))) false (fix_right (sized l k x r) q)
fix_right-Fits l leaf k x q sl sr e = absurd (not_low l e)
fix_right-Fits l (node rl rk rx rh rr) k x q sl sr e =
    let r = node rl rk rx rh rr in
    rw (fix_right_if l rl rr rk rx rh k x q) (elim (Bool-cases (ltb rk q)) [
      | inl a ↦ rw a (rotated_left-Fits l r k x sl sr e)
      | inr a ↦ elim (Bool-cases (ltb q rk)) [
        | inl b ↦ rw (a, b) (rotated_left-Fits l r k x sl sr e)
        | inr b ↦ rw (a, b) (Fits-here l r k x q sl sr false)
      ]
    ])

-- The end of `insert`, after the insertion on the left or on the right.
rebalance_if :
    (l r : Tree) (k x q : ℕ)
    → let t = sized l k x r in
      rebalance_insert t q ≡ (
        if ltb (height r + 1) (height l)
        then fix_left t q
        else if ltb (height l + 1) (height r)
        then fix_right t q
        else some t)
unfolding rebalance_insert sized
rebalance_if l r k x q = refl

not_exact :
    {before : ℕ} {o : Option Tree} (e : Bool) → e ≡ false → Fits before false o → Fits before e o
not_exact true p f = cc
not_exact false p f = f

leb-false : (a b : ℕ) → b < a → leb a b ≡ false
leb-false a b h = ground arith

pub rebalance_left-Fits :
    (l r : Tree) (k x q v : ℕ)
    → IsSized l
    → IsSized r
    → height l ≤ height r + 2
    → height r ≤ height l + 1
    → lookup l q ≡ some v
    → Fits
        (suc (max (height l) (height r)))
        (leb (height l) (height r + 1))
        (rebalance_insert (sized l k x r) q)
rebalance_left-Fits l r k x q v sl sr a b f =
    rw (rebalance_if l r k x q) (elim (lt_cases (height r + 1) (height l)) [
      | inl h ↦
          rw (lt→ltb _ _ h)
            (not_exact _ (leb-false _ _ h) (fix_left-Fits l r k x q v sl sr (omega arith) f))
      | inr h ↦ rw (le→ltb _ _ h, le→ltb (height l + 1) (height r) b) (Fits-here l r k x q sl sr _)
    ])

pub rebalance_right-Fits :
    (l r : Tree) (k x q : ℕ)
    → IsSized l
    → IsSized r
    → height r ≤ height l + 2
    → height l ≤ height r + 1
    → Fits
        (suc (max (height l) (height r)))
        (leb (height r) (height l + 1))
        (rebalance_insert (sized l k x r) q)
rebalance_right-Fits l r k x q sl sr a b = rw (rebalance_if l r k x q) (
    rw (le→ltb (height r + 1) (height l) b) (elim (lt_cases (height l + 1) (height r)) [
      | inl h ↦
          rw (lt→ltb _ _ h)
            (not_exact _ (leb-false _ _ h) (fix_right-Fits l r k x q sl sr (omega arith)))
      | inr h ↦ rw (le→ltb _ _ h) (Fits-here l r k x q sl sr _)
    ]))

-- A tree after an insertion into it: at most one level higher, and no level lower.
pub record Grows (t : Tree) (o : Option Tree) : Type 0 where
  pub tree : Tree
  pub is_some : o ≡ some tree
  pub is_sized : IsSized tree
  pub not_lower : height t ≤ height tree
  pub not_higher : height tree ≤ height t + 1
