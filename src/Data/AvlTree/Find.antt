-- ===== src/Data/AvlTree/Find.antt =====
-- `findNode` and `findNodeOrHigher`.
use frosty_os_old.Common.{
  inl, inr, ap, ℕ, ◌≤◌, ◌<◌, ◌≡◌, refl, ◌∙◌, true, false, Option, none, some, if◌then◌else◌, ltb,
  leb, ◌==◌, arith, Bool-cases, leb→le,
}
use frosty_os_old.Data.AvlTree.{Tree, leaf, node, find_node, find_node_or_higher, is_null}
use frosty_os_old.Data.AvlTree.Order.{Below-mono, IsOrdered, lookup, All, Below, Above}

-- The key and the extra data at a pointer.
unfoldable pub entry : Tree → Option (ℕ × ℕ)
entry leaf = none
entry (node l k x h r) = some (k, x)

abbrev pub keyed : ℕ → Option ℕ → Option (ℕ × ℕ)
keyed q none = none
keyed q (some x) = some (q, x)

find_node_null : (t : Tree) (q : ℕ) → is_null t ≡ true → find_node t q ≡ leaf
unfolding find_node
find_node_null leaf q e = refl
find_node_null (node l k x h r) q e = cc

-- The null tests only save a call.
find_node_step :
    (l r : Tree) (k x h q : ℕ)
    → find_node (node l k x h r) q ≡ (
        if k == q
        then node l k x h r
        else if ltb k q
        then find_node r q
        else if ltb q k
        then find_node l q
        else leaf)
unfolding find_node
find_node_step l r k x h q = ground (arith, find_node_null l q, find_node_null r q)

-- On every tree `findNode` leads to the entry that the search by the order of the keys finds, under
-- the key that was asked for, or to null.
pub entry-find_node : (t : Tree) (q : ℕ) → entry (find_node t q) ≡ keyed q (lookup t q)
unfolding lookup entry is_null
entry-find_node leaf q = ap entry (find_node_null leaf q refl)
entry-find_node (node l k x h r) q =
    ap entry (find_node_step l r k x h q) ∙ ground (arith, entry-find_node l q, entry-find_node r q)

-- What `findNodeOrHigher` promises: the entry of the least key that is at least `q`, or null if all
-- keys are below.
abbrev pub IsHigher : Tree → ℕ → Tree → Type 0
IsHigher t q leaf = Below q t
IsHigher t q (node l k x h r) = (q ≤ k) × All (λ j. q ≤ j → k ≤ j) t × (lookup t k ≡ some x)

keyed-some : (q k x : ℕ) (o : Option ℕ) → some (k, x) ≡ keyed q o → (k ≡ q) × (o ≡ some x)
keyed-some q k x none e = cc
keyed-some q k x (some y) e = ground arith

keyed-none : (q : ℕ) (o : Option ℕ) → none ≡ keyed q o → o ≡ none
keyed-none q none e = refl
keyed-none q (some y) e = cc

All-any {ℓ} : {P : ℕ → Type ℓ} → ((j : ℕ) → P j) → (t : Tree) → All P t
All-any f leaf = tt
All-any f (node l k x h r) = (All-any f l, f k, All-any f r)

-- A node that `findNode` leads to has the key, and is an entry of the tree.
find_node-IsHigher :
    (t : Tree) (q : ℕ) → is_null (find_node t q) ≡ false → IsHigher t q (find_node t q)
unfolding is_null entry
find_node-IsHigher t q e = go (find_node t q) e (entry-find_node t q)
  where
    go : (u : Tree) → is_null u ≡ false → entry u ≡ keyed q (lookup t q) → IsHigher t q u
    go leaf e f = cc
    go (node l k x h r) e f =
        let (p, g) = keyed-some q k x (lookup t q) f in
        (omega arith, All-any (λ j a. omega arith) t, ap (lookup t) p ∙ g)

-- No node: the key is not in the tree.
find_node_missing : (t : Tree) (q : ℕ) → is_null (find_node t q) ≡ true → lookup t q ≡ none
unfolding is_null entry
find_node_missing t q e = go (find_node t q) e (entry-find_node t q)
  where
    go : (u : Tree) → is_null u ≡ true → entry u ≡ keyed q (lookup t q) → lookup t q ≡ none
    go leaf e f = keyed-none q (lookup t q) f
    go (node l k x h r) e f = cc

find_node_or_higher_step :
    (l r : Tree) (k x h q : ℕ)
    → let t = node l k x h r in
      find_node_or_higher t q ≡ (
        if is_null (find_node t q)
        then (if leb q k
            then (if is_null (find_node_or_higher l q) then t else find_node_or_higher l q)
            else find_node_or_higher r q)
        else find_node t q)
unfolding find_node_or_higher
find_node_or_higher_step l r k x h q = refl

-- The least key from `q` on, told from the keys on one side of `k`.
least-Below : (q m k : ℕ) (t : Tree) → k ≤ q → Below k t → All (λ j. q ≤ j → m ≤ j) t
least-Below q m k leaf h b = tt
least-Below q m k (node l j x y r) h (a, b, c) =
    (least-Below q m k l h a, (λ d. absurd (omega arith)), least-Below q m k r h c)

least-Above : (q m k : ℕ) (t : Tree) → m ≤ k → Above k t → All (λ j. q ≤ j → m ≤ j) t
least-Above q m k leaf h b = tt
least-Above q m k (node l j x y r) h (a, b, c) =
    (least-Above q m k l h a, (λ d. omega arith), least-Above q m k r h c)

lookup-Below : (t : Tree) (q x b : ℕ) → Below b t → lookup t q ≡ some x → q < b
unfolding lookup
lookup-Below leaf q x b a e = cc
lookup-Below (node l k y h r) q x b a e =
    ground (arith, lookup-Below l q x b a.0, lookup-Below r q x b a.2)

lookup-Above : (t : Tree) (q x b : ℕ) → Above b t → lookup t q ≡ some x → b < q
unfolding lookup
lookup-Above leaf q x b a e = cc
lookup-Above (node l k y h r) q x b a e =
    ground (arith, lookup-Above l q x b a.0, lookup-Above r q x b a.2)

-- The key is missing: the answer lies on the left, at the top or on the right.
module _ (l r : Tree) (k x h q : ℕ) (o : IsOrdered (node l k x h r)) where
  IsHigher-right : (u : Tree) → k < q → IsHigher r q u → IsHigher (node l k x h r) q u
  unfolding lookup
  IsHigher-right leaf a b = (Below-mono k q l (omega arith) o.0, a, b)
  IsHigher-right (node ul uk ux uh ur) a b = (
    b.0,
    (least-Below q uk k l (omega arith) o.0, (λ d. absurd (omega arith)), b.1),
    ground (arith, b.0, b.2),
  )

  IsHigher-left :
      (u : Tree)
      → q ≤ k
      → IsHigher l q u
      → IsHigher (node l k x h r) q (if is_null u then node l k x h r else u)
  unfolding lookup is_null
  IsHigher-left leaf a b = (
    a,
    (least_vacuous l b, (λ d. omega arith), least-Above q k k r (omega arith) o.1),
    ground arith,
  )
    where
      least_vacuous : (t : Tree) → Below q t → All (λ j. q ≤ j → k ≤ j) t
      least_vacuous t c = least-Below q k q t (omega arith) c
  IsHigher-left (node ul uk ux uh ur) a b =
      let low : uk < k = lookup-Below l uk ux k o.0 b.2 in
      (b.0, (b.1, (λ d. omega arith), least-Above q uk k r (omega arith) o.1), ground (arith, b.2))

IsHigher-leaf : (q : ℕ) → IsHigher leaf q (find_node_or_higher leaf q)
unfolding find_node_or_higher
IsHigher-leaf q = tt

-- On an ordered tree `findNodeOrHigher` finds the least key that is at least the one asked for, with
-- its entry, and is null exactly if all keys are below.
pub find_node_or_higher-IsHigher :
    (t : Tree) (q : ℕ) → IsOrdered t → IsHigher t q (find_node_or_higher t q)
find_node_or_higher-IsHigher leaf q o = IsHigher-leaf q
find_node_or_higher-IsHigher (node l k x h r) q o =
    let t = node l k x h r in
    rw (find_node_or_higher_step l r k x h q) (elim (Bool-cases (is_null (find_node t q))) [
      | inr e ↦ rw e (find_node-IsHigher t q e)
      | inl e ↦ elim (Bool-cases (leb q k)) [
        | inl c ↦
            rw (e, c)
              (IsHigher-left l r k x h q o _ (leb→le q k c) (find_node_or_higher-IsHigher l q o.2))
        | inr c ↦
            rw (e, c)
              (IsHigher-right l r k x h q o _ (ground arith) (find_node_or_higher-IsHigher r q o.3))
      ]
    ])
