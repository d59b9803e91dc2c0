-- ===== src/Data/AvlTree/Insert.antt =====
-- `insert`: it never dereferences null, and the tree it leaves.
use frosty_os_old.Common.{
  ℕ, ◌<◌, ◌≡◌, refl, ◌∙◌, Bool, true, false, Option, none, some, if◌then◌else◌, ltb, ◌==◌, arith,
  ltb→lt, ltb→le,
}
use frosty_os_old.Common.Partial.{◌>>=◌}
use frosty_os_old.Data.AvlTree.{Tree, leaf, node, sized, rebalance_insert, insert}
use frosty_os_old.Data.AvlTree.Order.{
  All, IsOrdered, lookup, Keeps, MayKeep, rebalance_insert-Keeps,
}

-- An entry that is there stays; a new one is made if there is room for a node.
abbrev pub entered : Bool → Option ℕ → ℕ → Option ℕ
entered room (some x) w = some x
entered true none w = some w
entered false none w = none

pub record Inserts (room : Bool) (t : Tree) (q w : ℕ) (u : Tree) : Type 1 where
  pub all : (P : ℕ → Type 0) → P q → All P t → All P u
  pub order : IsOrdered t → IsOrdered u
  pub entries :
      IsOrdered t
      → (p : ℕ) → lookup u p ≡ (if p == q then entered room (lookup t q) w else lookup t p)

abbrev pub MayInsert : Bool → Tree → ℕ → ℕ → Option Tree → Type 1
MayInsert room t q w none = Unit
MayInsert room t q w (some u) = Inserts room t q w u

Inserts-Keeps :
    {room : Bool} {t : Tree} {q w : ℕ} {u v : Tree}
    → Inserts room t q w u
    → Keeps u v
    → Inserts room t q w v
Inserts-Keeps a b = record {
  all = λ P p m. b.all P (a.all P p m);
  order = λ o. b.order (a.order o);
  entries = λ o p. b.entries (a.order o) p ∙ a.entries o p;
}

MayInsert-Keeps :
    {room : Bool} {t : Tree} {q w : ℕ} {u : Tree}
    → Inserts room t q w u
    → (o : Option Tree) → MayKeep u o
    → MayInsert room t q w o
MayInsert-Keeps a none m = tt
MayInsert-Keeps a (some v) m = Inserts-Keeps a m

module _ (room : Bool) (l r : Tree) (k x h q w : ℕ) where
  Inserts-left :
      (l' : Tree)
      → q < k
      → Inserts room l q w l'
      → Inserts room (node l k x h r) q w (sized l' k x r)
  unfolding lookup sized
  Inserts-left l' lt a = record {
    all = λ P p m. (a.all P p m.0, m.1, m.2);
    order = λ o. (a.all (λ j. j < k) lt o.0, o.1, a.order o.2, o.3);
    entries = λ o p. ground (arith, a.entries o.2 p);
  }

  Inserts-right :
      (r' : Tree)
      → k < q
      → Inserts room r q w r'
      → Inserts room (node l k x h r) q w (sized l k x r')
  unfolding lookup sized
  Inserts-right r' lt a = record {
    all = λ P p m. (m.0, m.1, a.all P p m.2);
    order = λ o. (o.0, a.all (λ j. k < j) lt o.1, o.2, a.order o.3);
    entries = λ o p. ground (arith, a.entries o.3 p);
  }

  Inserts-none : q ≡ k → Inserts room (node l k x h r) q w (node l k x h r)
  unfolding lookup
  Inserts-none e = record { all = λ P p m. m; order = λ o. o; entries = λ o p. ground arith }

  MayInsert-left :
      (o : Option Tree)
      → q < k
      → MayInsert room l q w o
      → MayInsert room (node l k x h r) q w (o >>= λ l'. rebalance_insert (sized l' k x r) q)
  MayInsert-left none lt m = tt
  MayInsert-left (some l') lt m =
      MayInsert-Keeps (Inserts-left l' lt m) (rebalance_insert (sized l' k x r) q)
        (rebalance_insert-Keeps (sized l' k x r) q)

  MayInsert-right :
      (o : Option Tree)
      → k < q
      → MayInsert room r q w o
      → MayInsert room (node l k x h r) q w (o >>= λ r'. rebalance_insert (sized l k x r') q)
  MayInsert-right none lt m = tt
  MayInsert-right (some r') lt m =
      MayInsert-Keeps (Inserts-right r' lt m) (rebalance_insert (sized l k x r') q)
        (rebalance_insert-Keeps (sized l k x r') q)

MayInsert-if :
    (room b : Bool) (t : Tree) (q w : ℕ) (m n : Option Tree)
    → (b ≡ true → MayInsert room t q w m)
    → (b ≡ false → MayInsert room t q w n)
    → MayInsert room t q w (if b then m else n)
MayInsert-if room true t q w m n a b = a refl
MayInsert-if room false t q w m n a b = b refl

insert_new :
    (q w : ℕ) (room : Bool) → Inserts room leaf q w (if room then node leaf q w 1 leaf else leaf)
unfolding lookup
insert_new q w true = record {
  all = λ P p m. (tt, p, tt);
  order = λ o. (tt, tt, tt, tt);
  entries = λ o p. ground arith;
}
insert_new q w false = record { all = λ P p m. tt; order = λ o. tt; entries = λ o p. ground arith }

pub insert-MayInsert : (room : Bool) (t : Tree) (q w : ℕ) → MayInsert room t q w (insert room t q w)
unfolding insert
insert-MayInsert room leaf q w = insert_new q w room
insert-MayInsert room (node l k x h r) q w =
    MayInsert-if room (ltb q k) _ q w _ _
      (λ e.
        MayInsert-left room l r k x h q w (insert room l q w) (ltb→lt q k e)
          (insert-MayInsert room l q w))
      (λ a.
        MayInsert-if room (ltb k q) _ q w _ _
          (λ e.
            MayInsert-right room l r k x h q w (insert room r q w) (ltb→lt k q e)
              (insert-MayInsert room r q w))
          (λ b. Inserts-none room l r k x h q w (omega (arith, ltb→le q k a, ltb→le k q b))))
