-- ===== src/Data/NodePool/Laws.antt =====
-- What the pool of nodes promises: a node that is handed out was free, and comes back by its address.
use frosty_os_old.Common.{
  update_ne, sym, subst, test_bit, fun_ext, ◌≢◌, ℕ, zero, suc, ◌+◌, ◌*◌, ◌≤◌, ◌<◌, ◌≡◌, ◌⊎◌, inl,
  inr, Bool, true, false, none, some, add64, sub64, update, count_true, arith, refl, u64_mod,
  count_true-update-true, count_true-update-false, count_true_all, Option-cases, eq_cases, ap, ◌∙◌,
}
use native.Mathlib.Nat.{mul-lt-mul_of_pos_right}
use frosty_os_old.Data.Bitmap.{Bitmap, get, set}
use frosty_os_old.Data.Bitmap.Laws.{IsBytes, set-IsBytes, get-set_in, set_size_same}
use frosty_os_old.Data.NodePool.{
  init, Pool, pool_size, node_at, first_clear, allocate_node, index_of, free_node, is_in_pool,
}

-- The counter is the number of marked nodes, one node is always left, and the array lies in memory.
pub record IsPool (p : Pool) : Type 0 where
  pub bytes : IsBytes p.bitmap
  pub is_sized : p.bitmap.size ≡ pool_size
  pub counted : p.used_count ≡ count_true (get p.bitmap) pool_size
  pub has_room : p.used_count ≤ 127
  pub node_size_pos : 0 < p.node_size
  pub base_pos : 0 < p.base
  pub in_memory : p.base + pool_size * p.node_size < u64_mod

-- The node of that index has become marked or clear, and no other.
pub record Marks (p : Pool) (i : ℕ) (v : Bool) (q : Pool) : Type 0 where
  pub bits : get q.bitmap ≡ update (get p.bitmap) i v
  pub is_pool : IsPool q

first_clear-some :
    (m : Bitmap) (rounds i k : ℕ)
    → first_clear m rounds i ≡ some k
    → (k < i + rounds) × (get m k ≡ false)
unfolding first_clear
first_clear-some m zero i k e = cc
first_clear-some m (suc rounds) i k e = ground (arith, first_clear-some m rounds (i + 1) k)

first_clear-none :
    (m : Bitmap) (rounds i j : ℕ)
    → first_clear m rounds i ≡ none
    → i ≤ j
    → j < i + rounds
    → get m j ≡ true
unfolding first_clear
first_clear-none m zero i j e h k = absurd (omega arith)
first_clear-none m (suc rounds) i j e h k = elim (eq_cases i j) [
  | inl s ↦ ground arith
  | inr n ↦ ground (arith, first_clear-none m rounds (i + 1) j)
]

module _ (p : Pool) (i : ℕ) (v : IsPool p) (h : i < pool_size) where
  in_range : i < p.bitmap.size * 8
  in_range = omega (arith, v.is_sized)

  bits_set : (b : Bool) → get (set p.bitmap i b) ≡ update (get p.bitmap) i b
  bits_set b = get-set_in p.bitmap i b v.bytes in_range

  Marks-true :
      get p.bitmap i ≡ false
      → p.used_count < 127
      → Marks p i true
          (record p { bitmap = set p.bitmap i true; used_count = add64 p.used_count 1 })
  unfolding add64
  Marks-true e few = record {
    bits = bits_set true;
    is_pool = record {
      bytes = set-IsBytes p.bitmap i true v.bytes;
      is_sized = set_size_same p.bitmap i true ∙ v.is_sized;
      counted = omega (
        arith,
        v.counted,
        ap (λ f. count_true f pool_size) (bits_set true),
        count_true-update-true (get p.bitmap) i pool_size h e,
      );
      has_room = omega arith;
      node_size_pos = v.node_size_pos;
      base_pos = v.base_pos;
      in_memory = v.in_memory;
    };
  }

  Marks-false :
      get p.bitmap i ≡ true
      → Marks p i false
          (record p { bitmap = set p.bitmap i false; used_count = sub64 p.used_count 1 })
  unfolding sub64
  Marks-false e =
      let less = count_true-update-false (get p.bitmap) i pool_size h e in
      record {
        bits = bits_set false;
        is_pool = record {
          bytes = set-IsBytes p.bitmap i false v.bytes;
          is_sized = set_size_same p.bitmap i false ∙ v.is_sized;
          counted = omega (
            arith,
            v.counted,
            v.has_room,
            ap (λ f. count_true f pool_size) (bits_set false),
            less,
          );
          has_room = omega (arith, v.counted, v.has_room, less);
          node_size_pos = v.node_size_pos;
          base_pos = v.base_pos;
          in_memory = v.in_memory;
        };
      }

abbrev pub TakesNode : Pool → Type 0
TakesNode p =
    ((p.used_count ≡ 127) × (allocate_node p ≡ (0, p)))
    ⊎ ((i : ℕ) × (q : Pool) × (i < pool_size)
        × (get p.bitmap i ≡ false)
        × (allocate_node p ≡ (node_at p i, q))
        × (is_in_pool p (node_at p i) ≡ true)
        × Marks p i true q)

node_at-inside : (p : Pool) (i : ℕ) → IsPool p → i < pool_size → is_in_pool p (node_at p i) ≡ true
unfolding is_in_pool add64
node_at-inside p i v h =
    let product : i * p.node_size < pool_size * p.node_size =
      mul-lt-mul_of_pos_right h v.node_size_pos in
    ground (arith, product, v.in_memory)

-- From a pool that meets the invariant, `NodePool_AllocateNode` returns null and changes nothing
-- exactly where 127 nodes are in use, else it returns the address of a node of the pool that was
-- free; that node is marked, no other changes, and the invariant holds again.
pub allocate_node-TakesNode : (p : Pool) → IsPool p → TakesNode p
unfolding allocate_node
allocate_node-TakesNode p v = elim (eq_cases p.used_count 127) [
  | inl e ↦ inl (e, ground arith)
  | inr n ↦ elim (Option-cases (first_clear p.bitmap pool_size 0)) [
    | inl e ↦ absurd (
        omega (
          arith,
          n,
          v.counted,
          v.has_room,
          count_true_all (get p.bitmap) pool_size
              (λ i h. first_clear-none p.bitmap pool_size 0 i e (omega arith) h),
        ))
    | inr (i, e) ↦
        let (h, free) = first_clear-some p.bitmap pool_size 0 i e in
        inr (
          i,
          _,
          h,
          free,
          ground (arith, e, n),
          node_at-inside p i v h,
          Marks-true p i v h free (omega (arith, n, v.has_room)),
        )
  ]
]

node_at-lt : (p : Pool) (i j : ℕ) → IsPool p → j < i → node_at p j < node_at p i
node_at-lt p i j v h =
    let product : j * p.node_size < i * p.node_size = mul-lt-mul_of_pos_right h v.node_size_pos in
    omega (arith, product)

index_of-node_at :
    (p : Pool) (i rounds j : ℕ)
    → IsPool p
    → j ≤ i
    → i < j + rounds
    → index_of p (node_at p i) rounds j ≡ some i
unfolding index_of
index_of-node_at p i zero j v h k = absurd (omega arith)
index_of-node_at p i (suc rounds) j v h k = elim (eq_cases i j) [
  | inl e ↦ ground (arith, e)
  | inr n ↦
      ground
        (arith, n, node_at-lt p i j v (omega (arith, n)), index_of-node_at p i rounds (j + 1) v)
]

-- From a pool that meets the invariant, for the address of a node in use: `NodePool_FreeNode` says yes,
-- clears that node's bit and no other, and keeps the invariant.
free_node-Marks :
    (p : Pool) (i : ℕ)
    → IsPool p
    → i < pool_size
    → get p.bitmap i ≡ true
    → (q : Pool) × (free_node p (node_at p i) ≡ (true, q)) × Marks p i false q
unfolding free_node
free_node-Marks p i v h e = (
  _,
  rw (index_of-node_at p i pool_size 0 v (omega arith) (omega arith), free_node) refl,
  Marks-false p i v h e,
)

-- `NodePool_Init`, for a memory of bytes, and an array of nodes that lies in memory: all nodes are
-- free, and the invariant holds.
pub init-IsPool :
    (p : Pool) (memory : ℕ → ℕ)
    → ((i : ℕ) → memory i < 256)
    → 0 < p.node_size
    → 0 < p.base
    → p.base + pool_size * p.node_size < u64_mod
    → IsPool (init p memory) × (count_true (get (init p memory).bitmap) pool_size ≡ 0)
unfolding init get count_true test_bit
init-IsPool p memory b n a m = (
  record {
    bytes = λ i. ground (arith, b i);
    is_sized = refl;
    counted = refl;
    has_room = omega arith;
    node_size_pos = n;
    base_pos = a;
    in_memory = m;
  },
  refl,
)

index_of-other :
    (p : Pool) (node rounds j : ℕ)
    → ((i : ℕ) → i < j + rounds → node ≢ node_at p i)
    → index_of p node rounds j ≡ none
unfolding index_of
index_of-other p node zero j h = refl
index_of-other p node (suc rounds) j h =
    ground
      (arith, h j (omega arith), index_of-other p node rounds (j + 1) (λ i k. h i (omega arith)))

-- For an address that is not that of a node of the pool, `NodePool_FreeNode` says no and changes nothing.
free_node-other :
    (p : Pool) (node : ℕ)
    → ((i : ℕ) → i < pool_size → node ≢ node_at p i)
    → free_node p node ≡ (false, p)
unfolding free_node
free_node-other p node h = rw (index_of-other p node pool_size 0 h, free_node) refl

count_true-same :
    (p : Pool) (i : ℕ)
    → get p.bitmap i ≡ false
    → count_true (update (get p.bitmap) i false) pool_size ≡ count_true (get p.bitmap) pool_size
count_true-same p i e =
    ap (λ f. count_true f pool_size)
      (fun_ext λ j. elim (eq_cases j i) [
        | inl s ↦ ground (arith, subst (λ x. get p.bitmap x ≡ false) (sym s) e, s)
        | inr n ↦ update_ne (get p.bitmap) i j false n
      ])

-- From a pool that meets the invariant, for the address of a node that is free already:
-- `NodePool_FreeNode` says yes, and the counter is not the number of marked nodes any more.
free_node-twice :
    (p : Pool) (i : ℕ)
    → IsPool p
    → i < pool_size
    → get p.bitmap i ≡ false
    → (q : Pool) × (free_node p (node_at p i) ≡ (true, q))
      × (q.used_count ≢ count_true (get q.bitmap) pool_size)
unfolding free_node sub64
free_node-twice p i v h e = (
  record p { bitmap = set p.bitmap i false; used_count = sub64 p.used_count 1 },
  rw (index_of-node_at p i pool_size 0 v (omega arith) (omega arith), free_node) refl,
  λ c. omega (
    arith,
    c,
    v.counted,
    v.has_room,
    ap (λ f. count_true f pool_size) (bits_set p i v h false),
    count_true-same p i e,
  ),
)
