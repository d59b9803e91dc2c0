-- ===== src/Memory/PageTables/Walk.antt =====
-- kernel/src/arch/x86_64/Memory/PageMapIndexer.cpp: the walk of the tables as one recursion on the indices
-- in an address, which the lemmas of the operations use.
use frosty_os_old.Common.{
  eq_cases, ne→==, ◌≢◌, ◌⊎◌, eq→==, sym, inr, inl, Bool-cases, ℕ, ◌+◌, ◌*◌, ◌/◌, ◌%◌, ◌^◌, ◌≡◌,
  refl, Bool, true, false, if◌then◌else◌, List, [], ◌∷◌, Option, none, some,
}
use frosty_os_old.Common.Partial.{bind_same, ◌>>=◌}
use frosty_os_old.Memory.PageTables.{
  put, Memory, Entry, present, is_large, pml4_index, pdp_index, pd_index, pt_index, reach, walk,
  walk_pdp, walk_pd, walk_pt,
}

-- Whether the walk stops at an entry of the table that the indices `path`, the last one first, lead to.
unfoldable pub is_leaf : List ℕ → Entry → Bool
is_leaf [] e = false
is_leaf (i ∷ []) e = false
is_leaf (i ∷ j ∷ []) e = is_large e
is_leaf (i ∷ j ∷ k ∷ path) e = true

-- The address in the entry where the walk stops and the indices that are left; `none` inside where
-- there is no such entry, `none` outside for an access through null.
unfoldable pub lookup : Memory → List ℕ → ℕ → List ℕ → Option (Option (ℕ × List ℕ))
unfolding reach is_leaf
lookup t path table [] = some none
lookup t path table (i ∷ is) =
    let rest = (reach (t table i).address >>= λ next. lookup t (i ∷ path) next is) in
    if present (t table i)
    then if is_leaf path (t table i) then some (some ((t table i).address, is)) else rest
    else some none

-- The indices of the page of an address.
abbrev pub page_of : ℕ → List ℕ
page_of v = pml4_index v ∷ pdp_index v ∷ pd_index v ∷ pt_index v ∷ []

-- The physical address that a lookup gives for `v`.
unfoldable pub answer : ℕ → Option (Option (ℕ × List ℕ)) → Option ℕ
answer v none = none
answer v (some none) = some 0
answer v (some (some (a, []))) = some (a * 4096 + v % 4096)
answer v (some (some (a, i ∷ is))) = some (a / 512 * 2 ^ 21 + i * 4096 + v % 4096)

module _ (t : Memory) (v : ℕ) where
  -- The answer of the rest of a walk, where it gets there.
  answer-onward :
      (o : Option ℕ) (f : ℕ → Option ℕ) (g : ℕ → Option (Option (ℕ × List ℕ)))
      → ((n : ℕ) → f n ≡ answer v (g n))
      → (o >>= f) ≡ answer v (o >>= g)
  unfolding answer
  answer-onward none f g same = refl
  answer-onward (some n) f g same = same n

  walk_pt-lookup :
      (table i j k : ℕ)
      → walk_pt t table v ≡ answer v (lookup t (i ∷ j ∷ k ∷ []) table (pt_index v ∷ []))
  unfolding walk_pt lookup answer is_leaf
  walk_pt-lookup table i j k = elim (Bool-cases (present (t table (pt_index v)))) [
    | inl e ↦ rw e refl
    | inr e ↦ rw e refl
  ]

  walk_pd-lookup :
      (table j k : ℕ)
      → walk_pd t table v ≡ answer v (lookup t (j ∷ k ∷ []) table (pd_index v ∷ pt_index v ∷ []))
  unfolding walk_pd lookup answer is_leaf
  walk_pd-lookup table j k = elim (Bool-cases (present (t table (pd_index v)))) [
    | inl e ↦ elim (Bool-cases (is_large (t table (pd_index v)))) [
      | inl l ↦ rw (e, l) refl
      | inr l ↦
          rw (e, l)
            (answer-onward (reach (t table (pd_index v)).address) (λ n. walk_pt t n v)
              (λ n. lookup t (pd_index v ∷ j ∷ k ∷ []) n (pt_index v ∷ []))
              (λ n. walk_pt-lookup n (pd_index v) j k))
    ]
    | inr e ↦ rw e refl
  ]

  walk_pdp-lookup :
      (table k : ℕ)
      → walk_pdp t table v
        ≡ answer v (lookup t (k ∷ []) table (pdp_index v ∷ pd_index v ∷ pt_index v ∷ []))
  unfolding walk_pdp lookup answer is_leaf
  walk_pdp-lookup table k = elim (Bool-cases (present (t table (pdp_index v)))) [
    | inl e ↦ rw e (
        answer-onward (reach (t table (pdp_index v)).address) (λ n. walk_pd t n v)
          (λ n. lookup t (pdp_index v ∷ k ∷ []) n (pd_index v ∷ pt_index v ∷ []))
          (λ n. walk_pd-lookup n (pdp_index v) k))
    | inr e ↦ rw e refl
  ]

  -- The walk of the code is the recursion.
  pub walk-lookup : (root : ℕ) → walk t root v ≡ answer v (lookup t [] root (page_of v))
  unfolding walk lookup answer is_leaf
  walk-lookup root = elim (Bool-cases (present (t root (pml4_index v)))) [
    | inl e ↦ rw e (
        answer-onward (reach (t root (pml4_index v)).address) (λ n. walk_pdp t n v)
          (λ n. lookup t (pml4_index v ∷ []) n (pdp_index v ∷ pd_index v ∷ pt_index v ∷ []))
          (λ n. walk_pdp-lookup n (pml4_index v)))
    | inr e ↦ rw e refl
  ]

-- Entries that the walk does not tell apart.
abbrev pub Alike : Entry → Entry → Type 0
Alike e f = (present e ≡ present f) × (is_large e ≡ is_large f) × (e.address ≡ f.address)

pub is_leaf-Alike :
    (path : List ℕ) (e f : Entry) → is_large e ≡ is_large f → is_leaf path e ≡ is_leaf path f
unfolding is_leaf
is_leaf-Alike [] e f h = refl
is_leaf-Alike (i ∷ []) e f h = refl
is_leaf-Alike (i ∷ j ∷ []) e f h = h
is_leaf-Alike (i ∷ j ∷ k ∷ path) e f h = refl

-- One step of a lookup, for entries that are alike and rests that agree.
pub lookup_step :
    (t u : Memory) (path is : List ℕ) (f g i : ℕ)
    → Alike (t f i) (u g i)
    → (present (t f i) ≡ true
        → is_leaf path (t f i) ≡ false
        → (n : ℕ) → reach (t f i).address ≡ some n
        → lookup t (i ∷ path) n is ≡ lookup u (i ∷ path) n is)
    → lookup t path f (i ∷ is) ≡ lookup u path g (i ∷ is)
unfolding lookup
lookup_step t u path is f g i (p, l, a) rest = elim (Bool-cases (present (t f i))) [
  | inr e ↦ rw (sym p, e) refl
  | inl e ↦ elim (Bool-cases (is_leaf path (t f i))) [
    | inl l' ↦ rw (sym p, e, sym (is_leaf-Alike path (t f i) (u g i) l), l', a) refl
    | inr l' ↦
        rw (sym p, e, sym (is_leaf-Alike path (t f i) (u g i) l), l', sym a)
          (bind_same (reach (t f i).address) (λ n. lookup t (i ∷ path) n is)
            (λ n. lookup u (i ∷ path) n is) (rest e l'))
  ]
]

-- Tables that are alike everywhere give the same walks.
pub lookup-Alike :
    (t u : Memory)
    → ((f i : ℕ) → Alike (t f i) (u f i))
    → (path is : List ℕ) (f : ℕ) → lookup t path f is ≡ lookup u path f is
unfolding lookup
lookup-Alike t u same path [] f = refl
lookup-Alike t u same path (i ∷ is) f =
    lookup_step t u path is f f i (same f i) (λ e l n r. lookup-Alike t u same (i ∷ path) is n)

-- An entry that a lookup passes through.
pub record Leads (t : Memory) (path : List ℕ) (f i next : ℕ) : Type 0 where
  pub there : present (t f i) ≡ true
  pub inner : is_leaf path (t f i) ≡ false
  pub to : (t f i).address ≡ next
  pub seen : reach next ≡ some next

pub lookup-Leads :
    (t : Memory) (path is : List ℕ) (f i next : ℕ)
    → Leads t path f i next
    → lookup t path f (i ∷ is) ≡ lookup t (i ∷ path) next is
unfolding lookup
lookup-Leads t path is f i next l = rw (l.there, l.inner, l.to, l.seen) refl

pub put_self : (t : Memory) (f i : ℕ) (e : Entry) → put t f i e f i ≡ e
put_self t f i e = rw (eq→== f f refl, eq→== i i refl) refl

pub put_ne : (t : Memory) (f i g j : ℕ) (e : Entry) → g ≢ f → put t f i e g j ≡ t g j
put_ne t f i g j e ne = rw (ne→== g f ne) refl

pub put_cases :
    (t : Memory) (f i g j : ℕ) (e : Entry)
    → ((g ≡ f) × (j ≡ i) × (put t f i e g j ≡ e)) ⊎ (put t f i e g j ≡ t g j)
put_cases t f i g j e = elim (eq_cases g f) [
  | inr ne ↦ inr (put_ne t f i g j e ne)
  | inl q ↦ elim (eq_cases j i) [
    | inl q' ↦ inl (q, q', rw (eq→== g f q, eq→== j i q') refl)
    | inr ne ↦ inr (rw (eq→== g f q, ne→== j i ne, q) refl)
  ]
]

pub lookup-none :
    (t : Memory) (path is : List ℕ) (f i : ℕ)
    → present (t f i) ≡ false
    → lookup t path f (i ∷ is) ≡ some none
unfolding lookup
lookup-none t path is f i e = rw e refl
