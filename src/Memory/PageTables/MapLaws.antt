-- ===== src/Memory/PageTables/MapLaws.antt =====
-- kernel/src/arch/x86_64/Memory/PageMapIndexer.cpp: what the walks of the tables give after
-- `x86_64_map_page_noflush`.
use frosty_os_old.Memory.PageTables.Put.{Shape-put, lookup_end, Leads-put, lookup_elsewhere}
use frosty_os_old.Common.{
  ◌+◌, ◌*◌, ◌≤◌, ◌^◌, ◌%◌, ◌/◌, length, inr, subst, inl, ℕ, ◌≡◌, ◌≢◌, true, false, List, [], ◌∷◌,
  some, sym, ◌∙◌, Bool-cases, refl, ap, arith,
}
use frosty_os_old.Memory.PageTables.{
  put, Memory, map_page, flag, spread, map_leaf, write, mapping, Entry, present, is_large, Frames,
  Paging, pml4_index, pdp_index, pd_index, pt_index, walk,
}
use frosty_os_old.Memory.PageTables.Walk.{
  lookup-Leads, walk-lookup, is_leaf, Leads, lookup, answer, page_of,
}
use frosty_os_old.Memory.PageTables.Shape.{Shape, Role, Shape-Leads, FrameLaws}
use frosty_os_old.Memory.PageTables.Map.{arrive, Arrived}

-- A walk that stops at a large page, with the address in its entry.
abbrev pub IsLargePage : Memory → ℕ → ℕ → ℕ → Type 0
IsLargePage t root v a = lookup t [] root (page_of v) ≡ some (some (a, pt_index v ∷ []))

-- Four indices are no more than four.
pub same_page :
    (a b c d : ℕ) (is rest : List ℕ)
    → length is ≡ 4
    → is ≡ a ∷ b ∷ c ∷ d ∷ rest
    → a ∷ b ∷ c ∷ d ∷ [] ≡ is
same_page a b c d is [] n e = sym e
same_page a b c d is (x ∷ rest) n e = let m = ap length e in ground (arith, m, n)

-- A lookup in a last table does not stop at a large page.
lookup_last :
    (t : Memory) (f i j k l a : ℕ) → lookup t (i ∷ j ∷ k ∷ []) f (l ∷ []) ≢ some (some (a, l ∷ []))
unfolding lookup is_leaf
lookup_last t f i j k l a e = ground (arith, e)

module _ {A : Type 0} (fr : Frames A) (laws : FrameLaws fr) (root flags v : ℕ) (s : Paging A)
    (x : Arrived fr laws root flags v s) where
  -- The walk comes to the entry of the page directory.
  lookup-arrived :
      lookup x.after.tables [] root (page_of v)
      ≡ lookup x.after.tables (pdp_index v ∷ pml4_index v ∷ []) x.t2 (pd_index v ∷ pt_index v ∷ [])
  lookup-arrived =
      lookup-Leads x.after.tables [] (pdp_index v ∷ pd_index v ∷ pt_index v ∷ []) root
        (pml4_index v) x.t3 x.leads4
      ∙ lookup-Leads x.after.tables (pml4_index v ∷ []) (pd_index v ∷ pt_index v ∷ []) x.t3
          (pdp_index v) x.t2 x.leads3

  arrived_large : is_large x.entry ≡ true → IsLargePage s.tables root v x.entry.address
  unfolding lookup is_leaf
  arrived_large l =
      let (p, g, a) = x.placed in
      sym (x.lookups (page_of v)) ∙ lookup-arrived ∙ rw (p, x.there, g, l, a) refl

  arrived_small : ((a : ℕ) → ¬ IsLargePage s.tables root v a) → is_large x.entry ≡ false
  arrived_small none_large = elim (Bool-cases (is_large x.entry)) [
    | inl l ↦ elim (none_large x.entry.address (arrived_large l)) [ ]
    | inr l ↦ l
  ]

  module _ (small : is_large x.entry ≡ false) where
    arrived-Leads :
        Leads x.after.tables (pdp_index v ∷ pml4_index v ∷ []) x.t2 (pd_index v) x.entry.address
    unfolding is_leaf
    arrived-Leads =
        let (p, g, a) = x.placed in
        subst (λ n. Leads x.after.tables (pdp_index v ∷ pml4_index v ∷ []) x.t2 (pd_index v) n) a
          (Shape-Leads laws.Free root x.role x.after x.shape x.t2 (pd_index v)
            (pdp_index v ∷ pml4_index v ∷ []) x.role2 (p ∙ x.there) (g ∙ small))

    arrived_role : x.role x.entry.address ≡ some (pd_index v ∷ pdp_index v ∷ pml4_index v ∷ [])
    unfolding is_leaf
    arrived_role =
        let (p, g, a) = x.placed in
        ap x.role (sym a)
        ∙ x.shape.closed x.t2 (pd_index v) (pdp_index v ∷ pml4_index v ∷ []) x.role2 (p ∙ x.there)
            (g ∙ small)

    module _ (m : Entry) where
      abbrev written : Memory
      written = put x.after.tables x.entry.address (pt_index v) m

      written-lookup :
          present m ≡ true → lookup written [] root (page_of v) ≡ some (some (m.address, []))
      unfolding is_leaf
      written-lookup p =
          let keep =
            Leads-put laws.Free root x.role x.after x.shape
              (pd_index v ∷ pdp_index v ∷ pml4_index v ∷ []) x.entry.address (pt_index v)
              arrived_role m in
          lookup-Leads written [] (pdp_index v ∷ pd_index v ∷ pt_index v ∷ []) root (pml4_index v)
            x.t3 (keep root (pml4_index v) x.t3 [] x.shape.rooted (λ e. cc) x.leads4)
          ∙ lookup-Leads written (pml4_index v ∷ []) (pd_index v ∷ pt_index v ∷ []) x.t3
              (pdp_index v) x.t2
              (keep x.t3 (pdp_index v) x.t2 (pml4_index v ∷ []) x.role3 (λ e. cc) x.leads3)
          ∙ lookup-Leads written (pdp_index v ∷ pml4_index v ∷ []) (pt_index v ∷ []) x.t2
              (pd_index v) x.entry.address
              (keep x.t2 (pd_index v) x.entry.address (pdp_index v ∷ pml4_index v ∷ []) x.role2
                (λ e. cc) arrived-Leads)
          ∙ lookup_end laws.Free root x.role x.after x.shape
              (pd_index v ∷ pdp_index v ∷ pml4_index v ∷ []) x.entry.address (pt_index v)
              arrived_role m [] p refl

      written-other : (w : ℕ) → page_of v ≢ page_of w → walk written root w ≡ walk s.tables root w
      written-other w ne =
          walk-lookup written w root
          ∙ ap (answer w) (
              lookup_elsewhere laws.Free root x.role x.after x.shape
                (pd_index v ∷ pdp_index v ∷ pml4_index v ∷ []) x.entry.address (pt_index v)
                arrived_role m (page_of w)
                (λ rest e. ne (
                  same_page (pml4_index v) (pdp_index v) (pd_index v) (pt_index v) (page_of w) rest
                    refl e))
              ∙ x.lookups (page_of w))
          ∙ sym (walk-lookup s.tables w root)

  arrived_is_large : (a : ℕ) → IsLargePage s.tables root v a → is_large x.entry ≡ true
  arrived_is_large a large = elim (Bool-cases (is_large x.entry)) [
    | inl l ↦ l
    | inr l ↦
        let on =
          lookup-Leads x.after.tables (pdp_index v ∷ pml4_index v ∷ []) (pt_index v ∷ []) x.t2
            (pd_index v) x.entry.address (arrived-Leads l) in
        let same = sym large ∙ sym (x.lookups (page_of v)) ∙ lookup-arrived ∙ on in
        elim (lookup_last x.after.tables x.entry.address (pd_index v) (pdp_index v) (pml4_index v)
          (pt_index v) a (sym same)) [ ]
  ]

module _ {A : Type 0} (fr : Frames A) (laws : FrameLaws fr) (root flags physical v : ℕ)
    (role : Role) (s : Paging A) where
  mapping-present : flag flags 0 ≡ true → present (mapping flags physical) ≡ true
  unfolding mapping spread
  mapping-present h = rw h refl

  mapping-address : (mapping flags physical).address ≡ physical / 4096 % 2 ^ 40
  unfolding mapping
  mapping-address = refl

  -- In tables that hang together, with three frames to spare, for flags that set the present bit and not
  -- the page size bit, and an address that no large page maps: `map_page` ends, the address is then
  -- mapped to its offset in the physical page, every address of another page is mapped as before, and the
  -- tables still hang together.
  pub map_page-walk :
      Shape laws.Free root role s
      → flag flags 0 ≡ true
      → flag flags 7 ≡ false
      → 3 ≤ laws.spare s.frames
      → ((a : ℕ) → ¬ IsLargePage s.tables root v a)
      → (t : Paging A) × (map_page fr root physical v flags s ≡ some t)
        × (walk t.tables root v ≡ some (physical / 4096 % 2 ^ 40 * 4096 + v % 4096))
        × ((w : ℕ) → page_of v ≢ page_of w → walk t.tables root w ≡ walk s.tables root w)
        × (r : Role) × Shape laws.Free root r t
  unfolding map_leaf answer is_leaf
  map_page-walk shape on small h none_large =
      let x = arrive fr laws root flags v role s small shape (omega (arith, h)) h in
      let l = arrived_small fr laws root flags v s x none_large in
      let m = mapping flags physical in
      let hangs = arrived_role fr laws root flags v s x l in
      let seen =
        x.shape.within x.entry.address (pd_index v ∷ pdp_index v ∷ pml4_index v ∷ []) hangs in
      (
        write x.entry.address (pt_index v) m x.after,
        x.runs physical ∙ rw (l, seen) refl,
        walk-lookup (written fr laws root flags v s x l m) v root
            ∙ ap (answer v) (written-lookup fr laws root flags v s x l m (mapping-present on))
            ∙ ap (λ a. some (a * 4096 + v % 4096)) mapping-address,
        written-other fr laws root flags v s x l m,
        x.role,
        Shape-put laws.Free root x.role x.after x.shape
            (pd_index v ∷ pdp_index v ∷ pml4_index v ∷ []) x.entry.address (pt_index v) hangs m
            (λ p. refl),
      )

  -- In tables that hang together, with three frames to spare and flags without the page size bit, for an
  -- address that a large page maps: `map_page` ends and every address is mapped as before.
  pub map_page-large :
      (a : ℕ)
      → Shape laws.Free root role s
      → flag flags 7 ≡ false
      → 3 ≤ laws.spare s.frames
      → IsLargePage s.tables root v a
      → (t : Paging A) × (map_page fr root physical v flags s ≡ some t)
        × ((w : ℕ) → walk t.tables root w ≡ walk s.tables root w)
  unfolding map_leaf
  map_page-large a shape small h large =
      let x = arrive fr laws root flags v role s small shape (omega (arith, h)) h in
      let l = arrived_is_large fr laws root flags v s x a large in
      (
        x.after,
        x.runs physical ∙ rw l refl,
        λ w.
            walk-lookup x.after.tables w root
            ∙ ap (answer w) (x.lookups (page_of w))
            ∙ sym (walk-lookup s.tables w root),
      )
