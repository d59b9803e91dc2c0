-- ===== src/Memory/PageTables/Link.antt =====
-- kernel/src/arch/x86_64/Memory/PageMapIndexer.cpp: one level on the way of `x86_64_map_page_noflush` where
-- the entry is absent: a new table is linked.
use frosty_os_old.Common.{
  eq_cases, [], update_ne, update_self, ◌∙◌, sym, update, subst, ap, ◌*◌, ◌∷◌, ◌⊎◌, ◌≢◌, none, inr,
  inl, ℕ, ◌≤◌, ◌≡◌, true, false, List, some, refl, arith,
}
use frosty_os_old.Memory.PageTables.{
  put, Memory, zero_entry, linking, is_large, Entry, present, Frames, Paging, enter, flag, spread,
}
use frosty_os_old.Memory.PageTables.Walk.{
  lookup_step, lookup-Leads, put_ne, Leads, put_self, is_leaf, put_cases, Alike, lookup,
}
use frosty_os_old.Memory.PageTables.Shape.{TakesFrame, FrameLaws, Role, Shape}
use frosty_os_old.Memory.PageTables.Enter.{Entered, reach_eq, reach_lt}

-- An entry that is absent, a frame to spare, and a level above the last.
module _ {A : Type 0} (fr : Frames A) (laws : FrameLaws fr) (root flags table index : ℕ)
    (role : Role) (s : Paging A) (v : Shape laws.Free root role s) (small : flag flags 7 ≡ false)
    (path : List ℕ) (here : role table ≡ some path)
    (inner : (e : Entry) → is_large e ≡ false → is_leaf path e ≡ false)
    (absent : present (s.tables table index) ≡ false) (h : 1 ≤ laws.spare s.frames) where
  abbrev taken : TakesFrame fr laws.Free s.frames
  taken = laws.take_frame s.frames h

  abbrev link : Entry
  link = linking flags (taken.frame * 4096)

  abbrev linked : Memory
  linked = put (update s.tables taken.frame (λ i. zero_entry)) table index link

  link-address : link.address ≡ taken.frame
  unfolding linking
  link-address = omega (arith, reach_lt taken.frame taken.frame taken.seen)

  link-present : present link ≡ true
  unfolding linking
  link-present = refl

  link-is_large : is_large link ≡ false
  unfolding linking spread
  link-is_large = ground (arith, small)

  other_frame : (f : ℕ) (q : List ℕ) → role f ≡ some q → f ≢ taken.frame
  other_frame f q r e = v.used f q r (subst (λ n. laws.Free s.frames n) (sym e) taken.was_free)

  linked_cases :
      (f i : ℕ) (q : List ℕ)
      → role f ≡ some q
      → ((f ≡ table) × (i ≡ index) × (linked f i ≡ link)) ⊎ (linked f i ≡ s.tables f i)
  linked_cases f i q r =
      elim (put_cases (update s.tables taken.frame (λ i. zero_entry)) table index f i link) [
        | inl x ↦ inl x
        | inr e ↦ inr (
            e
            ∙ ap (λ t. t i)
                (update_ne s.tables taken.frame f (λ i. zero_entry) (other_frame f q r)))
      ]

  linked_zero : (i : ℕ) → linked taken.frame i ≡ zero_entry
  linked_zero i =
      put_ne (update s.tables taken.frame (λ i. zero_entry)) table index taken.frame i link
        (λ e. other_frame table path here (sym e))
      ∙ ap (λ t. t i) (update_self s.tables taken.frame (λ i. zero_entry))

  lookup_empty : (q is : List ℕ) → lookup linked q taken.frame is ≡ some none
  unfolding lookup
  lookup_empty q [] = refl
  lookup_empty q (i ∷ is) = rw (linked_zero i) refl

  linked_there : linked table index ≡ link
  linked_there = put_self (update s.tables taken.frame (λ i. zero_entry)) table index link

  link-Leads : Leads linked path table index taken.frame
  link-Leads = record {
    there = ap (λ e. present e) linked_there ∙ link-present;
    inner = ap (λ e. is_leaf path e) linked_there ∙ inner link link-is_large;
    to = ap (λ e. e.address) linked_there ∙ link-address;
    seen = taken.seen;
  }

  lookup_absent : (is : List ℕ) → lookup s.tables path table (index ∷ is) ≡ some none
  unfolding lookup
  lookup_absent is = rw absent refl

  lookup_linked :
      (q is : List ℕ) (f : ℕ) → role f ≡ some q → lookup linked q f is ≡ lookup s.tables q f is
  unfolding lookup
  lookup_linked q [] f r = refl
  lookup_linked q (i ∷ is) f r = elim (linked_cases f i q r) [
    | inl (e, e', x) ↦
        let both : some path ≡ some q = sym here ∙ ap role (sym e) ∙ r in
        let same : path ≡ q = cc in
        rw (e, e', sym same)
          (lookup-Leads linked path is table index taken.frame link-Leads
            ∙ lookup_empty (index ∷ path) is
            ∙ sym (lookup_absent is))
    | inr e ↦ lookup_step linked s.tables q is f f i (rw e (refl, refl, refl)) (λ p l n x.
        lookup_linked (i ∷ q) is n (
          ap role (sym (reach_eq (linked f i).address n x) ∙ ap (λ e. e.address) e)
          ∙ v.closed f i q r (ap (λ e. present e) (sym e) ∙ p) (ap (λ e. is_leaf q e) (sym e) ∙ l)))
  ]

  abbrev role_linked : Role
  role_linked = update role taken.frame (some (index ∷ path))

  role_linked_old : (f : ℕ) (q : List ℕ) → role f ≡ some q → role_linked f ≡ some q
  role_linked_old f q r = update_ne role taken.frame f (some (index ∷ path)) (other_frame f q r) ∙ r

  abbrev after_link : Paging A
  after_link = record { tables = linked; frames = taken.rest }

  closed_linked :
      (f i : ℕ) (q : List ℕ)
      → role f ≡ some q
      → present (linked f i) ≡ true
      → is_leaf q (linked f i) ≡ false
      → role_linked (linked f i).address ≡ some (i ∷ q)
  closed_linked f i q r p l = elim (linked_cases f i q r) [
    | inl (e, e', x) ↦
        let both : some path ≡ some q = sym here ∙ ap role (sym e) ∙ r in
        let same : path ≡ q = cc in
        rw (x, link-address, e', sym same) (update_self role taken.frame (some (index ∷ path)))
    | inr e ↦
        ap role_linked (ap (λ e. e.address) e)
        ∙ role_linked_old (s.tables f i).address (i ∷ q)
            (v.closed f i q r (ap (λ e. present e) (sym e) ∙ p) (ap (λ e. is_leaf q e) (sym e) ∙ l))
  ]

  -- A frame with a role now is the new table, or had the role before.
  role_linked_cases :
      (f : ℕ) (q : List ℕ) → role_linked f ≡ some q → (f ≡ taken.frame) ⊎ (role f ≡ some q)
  role_linked_cases f q r = elim (eq_cases f taken.frame) [
    | inl e ↦ inl e
    | inr ne ↦ inr (sym (update_ne role taken.frame f (some (index ∷ path)) ne) ∙ r)
  ]

  Shape-linked : Shape laws.Free root role_linked after_link
  Shape-linked = record {
    rooted = role_linked_old root [] v.rooted;
    closed = λ f i q r p l. elim (role_linked_cases f q r) [
      | inl e ↦ let none_there : present (linked f i) ≡ false = rw (e, linked_zero i) refl in cc
      | inr r' ↦ closed_linked f i q r' p l
    ];
    within = λ f q r. elim (role_linked_cases f q r) [
      | inl e ↦ rw e taken.seen
      | inr r' ↦ v.within f q r'
    ];
    used = λ f q r. elim (role_linked_cases f q r) [
      | inl e ↦ λ free. taken.gone (subst (λ n. laws.Free taken.rest n) e free)
      | inr r' ↦ λ free. v.used f q r' (taken.others f free)
    ];
  }

  entries_linked :
      (f i : ℕ) (q : List ℕ)
      → role f ≡ some q
      → present (s.tables f i) ≡ true
      → Alike (linked f i) (s.tables f i)
  entries_linked f i q r p = elim (linked_cases f i q r) [
    | inl (e, e', x) ↦
        let gone : present (s.tables f i) ≡ false = rw (e, e') absent in
        let clash : true ≡ false = sym p ∙ gone in cc
    | inr e ↦ rw e (refl, refl, refl)
  ]

  pub enter-new : Entered fr laws root flags table index role s
  unfolding enter
  enter-new = record {
    entry = link;
    after = after_link;
    role_after = role_linked;
    runs = rw (absent, taken.gives, link-address, taken.seen) refl;
    shape = Shape-linked;
    keeps = role_linked_old;
    entries = entries_linked;
    lookups = lookup_linked;
    fewer = laws.one_less s.frames h;
    there = link-present;
    placed = rw linked_there (refl, refl, refl);
  }
