-- ===== src/Memory/PageTables/Map.antt =====
-- kernel/src/arch/x86_64/Memory/PageMapIndexer.cpp: the way of `x86_64_map_page_noflush` down to the page
-- directory, and what is known of the tables there.
use frosty_os_old.Common.{
  inr, subst, inl, ℕ, ◌≤◌, ◌≡◌, true, false, List, [], ◌∷◌, some, sym, ◌∙◌, Bool-cases, refl, ap,
  arith,
}
use frosty_os_old.Memory.PageTables.{
  Memory, Entry, present, is_large, Frames, Paging, flag, map_page, map_leaf, pml4_index, pdp_index,
  pd_index,
}
use frosty_os_old.Memory.PageTables.Walk.{is_leaf-Alike, is_leaf, Alike, Leads, lookup}
use frosty_os_old.Memory.PageTables.Shape.{Shape-Leads, FrameLaws, Role, Shape}
use frosty_os_old.Memory.PageTables.Link.{enter-new}
use frosty_os_old.Memory.PageTables.Enter.{Entered, enter-there}

-- Alike entries are passed through alike.
pub Leads-Alike :
    (t u : Memory) (path : List ℕ) (f i n : ℕ)
    → Alike (t f i) (u f i)
    → Leads u path f i n
    → Leads t path f i n
Leads-Alike t u path f i n (p, l, a) x = record {
  there = p ∙ x.there;
  inner = is_leaf-Alike path (t f i) (u f i) l ∙ x.inner;
  to = a ∙ x.to;
  seen = x.seen;
}

module _ {A : Type 0} (fr : Frames A) (laws : FrameLaws fr) (root flags : ℕ)
    (small : flag flags 7 ≡ false) where
  -- A level above the last is entered wherever a frame is to spare.
  enter_level :
      (table index : ℕ) (role : Role) (s : Paging A) (path : List ℕ)
      → Shape laws.Free root role s
      → role table ≡ some path
      → ((e : Entry) → is_large e ≡ false → is_leaf path e ≡ false)
      → 1 ≤ laws.spare s.frames
      → Entered fr laws root flags table index role s
  enter_level table index role s path v here inner h =
      elim (Bool-cases (present (s.tables table index))) [
        | inl p ↦ enter-there fr laws root flags table index role s v small p
        | inr e ↦ enter-new fr laws root flags table index role s v small path here inner e h
      ]

  module _ (table index : ℕ) (role : Role) (s : Paging A) (path : List ℕ)
      (here : role table ≡ some path) (x : Entered fr laws root flags table index role s) where
    -- Where the entry is not the end of the walk, it leads to a table.
    Entered-onward :
        is_leaf path x.entry ≡ false → Leads x.after.tables path table index x.entry.address
    Entered-onward l =
        let (p, g, a) = x.placed in
        subst (λ n. Leads x.after.tables path table index n) a
          (Shape-Leads laws.Free root x.role_after x.after x.shape table index path
            (x.keeps table path here) (p ∙ x.there)
            (is_leaf-Alike path (x.after.tables table index) x.entry g ∙ l))

    Entered-role : is_leaf path x.entry ≡ false → x.role_after x.entry.address ≡ some (index ∷ path)
    Entered-role l =
        let (p, g, a) = x.placed in
        ap x.role_after (sym a)
        ∙ x.shape.closed table index path (x.keeps table path here) (p ∙ x.there)
            (is_leaf-Alike path (x.after.tables table index) x.entry g ∙ l)

    -- An entry passed through before is passed through after.
    Entered-Leads :
        (f i n : ℕ) (q : List ℕ)
        → role f ≡ some q
        → Leads s.tables q f i n
        → Leads x.after.tables q f i n
    Entered-Leads f i n q r l =
        Leads-Alike x.after.tables s.tables q f i n (x.entries f i q r l.there) l

-- What is left of `x86_64_map_page_noflush` when it has come to the entry of the page directory.
pub record Arrived {A : Type 0} (fr : Frames A) (laws : FrameLaws fr) (root flags v : ℕ)
    (s : Paging A) : Type 0 where
  pub t3 : ℕ
  pub t2 : ℕ
  pub entry : Entry
  pub after : Paging A
  pub role : Role
  pub runs :
      (physical : ℕ)
      → map_page fr root physical v flags s ≡ map_leaf fr physical v flags entry after
  pub shape : Shape laws.Free root role after
  pub lookups : (is : List ℕ) → lookup after.tables [] root is ≡ lookup s.tables [] root is
  pub there : present entry ≡ true
  pub placed : Alike (after.tables t2 (pd_index v)) entry
  pub leads4 : Leads after.tables [] root (pml4_index v) t3
  pub leads3 : Leads after.tables (pml4_index v ∷ []) t3 (pdp_index v) t2
  pub role3 : role t3 ≡ some (pml4_index v ∷ [])
  pub role2 : role t2 ≡ some (pdp_index v ∷ pml4_index v ∷ [])

module _ {A : Type 0} (fr : Frames A) (laws : FrameLaws fr) (root flags v : ℕ) (role : Role)
    (s : Paging A) (small : flag flags 7 ≡ false) (shape : Shape laws.Free root role s)
    (h : 2 ≤ laws.spare s.frames) where
  abbrev i4 : ℕ
  i4 = pml4_index v

  abbrev i3 : ℕ
  i3 = pdp_index v

  abbrev i2 : ℕ
  i2 = pd_index v

  pub one : Entered fr laws root flags root i4 role s
  unfolding is_leaf
  one =
      enter_level fr laws root flags small root i4 role s [] shape shape.rooted (λ e l. refl)
        (omega (arith, h))

  pub one-Leads : Leads one.after.tables [] root i4 one.entry.address
  unfolding is_leaf
  one-Leads = Entered-onward fr laws root flags small root i4 role s [] shape.rooted one refl

  pub one_role : one.role_after one.entry.address ≡ some (i4 ∷ [])
  unfolding is_leaf
  one_role = Entered-role fr laws root flags small root i4 role s [] shape.rooted one refl

  pub two : Entered fr laws root flags one.entry.address i3 one.role_after one.after
  unfolding is_leaf
  two =
      enter_level fr laws root flags small one.entry.address i3 one.role_after one.after (i4 ∷ [])
        one.shape one_role (λ e l. refl) (omega (arith, h, one.fewer))

  pub two-Leads : Leads two.after.tables (i4 ∷ []) one.entry.address i3 two.entry.address
  unfolding is_leaf
  two-Leads =
      Entered-onward fr laws root flags small one.entry.address i3 one.role_after one.after
        (i4 ∷ []) one_role two refl

  pub two_role : two.role_after two.entry.address ≡ some (i3 ∷ i4 ∷ [])
  unfolding is_leaf
  two_role =
      Entered-role fr laws root flags small one.entry.address i3 one.role_after one.after (i4 ∷ [])
        one_role two refl

  pub two_leads4 : Leads two.after.tables [] root i4 one.entry.address
  two_leads4 =
      Entered-Leads fr laws root flags small one.entry.address i3 one.role_after one.after (i4 ∷ [])
        one_role two root i4 one.entry.address [] one.shape.rooted one-Leads

  module _ (h3 : 3 ≤ laws.spare s.frames) where
    three : Entered fr laws root flags two.entry.address i2 two.role_after two.after
    unfolding is_leaf
    three =
        enter_level fr laws root flags small two.entry.address i2 two.role_after two.after
          (i3 ∷ i4 ∷ []) two.shape two_role (λ e l. l) (omega (arith, h3, one.fewer, two.fewer))

    pub arrive : Arrived fr laws root flags v s
    unfolding map_page
    arrive = record {
      t3 = one.entry.address;
      t2 = two.entry.address;
      entry = three.entry;
      after = three.after;
      role = three.role_after;
      runs = λ physical. rw (one.runs, one-Leads.seen, two.runs, two-Leads.seen, three.runs) refl;
      shape = three.shape;
      lookups = λ is.
          three.lookups [] is root (two.keeps root [] one.shape.rooted)
          ∙ two.lookups [] is root one.shape.rooted
          ∙ one.lookups [] is root shape.rooted;
      there = three.there;
      placed = three.placed;
      leads4 =
          Entered-Leads fr laws root flags small two.entry.address i2 two.role_after two.after
            (i3 ∷ i4 ∷ []) two_role three root i4 one.entry.address [] two.shape.rooted two_leads4;
      leads3 =
          Entered-Leads fr laws root flags small two.entry.address i2 two.role_after two.after
            (i3 ∷ i4 ∷ []) two_role three one.entry.address i3 two.entry.address (i4 ∷ [])
            (two.keeps one.entry.address (i4 ∷ []) one_role) two-Leads;
      role3 =
          three.keeps one.entry.address (i4 ∷ []) (two.keeps one.entry.address (i4 ∷ []) one_role);
      role2 = three.keeps two.entry.address (i3 ∷ i4 ∷ []) two_role;
    }
