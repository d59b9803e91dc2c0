-- ===== src/Memory/PageTables/Drop.antt =====
-- kernel/src/arch/x86_64/Memory/PageMapIndexer.cpp: a table that nothing is mapped through is dropped, and
-- every walk is as it was.
use frosty_os_old.Common.{
  eq_cases, ℕ, zero, suc, ◌+◌, ◌*◌, ◌^◌, ◌≤◌, ◌<◌, ◌≡◌, ◌≢◌, ◌⊎◌, inl, inr, true, false, List, [],
  ◌∷◌, some, sym, ◌∙◌, refl, ap, arith, Bool-cases,
}
use frosty_os_old.Memory.PageTables.{Entry, present, Frames, Paging, put, write, to_hhdm, reach}
use frosty_os_old.Memory.PageTables.Unmap.{any_present, absent_entry, drop_table}
use frosty_os_old.Memory.PageTables.Walk.{lookup-none, Leads, lookup, put_self, lookup-Leads}
use frosty_os_old.Memory.PageTables.Shape.{Role, Shape}
use frosty_os_old.Memory.PageTables.Put.{onto, lookup-put, Shape-put, Leads-put}

-- Giving a page back returns, and frees no other frame than that at the address.
pub record FreeLaws {A : Type 0} (fr : Frames A) (Free : A → ℕ → Type 0) : Type 0 where
  pub give : ℕ → A → A
  pub gives : (n : ℕ) (a : A) → fr.free_page n a ≡ some (give n a)
  pub only : (n : ℕ) (a : A) (f : ℕ) → Free (give n a) f → Free a f ⊎ (n ≡ f * 4096)

-- Indices into tables of 512 entries.
abbrev pub Small : List ℕ → Type 0
Small [] = Unit {0}
Small (i ∷ is) = (i < 512) × Small is

Small-onto : (path is : List ℕ) → Small (onto path is) → Small is
Small-onto [] is h = h
Small-onto (i ∷ path) is h = (Small-onto path (i ∷ is) h).1

any_present-false :
    (n k : ℕ) (entries : ℕ → Entry)
    → any_present n k entries ≡ false
    → (i : ℕ) → k ≤ i
    → i < k + n
    → present (entries i) ≡ false
unfolding any_present
any_present-false zero k entries h i lo hi = ground (arith, lo, hi)
any_present-false (suc n) k entries h i lo hi = elim (eq_cases k i) [
  | inl e ↦ ground (arith, h, e)
  | inr ne ↦ any_present-false n (k + 1) entries (ground (arith, h)) i (omega arith) (omega arith)
]

-- The address that is given back is above the frames of the tables.
to_hhdm-above :
    (hhdm_start table f : ℕ)
    → reach table ≡ some table
    → reach f ≡ some f
    → 2 ^ 39 ≤ hhdm_start
    → hhdm_start + 2 ^ 39 ≤ 2 ^ 64
    → to_hhdm hhdm_start (table * 4096) ≢ f * 4096
unfolding to_hhdm reach
to_hhdm-above hhdm_start table f r r' lo hi e = ground (arith, r, r', e)

-- What dropping leaves.
pub record Dropped {A : Type 0} (fr : Frames A) (Free : A → ℕ → Type 0)
    (hhdm_start root table parent index : ℕ) (path : List ℕ) (role : Role) (s : Paging A)
    : Type 0 where
  pub after : Paging A
  pub runs : drop_table fr hhdm_start table parent index s ≡ some after
  pub shape : Shape Free root role after
  pub lookups :
      (is : List ℕ) → Small is → lookup after.tables [] root is ≡ lookup s.tables [] root is
  pub leads :
      (f i n : ℕ) (q : List ℕ)
      → role f ≡ some q
      → q ≢ path
      → Leads s.tables q f i n
      → Leads after.tables q f i n

module _ {A : Type 0} (fr : Frames A) (Free : A → ℕ → Type 0) (laws : FreeLaws fr Free)
    (hhdm_start root table parent index : ℕ) (path : List ℕ) (role : Role) (s : Paging A)
    (lo : 2 ^ 39 ≤ hhdm_start) (hi : hhdm_start + 2 ^ 39 ≤ 2 ^ 64) (shape : Shape Free root role s)
    (here : role parent ≡ some path) (to : Leads s.tables path parent index table) where
  abbrev given : A
  given = laws.give (to_hhdm hhdm_start (table * 4096)) s.frames

  -- The frames of the tables stay taken.
  Shape-given : Shape Free root role (record s { frames = given })
  Shape-given = record {
    rooted = shape.rooted;
    closed = shape.closed;
    within = shape.within;
    used = λ f q r free. elim (laws.only (to_hhdm hhdm_start (table * 4096)) s.frames f free) [
      | inl was ↦ shape.used f q r was
      | inr e ↦ to_hhdm-above hhdm_start table f to.seen (shape.within f q r) lo hi e
    ];
  }

  abbrev gone : Entry
  gone = absent_entry (s.tables parent index)

  gone-present : present gone ≡ false
  unfolding absent_entry
  gone-present = refl

  gone-put : present (put s.tables parent index gone parent index) ≡ false
  gone-put = ap (λ e. present e) (put_self s.tables parent index gone) ∙ gone-present

  -- Nothing is found through the entry, before as after.
  lookup_gone :
      any_present 512 0 (s.tables table) ≡ false
      → (is : List ℕ) → Small (onto path (index ∷ is))
      → lookup (put s.tables parent index gone) path parent (index ∷ is)
        ≡ lookup s.tables path parent (index ∷ is)
  unfolding lookup
  lookup_gone none_there [] small =
      lookup-none (put s.tables parent index gone) path [] parent index gone-put
      ∙ sym (lookup-Leads s.tables path [] parent index table to)
  lookup_gone none_there (i ∷ is) small =
      let (lt, rest) = (Small-onto path (index ∷ i ∷ is) small).1 in
      lookup-none (put s.tables parent index gone) path (i ∷ is) parent index gone-put
      ∙ sym (
          lookup-Leads s.tables path (i ∷ is) parent index table to
          ∙ lookup-none s.tables (index ∷ path) is table i
              (any_present-false 512 0 (s.tables table) none_there i (omega arith) lt))

  pub drop : Dropped fr Free hhdm_start root table parent index path role s
  unfolding drop_table
  drop = elim (Bool-cases (any_present 512 0 (s.tables table))) [
    | inl e ↦ record {
      after = s;
      runs = rw e refl;
      shape = shape;
      lookups = λ is small. refl;
      leads = λ f i n q r ne l. l;
    }
    | inr e ↦ record {
      after = write parent index gone (record s { frames = given });
      runs = rw (e, laws.gives (to_hhdm hhdm_start (table * 4096)) s.frames) refl;
      shape =
          Shape-put Free root role (record s { frames = given }) Shape-given path parent index here
            gone (λ p. let clash : false ≡ true = sym gone-present ∙ p in cc);
      lookups = λ is small.
          lookup-put Free root role s shape path parent index here gone Small (lookup_gone e) [] is
            root shape.rooted small;
      leads = Leads-put Free root role s shape path parent index here gone;
    }
  ]
