-- ===== src/Memory/PageTables/Shape.antt =====
-- kernel/src/arch/x86_64/Memory/PageMapIndexer.cpp: which frames are tables and where they hang, and what
-- the operations need of the allocator of the frames.
use frosty_os_old.Common.{
  ap, refl, ℕ, suc, ◌*◌, ◌≤◌, ◌≡◌, true, false, List, [], ◌∷◌, Option, some, sym, ◌∙◌,
}
use frosty_os_old.Memory.PageTables.{Memory, present, Frames, Paging, reach}
use frosty_os_old.Memory.PageTables.Walk.{is_leaf-Alike, is_leaf, Alike, Leads}

-- What taking a frame gives, where one is spare: the address of a free frame within the reach of the
-- HHDM, which is free no more.
pub record TakesFrame {A : Type 0} (fr : Frames A) (Free : A → ℕ → Type 0) (a : A) : Type 0 where
  pub frame : ℕ
  pub rest : A
  pub gives : fr.allocate_page a ≡ some (frame * 4096, rest)
  pub seen : reach frame ≡ some frame
  pub was_free : Free a frame
  pub gone : ¬ Free rest frame
  pub others : (f : ℕ) → Free rest f → Free a f

pub record FrameLaws {A : Type 0} (fr : Frames A) : Type 1 where
  pub Free : A → ℕ → Type 0
  pub spare : A → ℕ
  pub take_frame : (a : A) → 1 ≤ spare a → TakesFrame fr Free a
  pub one_less : (a : A) (h : 1 ≤ spare a) → spare a ≤ suc (spare (take_frame a h).rest)

abbrev pub Role : Type 0
Role = ℕ → Option (List ℕ)

-- `role` gives the indices that lead to a table, the last one first. A present entry that is not the end
-- of the walk names the table one level down; no table is a free frame.
pub record Shape {A : Type 0} (Free : A → ℕ → Type 0) (root : ℕ) (role : Role) (s : Paging A)
    : Type 0 where
  pub rooted : role root ≡ some []
  pub closed :
      (f i : ℕ) (path : List ℕ)
      → role f ≡ some path
      → present (s.tables f i) ≡ true
      → is_leaf path (s.tables f i) ≡ false
      → role (s.tables f i).address ≡ some (i ∷ path)
  pub within : (f : ℕ) (path : List ℕ) → role f ≡ some path → reach f ≡ some f
  pub used : (f : ℕ) (path : List ℕ) → role f ≡ some path → ¬ Free s.frames f

module _ {A : Type 0} (Free : A → ℕ → Type 0) (root : ℕ) (role : Role) (s : Paging A)
    (v : Shape Free root role s) where
  -- A present entry on the way is passed through.
  pub Shape-Leads :
      (f i : ℕ) (path : List ℕ)
      → role f ≡ some path
      → present (s.tables f i) ≡ true
      → is_leaf path (s.tables f i) ≡ false
      → Leads s.tables path f i (s.tables f i).address
  Shape-Leads f i path r p l = record {
    there = p;
    inner = l;
    to = refl;
    seen = v.within (s.tables f i).address (i ∷ path) (v.closed f i path r p l);
  }

  -- Entries that are alike leave the shape.
  pub Shape-Alike :
      (t : Memory)
      → ((f i : ℕ) → Alike (t f i) (s.tables f i))
      → Shape Free root role (record s { tables = t })
  Shape-Alike t same = record {
    rooted = v.rooted;
    closed = λ f i path r p l.
        let (p', l', a') = same f i in
        ap role a'
        ∙ v.closed f i path r (sym p' ∙ p) (sym (is_leaf-Alike path (t f i) (s.tables f i) l') ∙ l);
    within = v.within;
    used = v.used;
  }
