-- ===== src/Memory/PageTables/Enter.antt =====
-- kernel/src/arch/x86_64/Memory/PageMapIndexer.cpp: one level on the way of `x86_64_map_page_noflush`, by an
-- entry that is there and by a new table.
use frosty_os_old.Common.{
  ◌^◌, ◌<◌, inr, inl, ℕ, suc, ◌≤◌, ◌≡◌, true, false, List, some, refl, arith,
}
use frosty_os_old.Memory.PageTables.{
  put, Memory, reach, Entry, present, Frames, Paging, enter, merged, write, flag, spread,
}
use frosty_os_old.Memory.PageTables.Walk.{put_cases, lookup-Alike, Alike, lookup}
use frosty_os_old.Memory.PageTables.Shape.{Shape-Alike, FrameLaws, Role, Shape}

-- What entering a level leaves: the entry, the tables in their shape, and every walk as it was.
pub record Entered {A : Type 0} (fr : Frames A) (laws : FrameLaws fr) (root flags table index : ℕ)
    (role : Role) (s : Paging A) : Type 0 where
  pub entry : Entry
  pub after : Paging A
  pub role_after : Role
  pub runs : enter fr flags table index s ≡ some (entry, after)
  pub shape : Shape laws.Free root role_after after
  pub keeps : (f : ℕ) (path : List ℕ) → role f ≡ some path → role_after f ≡ some path
  pub entries :
      (f i : ℕ) (path : List ℕ)
      → role f ≡ some path
      → present (s.tables f i) ≡ true
      → Alike (after.tables f i) (s.tables f i)
  pub lookups :
      (path is : List ℕ) (f : ℕ)
      → role f ≡ some path
      → lookup after.tables path f is ≡ lookup s.tables path f is
  pub fewer : laws.spare s.frames ≤ suc (laws.spare after.frames)
  pub there : present entry ≡ true
  pub placed : Alike (after.tables table index) entry

-- More bits in an entry that is present, none of them the page size bit.
module _ (flags : ℕ) (small : flag flags 7 ≡ false) where
  pub merged-Alike : (e : Entry) → present e ≡ true → Alike (merged flags e) e
  unfolding merged spread
  merged-Alike e p = (ground (arith, p), ground (arith, small), refl)

  pub put-merged-Alike :
      (t : Memory) (table index : ℕ)
      → present (t table index) ≡ true
      → (f i : ℕ) → Alike (put t table index (merged flags (t table index)) f i) (t f i)
  put-merged-Alike t table index p f i =
      elim (put_cases t table index f i (merged flags (t table index))) [
        | inl (q, q', e) ↦ rw (e, q, q') (merged-Alike (t table index) p)
        | inr e ↦ rw e (refl, refl, refl)
      ]

module _ {A : Type 0} (fr : Frames A) (laws : FrameLaws fr) (root flags table index : ℕ)
    (role : Role) (s : Paging A) (v : Shape laws.Free root role s)
    (small : flag flags 7 ≡ false) where
  pub enter-there :
      present (s.tables table index) ≡ true → Entered fr laws root flags table index role s
  unfolding enter
  enter-there p =
      let alike = put-merged-Alike flags small s.tables table index p in
      record {
        entry = s.tables table index;
        after = write table index (merged flags (s.tables table index)) s;
        role_after = role;
        runs = rw p refl;
        shape =
            Shape-Alike laws.Free root role s v
              (put s.tables table index (merged flags (s.tables table index))) alike;
        keeps = λ f path r. r;
        entries = λ f i path r q. alike f i;
        lookups = λ path is f r.
            lookup-Alike (put s.tables table index (merged flags (s.tables table index))) s.tables
              alike path is f;
        fewer = omega arith;
        there = p;
        placed = alike table index;
      }

pub reach_eq : (a n : ℕ) → reach a ≡ some n → a ≡ n
unfolding reach
reach_eq a n e = ground arith

pub reach_lt : (a n : ℕ) → reach a ≡ some n → n < 2 ^ 27
unfolding reach
reach_lt a n e = ground arith
