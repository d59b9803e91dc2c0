-- ===== src/Memory/PageTables/LargeLaws.antt =====
-- kernel/src/arch/x86_64/Memory/PageMapIndexer.cpp: what the walks of the tables give after
-- `x86_64_map_large_page_noflush`.
use frosty_os_old.Memory.PageTables.Put.{Shape-put, lookup_elsewhere, lookup_end, Leads-put}
use frosty_os_old.Memory.PageTables.Map.{
  one_role, two_leads4, two_role, two-Leads, one-Leads, two, one,
}
use frosty_os_old.Memory.PageTables.Shape.{Shape, Role, FrameLaws}
use frosty_os_old.Common.{
  sym, ap, arith, refl, ◌∙◌, ◌≢◌, ◌≤◌, false, ℕ, ◌+◌, ◌*◌, ◌/◌, ◌%◌, ◌^◌, ◌≡◌, true, List, [], ◌∷◌,
  some, ◌∙◌, refl, ap, arith,
}
use frosty_os_old.Memory.PageTables.{
  write, put, walk, Paging, Frames, Entry, present, is_large, flag, spread, pml4_index, pdp_index,
  pd_index, pt_index,
}
use frosty_os_old.Memory.PageTables.Large.{map_large_page, mapping_large}
use frosty_os_old.Memory.PageTables.Walk.{page_of, lookup-Leads, walk-lookup, is_leaf, answer}

-- The indices of the large page of an address.
abbrev pub large_page_of : ℕ → List ℕ
large_page_of v = pml4_index v ∷ pdp_index v ∷ pd_index v ∷ []

module _ (flags physical v : ℕ) where
  abbrev entry : Entry
  entry = mapping_large flags physical

  entry-present : flag flags 0 ≡ true → present entry ≡ true
  unfolding mapping_large spread
  entry-present h = rw h refl

  entry-is_large : is_large entry ≡ true
  unfolding mapping_large
  entry-is_large = refl

  -- The bits of the address above the offset in the large page.
  entry-answer :
      answer v (some (some (entry.address, pt_index v ∷ [])))
      ≡ some (physical / 2 ^ 21 % 2 ^ 31 * 2 ^ 21 + v % 2 ^ 21)
  unfolding mapping_large answer
  entry-answer = ap some (ground arith)

module _ {A : Type 0} (fr : Frames A) (laws : FrameLaws fr) (root flags physical v : ℕ)
    (role : Role) (s : Paging A) where
  -- In tables that hang together, with two frames to spare, for flags that set the present bit and not the
  -- page size bit: `map_large_page` ends, the address is then mapped to its offset in the physical large
  -- page, every address of another large page is mapped as before, and the tables still hang together.
  pub map_large_page-walk :
      Shape laws.Free root role s
      → flag flags 0 ≡ true
      → flag flags 7 ≡ false
      → 2 ≤ laws.spare s.frames
      → (t : Paging A) × (map_large_page fr root physical v flags s ≡ some t)
        × (walk t.tables root v ≡ some (physical / 2 ^ 21 % 2 ^ 31 * 2 ^ 21 + v % 2 ^ 21))
        × ((w : ℕ)
            → large_page_of v ≢ large_page_of w
            → walk t.tables root w ≡ walk s.tables root w)
        × (r : Role) × Shape laws.Free root r t
  unfolding map_large_page is_leaf
  map_large_page-walk shape on small h =
      let first = one fr laws root flags v role s small shape h in
      let second = two fr laws root flags v role s small shape h in
      let lead4 = one-Leads fr laws root flags v role s small shape h in
      let lead3 = two-Leads fr laws root flags v role s small shape h in
      let role2 = two_role fr laws root flags v role s small shape h in
      let lead = two_leads4 fr laws root flags v role s small shape h in
      let role3 =
        second.keeps first.entry.address (pml4_index v ∷ [])
          (one_role fr laws root flags v role s small shape h) in
      let way = pdp_index v ∷ pml4_index v ∷ [] in
      let m = mapping_large flags physical in
      let t2 = second.entry.address in
      let t = put second.after.tables t2 (pd_index v) m in
      let keep =
        Leads-put laws.Free root second.role_after second.after second.shape way t2 (pd_index v)
          role2 m in
      (
        write t2 (pd_index v) m second.after,
        rw (first.runs, lead4.seen, second.runs, lead3.seen) refl,
        walk-lookup t v root
            ∙ ap (answer v) (
                lookup-Leads t [] (pdp_index v ∷ pd_index v ∷ pt_index v ∷ []) root (pml4_index v)
                  first.entry.address
                  (keep root (pml4_index v) first.entry.address [] second.shape.rooted (λ e. cc)
                    lead)
                ∙ lookup-Leads t (pml4_index v ∷ []) (pd_index v ∷ pt_index v ∷ [])
                    first.entry.address (pdp_index v) t2
                    (keep first.entry.address (pdp_index v) t2 (pml4_index v ∷ []) role3 (λ e. cc)
                      lead3)
                ∙ lookup_end laws.Free root second.role_after second.after second.shape way t2
                    (pd_index v) role2 m (pt_index v ∷ []) (entry-present flags physical v on)
                    (entry-is_large flags physical v))
            ∙ entry-answer flags physical v,
        λ w ne.
            walk-lookup t w root
            ∙ ap (answer w) (
                lookup_elsewhere laws.Free root second.role_after second.after second.shape way t2
                  (pd_index v) role2 m (page_of w) (λ rest e. ne cc)
                ∙ second.lookups [] (page_of w) root first.shape.rooted
                ∙ first.lookups [] (page_of w) root shape.rooted)
            ∙ sym (walk-lookup s.tables w root),
        second.role_after,
        Shape-put laws.Free root second.role_after second.after second.shape way t2 (pd_index v)
            role2 m (λ p. entry-is_large flags physical v),
      )
