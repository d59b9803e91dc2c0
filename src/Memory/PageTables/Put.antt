-- ===== src/Memory/PageTables/Put.antt =====
-- kernel/src/arch/x86_64/Memory/PageMapIndexer.cpp: one entry of a table is written, and what the walks
-- give then.
use frosty_os_old.Common.{
  subst, ℕ, ◌≡◌, ◌≢◌, true, false, List, [], ◌∷◌, some, sym, ◌∙◌, refl, ap, inl, inr,
}
use frosty_os_old.Memory.PageTables.{Entry, present, Paging, put, write}
use frosty_os_old.Memory.PageTables.Walk.{
  is_leaf, Leads, lookup, put_cases, put_self, put_ne, lookup_step,
}
use frosty_os_old.Memory.PageTables.Shape.{Role, Shape}
use frosty_os_old.Memory.PageTables.Enter.{reach_eq}
use frosty_os_old.Memory.PageTables.Map.{Leads-Alike}

-- The indices `path`, the last one first, and then `is`.
abbrev pub onto : List ℕ → List ℕ → List ℕ
onto [] is = is
onto (i ∷ path) is = onto path (i ∷ is)

module _ {A : Type 0} (Free : A → ℕ → Type 0) (root : ℕ) (role : Role) (s : Paging A)
    (shape : Shape Free root role s) (path : List ℕ) (table index : ℕ)
    (here : role table ≡ some path) (m : Entry) where
  same_role : (f : ℕ) (q : List ℕ) → role f ≡ some q → f ≡ table → q ≡ path
  same_role f q r e = let both : some q ≡ some path = sym r ∙ ap role e ∙ here in cc

  -- Walks along the indices of which `Good` holds are as they were, if they are from the entry on.
  pub lookup-put :
      (Good : List ℕ → Type 0)
      → ((is : List ℕ)
          → Good (onto path (index ∷ is))
          → lookup (put s.tables table index m) path table (index ∷ is)
            ≡ lookup s.tables path table (index ∷ is))
      → (q is : List ℕ) (f : ℕ) → role f ≡ some q
      → Good (onto q is)
      → lookup (put s.tables table index m) q f is ≡ lookup s.tables q f is
  unfolding lookup
  lookup-put Good changed q [] f r good = refl
  lookup-put Good changed q (i ∷ is) f r good = elim (put_cases s.tables table index f i m) [
    | inl (e, e', x) ↦
        let same = same_role f q r e in
        let on : Good (onto path (index ∷ is)) =
          subst (λ j. Good (onto path (j ∷ is))) e'
            (subst (λ p. Good (onto p (i ∷ is))) same good) in
        rw (e, e', same) (changed is on)
    | inr e ↦
        lookup_step (put s.tables table index m) s.tables q is f f i (rw e (refl, refl, refl))
          (λ p l n x.
            lookup-put Good changed (i ∷ q) is n
              (ap role (
                  sym (reach_eq (put s.tables table index m f i).address n x)
                  ∙ ap (λ e. e.address) e)
                ∙ shape.closed f i q r (ap (λ e. present e) (sym e) ∙ p)
                    (ap (λ e. is_leaf q e) (sym e) ∙ l))
              good)
  ]

  -- Walks that do not come to the entry are as they were.
  pub lookup_elsewhere :
      (is : List ℕ)
      → ((rest : List ℕ) → is ≢ onto path (index ∷ rest))
      → lookup (put s.tables table index m) [] root is ≡ lookup s.tables [] root is
  lookup_elsewhere is out =
      lookup-put (λ xs. (rest : List ℕ) → xs ≢ onto path (index ∷ rest))
        (λ is away. elim (away is refl) [ ]) [] is root shape.rooted out

  -- An entry that is no way to another table, or not present, leaves the shape.
  pub Shape-put :
      (present m ≡ true → is_leaf path m ≡ true) → Shape Free root role (write table index m s)
  Shape-put ends = record {
    rooted = shape.rooted;
    closed = λ f i q r p l. elim (put_cases s.tables table index f i m) [
      | inl (e, e', x) ↦
          let leaf : is_leaf q (put s.tables table index m f i) ≡ true =
            rw (same_role f q r e, x) (ends (ap (λ e. present e) (sym x) ∙ p)) in
          let clash : true ≡ false = sym leaf ∙ l in cc
      | inr e ↦
          ap role (ap (λ e. e.address) e)
          ∙ shape.closed f i q r (ap (λ e. present e) (sym e) ∙ p)
              (ap (λ e. is_leaf q e) (sym e) ∙ l)
    ];
    within = shape.within;
    used = shape.used;
  }

  -- An entry passed through in another table is passed through after.
  pub Leads-put :
      (f i n : ℕ) (q : List ℕ)
      → role f ≡ some q
      → q ≢ path
      → Leads s.tables q f i n
      → Leads (put s.tables table index m) q f i n
  Leads-put f i n q r ne l =
      Leads-Alike (put s.tables table index m) s.tables q f i n
        (rw (put_ne s.tables table index f i m (λ e. ne (same_role f q r e))) (refl, refl, refl)) l

  -- A walk that comes to an entry it stops at.
  pub lookup_end :
      (is : List ℕ)
      → present m ≡ true
      → is_leaf path m ≡ true
      → lookup (put s.tables table index m) path table (index ∷ is) ≡ some (some (m.address, is))
  unfolding lookup
  lookup_end is p l = rw (put_self s.tables table index m, p, l) refl
