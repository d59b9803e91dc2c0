-- ===== src/Scheduling/ThreadList/Pops.antt =====
-- The two pops.
use frosty_os_old.Scheduling.ThreadList.Linked.{
  ne_of_has, Linked-previous, has-last_or, Linked-last, Linked-append_right, Linked-append_left,
  Linked, last_or, Linked-next, Linked-first, first_or,
}
use frosty_os_old.Common.{
  has-append, length-append, sym, false, subst, has, Distinct, ◌++◌, inr, inl, tail, eq_cases, ℕ,
  suc, ◌<◌, ◌≡◌, ◌≢◌, refl, ◌∙◌, ap, some, List, [], ◌∷◌, update, update_self, update_ne, length,
  arith, sub64, u64_mod,
}
use frosty_os_old.Scheduling.ThreadList.{Threads, pop_back, pop_front}
use frosty_os_old.Scheduling.ThreadList.Deque.{has_snoc, Linked-last_ne, IsDeque}

-- The list without its last thread.
abbrev pub drop_last : List ℕ → List ℕ
drop_last [] = []
drop_last (x ∷ []) = []
drop_last (x ∷ y ∷ ys) = x ∷ drop_last (y ∷ ys)

pop_front_more :
    (x y n : ℕ) (s : Threads)
    → x ≢ 0
    → y ≢ 0
    → s.start ≡ x
    → s.next x ≡ y
    → s.count ≡ suc (suc n)
    → suc (suc n) < u64_mod
    → pop_front s
      ≡ some (
        x,
        record s {
          start = y;
          previous = update s.previous y 0;
          next = update s.next x 0;
          count = suc n;
        },
      )
unfolding pop_front sub64
pop_front_more x y n s h k a b c d = ground arith

pop_back_more :
    (e b n : ℕ) (s : Threads)
    → e ≢ 0
    → b ≢ 0
    → s.end ≡ e
    → s.previous e ≡ b
    → s.count ≡ suc (suc n)
    → suc (suc n) < u64_mod
    → pop_back s
      ≡ some (
        e,
        record s {
          end = b;
          next = update s.next b 0;
          previous = update s.previous e 0;
          count = suc n;
        },
      )
unfolding pop_back sub64
pop_back_more e b n s h k a l c d = ground arith

pop_front_none : (s : Threads) → s.count ≡ 0 → pop_front s ≡ some (0, s)
unfolding pop_front
pop_front_none s e = ground arith

pop_back_none : (s : Threads) → s.count ≡ 0 → pop_back s ≡ some (0, s)
unfolding pop_back
pop_back_none s e = ground arith

pop_front_one :
    (s : Threads)
    → s.count ≡ 1
    → pop_front s ≡ some (s.start, record s { start = 0; end = 0; count = 0 })
unfolding pop_front
pop_front_one s e = ground arith

pop_back_one :
    (s : Threads)
    → s.count ≡ 1
    → pop_back s ≡ some (s.end, record s { start = 0; end = 0; count = 0 })
unfolding pop_back
pop_back_one s e = ground arith

empty-IsDeque :
    (s : Threads) (x : ℕ)
    → IsDeque s (x ∷ [])
    → IsDeque (record s { start = 0; end = 0; count = 0 }) []
empty-IsDeque s x v = record {
  distinct = tt;
  linked = tt;
  starts = refl;
  ends = refl;
  counted = refl;
  clean = λ a h. elim (eq_cases a x) [
    | inl e ↦ (ap s.previous e ∙ v.linked.1, ap s.next e ∙ v.linked.2)
    | inr n ↦ v.clean a (ground arith)
  ];
}

-- `PopFront`: the first thread, or null where there is none.
pub pop_front-IsDeque :
    (s : Threads) (xs : List ℕ)
    → IsDeque s xs
    → length xs < u64_mod
    → (u : Threads) × (pop_front s ≡ some (first_or 0 xs, u)) × IsDeque u (tail xs)
pop_front-IsDeque s [] v room = (s, pop_front_none s v.counted, v)
pop_front-IsDeque s (x ∷ []) v room = (
  _,
  pop_front_one s v.counted
      ∙ ap (λ a. some (a, record s { start = 0; end = 0; count = 0 })) v.starts,
  empty-IsDeque s x v,
)
pop_front-IsDeque s (x ∷ y ∷ ys) v room =
    let l = v.linked.3 in
    let out = v.distinct.0 in
    let first = Linked-first s.previous s.next y x 0 0 ys v.distinct.1.0 l in
    let x_ne : x ≢ y = ground arith in
    (
      _,
      pop_front_more x y (length ys) s v.linked.0 l.0 v.starts v.linked.2 v.counted room,
      record {
        distinct = v.distinct.1;
        linked = Linked-next (update s.previous y 0) s.next x 0 0 0 (y ∷ ys) out first;
        starts = refl;
        ends = v.ends;
        counted = refl;
        clean = λ a h. elim (eq_cases a x) [
          | inl e ↦ (
            update_ne s.previous y a 0 (ground arith) ∙ (ap s.previous e ∙ v.linked.1),
            ap (update s.next x 0) e ∙ update_self s.next x 0,
          )
          | inr n ↦
              let old = v.clean a (ground arith) in
              (update_ne s.previous y a 0 (ground arith) ∙ old.0, update_ne s.next x a 0 n ∙ old.1)
        ];
      },
    )

drop_last_snoc : (x : ℕ) (xs : List ℕ) → drop_last (x ∷ xs) ++ last_or x xs ∷ [] ≡ x ∷ xs
drop_last_snoc x [] = refl
drop_last_snoc x (y ∷ ys) = ap (λ zs. x ∷ zs) (drop_last_snoc y ys)

Distinct-append : (xs : List ℕ) (e : ℕ) → Distinct (xs ++ e ∷ []) → Distinct xs × (has e xs ≡ false)
Distinct-append [] e d = (tt, refl)
Distinct-append (x ∷ xs) e d =
    let (rest, out) = Distinct-append xs e d.1 in
    let (here, other) = has_snoc x e xs d.0 in ((here, rest), ground (arith, out, other))

-- `PopBack`: the last thread, or null where there is none.
pub pop_back-IsDeque :
    (s : Threads) (xs : List ℕ)
    → IsDeque s xs
    → length xs < u64_mod
    → (u : Threads) × (pop_back s ≡ some (last_or 0 xs, u)) × IsDeque u (drop_last xs)
pop_back-IsDeque s [] v room = (s, pop_back_none s v.counted, v)
pop_back-IsDeque s (x ∷ []) v room = (
  _,
  pop_back_one s v.counted ∙ ap (λ a. some (a, record s { start = 0; end = 0; count = 0 })) v.ends,
  empty-IsDeque s x v,
)
pop_back-IsDeque s (x ∷ y ∷ ys) v room =
    let e = last_or y ys in
    let ws = drop_last (y ∷ ys) in
    let zs = x ∷ ws in
    let b = last_or x ws in
    let whole = drop_last_snoc x (y ∷ ys) in
    let (d, out) = Distinct-append zs e (subst Distinct (sym whole) v.distinct) in
    let l = subst (Linked s.previous s.next 0 0) (sym whole) v.linked in
    let left = Linked-append_left s.previous s.next 0 0 zs (e ∷ []) l in
    let right = Linked-append_right s.previous s.next 0 0 zs (e ∷ []) l in
    let b_ne = Linked-last_ne s.previous s.next x 0 e ws left in
    let cut = Linked-last s.previous s.next x 0 e 0 ws d left in
    let b_in = has-last_or x ws in
    (
      _,
      pop_back_more e b (length ys) s right.0 b_ne v.ends right.1 v.counted room,
      record {
        distinct = d;
        linked = Linked-previous s.previous (update s.next b 0) e 0 0 0 zs out cut;
        starts = v.starts;
        ends = refl;
        counted = omega (arith, ap (length {A = ℕ}) whole, length-append zs (e ∷ []));
        clean = λ a h. elim (eq_cases a e) [
          | inl q ↦ (
            ap (update s.previous e 0) q ∙ update_self s.previous e 0,
            ap (update s.next b 0) q
                ∙ (update_ne s.next b e 0 (ne_of_has b e zs b_in out) ∙ right.2),
          )
          | inr n ↦
              let gone : has a (zs ++ e ∷ []) ≡ false =
                has-append a zs (e ∷ []) ∙ ground (arith, h) in
              let old = v.clean a (subst (λ us. has a us ≡ false) whole gone) in
              (
                update_ne s.previous e a 0 n ∙ old.0,
                update_ne s.next b a 0 (ne_of_has b a zs b_in h) ∙ old.1,
              )
        ];
      },
    )
