-- ===== src/Scheduling/ThreadList/Deque.antt =====
-- The list as a sequence of threads, and the two pushes.
use frosty_os_old.Common.{
  length-append, sym, update_ne, update_self, ℕ, add64, refl, arith, ◌∙◌, u64_mod, has-append, [],
  ◌<◌, suc, ◌++◌, false, length, some, ◌≡◌, Distinct, update, ◌∷◌, ◌≢◌, has, List,
}
use frosty_os_old.Scheduling.ThreadList.{Threads, push_back, push_front}
use frosty_os_old.Scheduling.ThreadList.Linked.{
  last_or-append, Linked-first, Linked-append, Linked-previous, Linked-next, Linked-last,
  has-last_or, ne_of_has, first_or, last_or, Linked,
}

-- The list holds those threads in that order, and every other thread has null links.
pub record IsDeque (s : Threads) (xs : List ℕ) : Type 0 where
  pub distinct : Distinct xs
  pub linked : Linked s.previous s.next 0 0 xs
  pub starts : s.start ≡ first_or 0 xs
  pub ends : s.end ≡ last_or 0 xs
  pub counted : s.count ≡ length xs
  pub clean : (t : ℕ) → has t xs ≡ false → (s.previous t ≡ 0) × (s.next t ≡ 0)

pub Linked-last_ne :
    (previous next : ℕ → ℕ) (x before stop : ℕ) (xs : List ℕ)
    → Linked previous next before stop (x ∷ xs)
    → last_or x xs ≢ 0
Linked-last_ne previous next x before stop [] l = l.0
Linked-last_ne previous next x before stop (y ∷ ys) l = Linked-last_ne previous next y x stop ys l.3

push_back_empty :
    (t : ℕ) (s : Threads)
    → t ≢ 0
    → s.start ≡ 0
    → s.end ≡ 0
    → push_back t s
      ≡ some (record s {
        previous = update s.previous t 0;
        start = t;
        end = t;
        count = add64 s.count 1;
      })
unfolding push_back
push_back_empty t s h a b = ground arith

push_back_more :
    (t x e : ℕ) (s : Threads)
    → t ≢ 0
    → x ≢ 0
    → e ≢ 0
    → s.start ≡ x
    → s.end ≡ e
    → push_back t s
      ≡ some (record s {
        next = update s.next e t;
        previous = update s.previous t e;
        end = t;
        count = add64 s.count 1;
      })
unfolding push_back
push_back_more t x e s h k l a b = ground arith

push_front_empty :
    (t : ℕ) (s : Threads)
    → t ≢ 0
    → s.start ≡ 0
    → s.end ≡ 0
    → push_front t s
      ≡ some (record s { next = update s.next t 0; start = t; end = t; count = add64 s.count 1 })
unfolding push_front
push_front_empty t s h a b = ground arith

push_front_more :
    (t x e : ℕ) (s : Threads)
    → t ≢ 0
    → x ≢ 0
    → e ≢ 0
    → s.start ≡ x
    → s.end ≡ e
    → push_front t s
      ≡ some (record s {
        next = update s.next t x;
        previous = update s.previous x t;
        start = t;
        count = add64 s.count 1;
      })
unfolding push_front
push_front_more t x e s h k l a b = ground arith

Distinct-snoc : (t : ℕ) (xs : List ℕ) → has t xs ≡ false → Distinct xs → Distinct (xs ++ t ∷ [])
Distinct-snoc t [] out d = (refl, tt)
Distinct-snoc t (x ∷ xs) out d =
    (has-append x xs (t ∷ []) ∙ ground (arith, d.0), Distinct-snoc t xs (ground arith) d.1)

pub has_snoc : (a t : ℕ) (xs : List ℕ) → has a (xs ++ t ∷ []) ≡ false → (has a xs ≡ false) × (a ≢ t)
has_snoc a t xs h = ground (arith, has-append a xs (t ∷ []))

counted_push :
    (s : Threads) (xs : List ℕ)
    → s.count ≡ length xs
    → suc (length xs) < u64_mod
    → add64 s.count 1 ≡ suc (length xs)
unfolding add64
counted_push s xs e h = omega (arith, e)

-- `PushBack` of a thread that is in no list.
pub push_back-IsDeque :
    (t : ℕ) (s : Threads) (xs : List ℕ)
    → IsDeque s xs
    → t ≢ 0
    → has t xs ≡ false
    → suc (length xs) < u64_mod
    → (u : Threads) × (push_back t s ≡ some u) × IsDeque u (xs ++ t ∷ [])
push_back-IsDeque t s [] v ne out room = (
  _,
  push_back_empty t s ne v.starts v.ends,
  record {
    distinct = (refl, tt);
    linked = (ne, update_self s.previous t 0, (v.clean t out).1, tt);
    starts = refl;
    ends = refl;
    counted = counted_push s [] v.counted room;
    clean = λ a h. ground (arith, v.clean a);
  },
)
push_back-IsDeque t s (x ∷ xs) v ne out room =
    let e = last_or x xs in
    let e_in = has-last_or x xs in
    let e_ne = Linked-last_ne s.previous s.next x 0 0 xs v.linked in
    let t_ne = ne_of_has e t (x ∷ xs) e_in out in
    let moved = Linked-last s.previous s.next x 0 0 t xs v.distinct v.linked in
    let next' = update s.next e t in
    let previous' = update s.previous t e in
    let old = Linked-previous s.previous next' t e 0 t (x ∷ xs) out moved in
    (
      _,
      push_back_more t x e s ne v.linked.0 e_ne v.starts v.ends,
      record {
        distinct = Distinct-snoc t (x ∷ xs) out v.distinct;
        linked =
            Linked-append previous' next' 0 0 (x ∷ xs) (t ∷ []) old
              (ne, update_self s.previous t e, update_ne s.next e t t t_ne ∙ (v.clean t out).1, tt);
        starts = v.starts;
        ends = sym (last_or-append 0 (x ∷ xs) (t ∷ []));
        counted =
            counted_push s (x ∷ xs) v.counted room ∙ omega (arith, length-append (x ∷ xs) (t ∷ []));
        clean = λ a h.
            let (gone, other) = has_snoc a t (x ∷ xs) h in
            let a_ne = ne_of_has e a (x ∷ xs) e_in gone in
            (
              update_ne s.previous t a e other ∙ (v.clean a gone).0,
              update_ne s.next e a t a_ne ∙ (v.clean a gone).1,
            );
      },
    )

-- `PushFront` of a thread that is in no list.
pub push_front-IsDeque :
    (t : ℕ) (s : Threads) (xs : List ℕ)
    → IsDeque s xs
    → t ≢ 0
    → has t xs ≡ false
    → suc (length xs) < u64_mod
    → (u : Threads) × (push_front t s ≡ some u) × IsDeque u (t ∷ xs)
push_front-IsDeque t s [] v ne out room = (
  _,
  push_front_empty t s ne v.starts v.ends,
  record {
    distinct = (refl, tt);
    linked = (ne, (v.clean t out).0, update_self s.next t 0, tt);
    starts = refl;
    ends = refl;
    counted = counted_push s [] v.counted room;
    clean = λ a h. ground (arith, v.clean a);
  },
)
push_front-IsDeque t s (x ∷ xs) v ne out room =
    let e_ne = Linked-last_ne s.previous s.next x 0 0 xs v.linked in
    let x_ne : t ≢ x = ground arith in
    let next' = update s.next t x in
    let kept = Linked-next s.previous s.next t x 0 0 (x ∷ xs) out v.linked in
    (
      _,
      push_front_more t x (last_or x xs) s ne v.linked.0 e_ne v.starts v.ends,
      record {
        distinct = (out, v.distinct);
        linked = (
          ne,
          update_ne s.previous x t t x_ne ∙ (v.clean t out).0,
          update_self s.next t x,
          Linked-first s.previous next' x 0 0 t xs v.distinct.0 kept,
        );
        starts = refl;
        ends = v.ends;
        counted = counted_push s (x ∷ xs) v.counted room;
        clean = λ a h.
            let gone : has a (x ∷ xs) ≡ false = ground arith in
            let other : a ≢ t = ground arith in
            let a_ne : a ≢ x = ground arith in
            (
              update_ne s.previous x a t a_ne ∙ (v.clean a gone).0,
              update_ne s.next t a x other ∙ (v.clean a gone).1,
            );
      },
    )
