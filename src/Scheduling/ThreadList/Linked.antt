-- ===== src/Scheduling/ThreadList/Linked.antt =====
-- Threads that are linked in the order of a list, in both directions.
use frosty_os_old.Common.{
  ◌∙◌, ap, update_ne, ℕ, ◌≡◌, ◌≢◌, refl, true, false, List, [], ◌∷◌, ◌++◌, update, has, Distinct,
  arith,
}

-- The first thread, or what follows if there is none; the last, or what is before.
abbrev pub first_or : ℕ → List ℕ → ℕ
first_or stop [] = stop
first_or stop (x ∷ xs) = x

abbrev pub last_or : ℕ → List ℕ → ℕ
last_or before [] = before
last_or before (x ∷ xs) = last_or x xs

-- Between `before` and `stop` the links lead through the threads of the list, none of them null.
abbrev pub Linked : (ℕ → ℕ) → (ℕ → ℕ) → ℕ → ℕ → List ℕ → Type 0
Linked previous next before stop [] = Unit {0}
Linked previous next before stop (x ∷ xs) =
    (x ≢ 0) × (previous x ≡ before) × (next x ≡ first_or stop xs) × Linked previous next x stop xs

pub first_or-append :
    (stop : ℕ) (xs ys : List ℕ) → first_or stop (xs ++ ys) ≡ first_or (first_or stop ys) xs
first_or-append stop [] ys = refl
first_or-append stop (x ∷ xs) ys = refl

pub last_or-append :
    (before : ℕ) (xs ys : List ℕ) → last_or before (xs ++ ys) ≡ last_or (last_or before xs) ys
last_or-append before [] ys = refl
last_or-append before (x ∷ xs) ys = last_or-append x xs ys

pub has-last_or : (x : ℕ) (xs : List ℕ) → has (last_or x xs) (x ∷ xs) ≡ true
has-last_or x [] = ground arith
has-last_or x (y ∷ ys) = ground (arith, has-last_or y ys)

pub ne_of_has : (a b : ℕ) (xs : List ℕ) → has a xs ≡ true → has b xs ≡ false → b ≢ a
ne_of_has a b xs h k e = cc (h, k, ap (λ x. has x xs) e)

module _ (previous next : ℕ → ℕ) where
  -- A change of the links of a thread that is not in the list.
  pub Linked-next :
      (t v before stop : ℕ) (xs : List ℕ)
      → has t xs ≡ false
      → Linked previous next before stop xs
      → Linked previous (update next t v) before stop xs
  Linked-next t v before stop [] out l = tt
  Linked-next t v before stop (x ∷ xs) out (a, b, c, d) =
      (a, b, ground arith, Linked-next t v x stop xs (ground arith) d)

  pub Linked-previous :
      (t v before stop : ℕ) (xs : List ℕ)
      → has t xs ≡ false
      → Linked previous next before stop xs
      → Linked (update previous t v) next before stop xs
  Linked-previous t v before stop [] out l = tt
  Linked-previous t v before stop (x ∷ xs) out (a, b, c, d) =
      (a, ground arith, c, Linked-previous t v x stop xs (ground arith) d)

  -- The last thread is linked to another one.
  pub Linked-last :
      (x before stop t : ℕ) (xs : List ℕ)
      → Distinct (x ∷ xs)
      → Linked previous next before stop (x ∷ xs)
      → Linked previous (update next (last_or x xs) t) before t (x ∷ xs)
  Linked-last x before stop t [] d (a, b, c, l) = (a, b, ground arith, tt)
  Linked-last x before stop t (y ∷ ys) d (a, b, c, l) =
      let ne = ne_of_has (last_or y ys) x (y ∷ ys) (has-last_or y ys) d.0 in
      (a, b, update_ne next (last_or y ys) x t ne ∙ c, Linked-last y x stop t ys d.1 l)

  -- The first thread gets another one before it.
  pub Linked-first :
      (x before stop t : ℕ) (xs : List ℕ)
      → has x xs ≡ false
      → Linked previous next before stop (x ∷ xs)
      → Linked (update previous x t) next t stop (x ∷ xs)
  Linked-first x before stop t xs out (a, b, c, l) =
      (a, ground arith, c, Linked-previous x t x stop xs out l)

  pub Linked-append :
      (before stop : ℕ) (xs ys : List ℕ)
      → Linked previous next before (first_or stop ys) xs
      → Linked previous next (last_or before xs) stop ys
      → Linked previous next before stop (xs ++ ys)
  Linked-append before stop [] ys l m = m
  Linked-append before stop (x ∷ xs) ys (a, b, c, l) m =
      (a, b, ground (arith, first_or-append stop xs ys), Linked-append x stop xs ys l m)

  pub Linked-append_left :
      (before stop : ℕ) (xs ys : List ℕ)
      → Linked previous next before stop (xs ++ ys)
      → Linked previous next before (first_or stop ys) xs
  Linked-append_left before stop [] ys m = tt
  Linked-append_left before stop (x ∷ xs) ys (a, b, c, l) =
      (a, b, ground (arith, first_or-append stop xs ys), Linked-append_left x stop xs ys l)

  pub Linked-append_right :
      (before stop : ℕ) (xs ys : List ℕ)
      → Linked previous next before stop (xs ++ ys)
      → Linked previous next (last_or before xs) stop ys
  Linked-append_right before stop [] ys m = m
  Linked-append_right before stop (x ∷ xs) ys (a, b, c, l) = Linked-append_right x stop xs ys l
