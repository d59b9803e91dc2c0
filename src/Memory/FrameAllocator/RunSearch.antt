-- ===== src/Memory/FrameAllocator/RunSearch.antt =====
-- The two loops of `FindFreePages`: what they find, and that the fuel is enough.
use frosty_os_old.Common.{
  subst, sym, ◌-◌, ℕ, zero, suc, ◌+◌, ◌^◌, ◌≤◌, ◌<◌, ◌≡◌, refl, ◌∙◌, inl, inr, true, false, none,
  some, Bool-cases, eq_cases, lt_cases, add64, arith,
}
use frosty_os_old.Data.Bitmap.{Bitmap, get}
use frosty_os_old.Memory.FrameAllocator.Search.{probe, find_run}

-- The bits at `i + next`, ..., `i + count` are clear if the inner loop says so.
probe-found :
    (m : Bitmap) (i count rounds next j : ℕ)
    → (probe m i count rounds next).0 ≡ true
    → rounds + next ≡ count + 1
    → next ≤ j
    → j ≤ count
    → get m (add64 i j) ≡ false
unfolding probe
probe-found m i count zero next j e r a b = absurd (omega arith)
probe-found m i count (suc rounds) next j e r a b = elim (eq_cases next j) [
  | inl p ↦ ground arith
  | inr p ↦ ground (arith, probe-found m i count rounds (next + 1) j)
]

-- Otherwise it stops at a bit that is set, at least one place on.
probe-stops :
    (m : Bitmap) (i count rounds next : ℕ)
    → (probe m i count rounds next).0 ≡ false
    → rounds + next ≡ count + 1
    → (next ≤ (probe m i count rounds next).1)
      × ((probe m i count rounds next).1 ≤ count)
      × (get m (add64 i (probe m i count rounds next).1) ≡ true)
unfolding probe
probe-stops m i count zero next e r = cc
probe-stops m i count (suc rounds) next e r =
    ground (arith, probe-stops m i count rounds (next + 1))

-- `count + 1` clear bits from `k` on, where the first is in range. A bit out of range reads as clear.
abbrev pub IsRun : Bitmap → ℕ → ℕ → ℕ → Type 0
IsRun m total count k = (k < total) × ((j : ℕ) → j ≤ count → get m (add64 k j) ≡ false)

add64_small : (a b : ℕ) → a ≤ 2 ^ 48 → b ≤ 2 ^ 48 → add64 a b ≡ a + b
unfolding add64
add64_small a b h k = omega arith

module _ (m : Bitmap) (total count : ℕ) (small : total ≤ 2 ^ 48) (many : 2 ≤ count)
    (few : count ≤ 2 ^ 48) where
  -- One round of the loop, by the bit at `i` and what the inner loop says.
  find_run-marked :
      (fuel i : ℕ)
      → i < total
      → get m i ≡ true
      → find_run m total count (suc fuel) i ≡ find_run m total count fuel (i + 1)
  unfolding find_run
  find_run-marked fuel i h g = ground (arith, add64_small i 1)

  find_run-found :
      (fuel i : ℕ)
      → i < total
      → get m i ≡ false
      → (probe m i count count 1).0 ≡ true
      → find_run m total count (suc fuel) i ≡ some i
  unfolding find_run
  find_run-found fuel i h g p = ground arith

  find_run-jump :
      (fuel i : ℕ)
      → i < total
      → get m i ≡ false
      → (probe m i count count 1).0 ≡ false
      → find_run m total count (suc fuel) i
        ≡ find_run m total count fuel (i + (probe m i count count 1).1)
  unfolding find_run
  find_run-jump fuel i h g p =
      ground (arith, add64_small i (probe m i count count 1).1, probe-stops m i count count 1)

  find_run-spent : (i : ℕ) → find_run m total count 0 i ≡ none
  unfolding find_run
  find_run-spent i = refl

  find_run-end : (fuel i : ℕ) → total ≤ i → find_run m total count (suc fuel) i ≡ none
  unfolding find_run
  find_run-end fuel i h = ground arith

  run_here :
      (i j : ℕ)
      → i < total
      → get m i ≡ false
      → (probe m i count count 1).0 ≡ true
      → j ≤ count
      → get m (add64 i j) ≡ false
  run_here i zero h g p b = ground (arith, add64_small i 0)
  run_here i (suc j) h g p b = probe-found m i count count 1 (suc j) p (omega arith) (omega arith) b

  pub find_run-some :
      (fuel i k : ℕ) → find_run m total count fuel i ≡ some k → IsRun m total count k
  find_run-some zero i k e = cc (find_run-spent i)
  find_run-some (suc fuel) i k e = elim (lt_cases i total) [
    | inr h ↦ absurd (ground (arith, find_run-end fuel i h))
    | inl h ↦ elim (Bool-cases (get m i)) [
      | inl g ↦ find_run-some fuel (i + 1) k (sym (find_run-marked fuel i h g) ∙ e)
      | inr g ↦ elim (Bool-cases (probe m i count count 1).0) [
        | inl p ↦
            let q : i ≡ k = ground (arith, find_run-found fuel i h g p) in
            subst (IsRun m total count) q (h, λ j. run_here i j h g p)
        | inr p ↦ find_run-some fuel _ k (sym (find_run-jump fuel i h g p) ∙ e)
      ]
    ]
  ]

  -- A run that starts before the set bit at `i + n` would hold that bit.
  not_skipped :
      (i n k : ℕ)
      → i < total
      → n ≤ count
      → get m (add64 i n) ≡ true
      → i ≤ k
      → k < i + n
      → ¬ IsRun m total count k
  not_skipped i n k h a g b c run =
      ground
        (arith, add64_small i n, add64_small k (i + n - k), run.0, run.1 (i + n - k) (omega arith))

  -- If the loop finds nothing there is no such run: the fuel suffices, and no run is skipped.
  pub find_run-none :
      (fuel i k : ℕ)
      → find_run m total count fuel i ≡ none
      → total ≤ i + fuel
      → i ≤ k
      → ¬ IsRun m total count k
  find_run-none zero i k e f h run = absurd (omega (arith, run.0))
  find_run-none (suc fuel) i k e f h run = elim (lt_cases i total) [
    | inr a ↦ absurd (omega (arith, run.0))
    | inl a ↦ elim (Bool-cases (get m i)) [
      | inl g ↦ elim (eq_cases i k) [
        | inl q ↦ ground (arith, run.1 0 (omega arith), add64_small k 0)
        | inr q ↦
            find_run-none fuel (i + 1) k (sym (find_run-marked fuel i a g) ∙ e) (omega arith)
              (omega arith) run
      ]
      | inr g ↦ elim (Bool-cases (probe m i count count 1).0) [
        | inl p ↦ ground (arith, find_run-found fuel i a g p)
        | inr p ↦
            after_jump (probe m i count count 1).1 (find_run-jump fuel i a g p) a
              (probe-stops m i count count 1 p (omega arith))
              (λ n e' f' h'. find_run-none fuel (i + n) k e' f' h' run)
      ]
    ]
  ]
    where
      after_jump :
          (n : ℕ)
          → find_run m total count (suc fuel) i ≡ find_run m total count fuel (i + n)
          → i < total
          → (1 ≤ n) × (n ≤ count) × (get m (add64 i n) ≡ true)
          → ((n : ℕ)
              → find_run m total count fuel (i + n) ≡ none
              → total ≤ i + n + fuel
              → i + n ≤ k
              → ⊥)
          → ⊥
      after_jump n step a (b, c, d) again = elim (lt_cases k (i + n)) [
        | inl q ↦ not_skipped i n k a c d h q run
        | inr q ↦ again n (sym step ∙ e) (omega arith) q
      ]
