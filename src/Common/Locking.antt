-- ===== src/Common/Locking.antt =====
-- Actions on a state that hold spinlocks. Nothing else runs: to acquire a lock that is held spins for
-- ever, which is the outcome `deadlock`.
use mathlib.Core.Bool.{Bool, true, false}
use mathlib.Core.Path.{◌≡◌, ap}

pub data Outcome {ℓ κ} (S : Type ℓ) (A : Type κ) : Type (ℓ ⊔ κ) where
  ok : A → S → Outcome S A
  deadlock : Outcome S A

module _ {ℓ} {S : Type ℓ} where
  infixl 5 ◌>>=◌ ◌>>◌
  abbrev pub ◌>>=◌ {κ μ} :
      {A : Type κ} {B : Type μ} → (S → Outcome S A) → (A → S → Outcome S B) → S → Outcome S B
  ◌>>=◌ m f s = elim (m s) [ ok a t ↦ f a t | deadlock ↦ deadlock ]

  abbrev pub ◌>>◌ {κ μ} :
      {A : Type κ} {B : Type μ} → (S → Outcome S A) → (S → Outcome S B) → S → Outcome S B
  m >> k = m >>= λ _. k

  abbrev pub return {κ} : {A : Type κ} → A → S → Outcome S A
  return a s = ok a s

  abbrev pub get_state : S → Outcome S S
  get_state s = ok s s

  abbrev pub modify : (S → S) → S → Outcome S (Unit {0})
  modify f s = ok tt (f s)

  -- `if` between two actions.
  abbrev pub branch {κ} :
      {A : Type κ} → Bool → (S → Outcome S A) → (S → Outcome S A) → S → Outcome S A
  branch b m n s = elim b [ true ↦ m s | false ↦ n s ]

  -- `spinlock_acquire` of the lock that the first function reads and the second one takes.
  abbrev pub take_lock : (S → Bool) → (S → S) → S → Outcome S (Unit {0})
  take_lock is_held hold s = elim (is_held s) [ true ↦ deadlock | false ↦ ok tt (hold s) ]

module _ {ℓ} {S A B : Type ℓ} (m : S → Outcome S A) (f : A → S → Outcome S B) (s : S) where
  abbrev chain : Outcome S A → Outcome S B
  chain o = elim o [ ok a t ↦ f a t | deadlock ↦ deadlock ]

  -- The rest runs from where the first action ends.
  pub bind_ok : (t : S) (a : A) → m s ≡ ok a t → (m >>= f) s ≡ f a t
  bind_ok t a e = ap chain e

  pub bind_deadlock : m s ≡ deadlock → (m >>= f) s ≡ deadlock
  bind_deadlock e = ap chain e
