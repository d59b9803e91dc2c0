-- ===== src/Common/Partial.antt =====
-- `Option` as the monad of code that may dereference a null pointer: `none` is the fault.

use frosty_os_old.Common.{if◌then◌else◌, false, true, Bool, refl, ◌≡◌}
use mathlib.Core.Option.{Option, none, some}

infixl 5 ◌>>=◌
abbrev pub ◌>>=◌ {ℓ κ} : {A : Type ℓ} {B : Type κ} → Option A → (A → Option B) → Option B
none >>= f = none
some a >>= f = f a

-- The rests need to agree only at the value there is.
pub bind_same {ℓ κ} :
    {A : Type ℓ} {B : Type κ} (o : Option A) (f g : A → Option B)
    → ((a : A) → o ≡ some a → f a ≡ g a)
    → (o >>= f) ≡ (o >>= g)
bind_same none f g same = refl
bind_same (some a) f g same = same a refl

-- A test that holds and a value that is there.
pub if_bind {ℓ κ} :
    {A : Type ℓ} {B : Type κ} (b : Bool) (o : Option A) (f : A → Option B) (d : Option B) (a : A)
    → b ≡ true
    → o ≡ some a
    → (if b then (o >>= f) else d) ≡ f a
if_bind b o f d a e e' = rw (e, e') refl

pub if_else {ℓ} : {A : Type ℓ} (b : Bool) (x y : A) → b ≡ false → (if b then x else y) ≡ y
if_else b x y e = rw e refl
