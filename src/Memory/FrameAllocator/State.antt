-- ===== src/Memory/FrameAllocator/State.antt =====
-- The fields of `PhysicalPageFrameAllocator` and the calls of its spinlocks
-- (kernel/src/Memory/PhysicalPageFrameAllocator.hpp). The kernel has no other thread here: to acquire
-- a lock that is held spins for ever, which is the outcome `deadlock`.
use frosty_os_old.Common.{ℕ, ◌/◌, ◌*◌, ◌%◌, Bool, true, false, u64_mod}
use frosty_os_old.Data.Bitmap.{Bitmap}

pub record Allocator : Type 0 where
  pub bitmap : Bitmap
  pub free_mem : ℕ
  pub reserved_mem : ℕ
  pub used_mem : ℕ
  pub mem_size : ℕ
  pub next_free : ℕ
  pub fully_initialised : Bool
  pub bitmap_lock : Bool
  pub global_lock : Bool

-- `PANIC` and a deadlock end the run.
pub data Outcome {ℓ} (A : Type ℓ) : Type ℓ where
  ok : A → Allocator → Outcome A
  panic : Outcome A
  deadlock : Outcome A

abbrev pub M : Type 0 → Type 0
M A = Allocator → Outcome A

infixl 5 ◌>>=◌ ◌>>◌
abbrev pub ◌>>=◌ : {A B : Type 0} → M A → (A → M B) → M B
◌>>=◌ m f s = elim (m s) [ ok a t ↦ f a t | panic ↦ panic | deadlock ↦ deadlock ]

abbrev pub ◌>>◌ : {B : Type 0} → M (Unit {0}) → M B → M B
m >> k = m >>= λ _. k

abbrev pub return : {A : Type 0} → A → M A
return a s = ok a s

abbrev pub read : M Allocator
read s = ok s s

abbrev pub modify : (Allocator → Allocator) → M (Unit {0})
modify f s = ok tt (f s)

-- `if` between two actions.
abbrev pub branch : {A : Type 0} → Bool → M A → M A → M A
branch b m n s = elim b [ true ↦ m s | false ↦ n s ]

abbrev pub stop : {A : Type 0} → M A
stop s = panic

-- `if (m_fullyInitialised) spinlock_acquire(&m_BitmapLock);`, and so for the other three.
unfoldable pub lock_bitmap : M (Unit {0})
lock_bitmap s = elim s.fully_initialised [
  | true ↦ elim s.bitmap_lock [ true ↦ deadlock | false ↦ ok tt (record s { bitmap_lock = true }) ]
  | false ↦ ok tt s
]

unfoldable pub unlock_bitmap : M (Unit {0})
unlock_bitmap s = elim s.fully_initialised [
  | true ↦ ok tt (record s { bitmap_lock = false })
  | false ↦ ok tt s
]

unfoldable pub lock_global : M (Unit {0})
lock_global s = elim s.fully_initialised [
  | true ↦ elim s.global_lock [ true ↦ deadlock | false ↦ ok tt (record s { global_lock = true }) ]
  | false ↦ ok tt s
]

unfoldable pub unlock_global : M (Unit {0})
unlock_global s = elim s.fully_initialised [
  | true ↦ ok tt (record s { global_lock = false })
  | false ↦ ok tt s
]

abbrev pub page_size : ℕ
page_size = 4096

-- `(void*)(index * 4096)`
unfoldable pub address : ℕ → ℕ
address index = (index * page_size) % u64_mod

-- `(uint64_t)page >> 12`
unfoldable pub frame : ℕ → ℕ
frame page = page / page_size

-- `m_Bitmap.GetSize() << 3`
unfoldable pub frames : Allocator → ℕ
frames s = (s.bitmap.size * 8) % u64_mod
