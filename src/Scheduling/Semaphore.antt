-- ===== src/Scheduling/Semaphore.antt =====
-- kernel/src/Scheduling/Semaphore.cpp. The waiting threads and the holders are sequences of threads, as
-- what `ThreadList` and `LockableLinkedList` stand for. What the scheduler is told is kept as a list
-- of orders, the last one first.
pub mod Effects
pub mod Permits
pub mod Fifo
use frosty_os_old.Common.{
  ℕ, ◌==◌, Bool, true, false, List, [], ◌∷◌, ◌++◌, if◌then◌else◌, update, has, add64, sub64,
}
use frosty_os_old.Common.Locking.{
  Outcome, ok, ◌>>=◌, ◌>>◌, return, get_state, modify, branch, take_lock,
}

pub data Order : Type 0 where
  removes : ℕ → Order
  readds : ℕ → Order
  switches : Order
  stops : ℕ → Order

pub record Semaphore : Type 0 where
  pub value : ℕ
  pub lock : Bool
  pub waiting : List ℕ
  pub waiting_lock : Bool
  pub holders : List ℕ
  pub holders_lock : Bool
  pub is_blocked : ℕ → Bool
  pub orders : List Order

abbrev pub M : Type 0 → Type 0
M A = Semaphore → Outcome Semaphore A

unfoldable pub lock_self : M (Unit {0})
lock_self = take_lock (λ (s : Semaphore). s.lock) (λ s. record s { lock = true })

unfoldable pub unlock_self : M (Unit {0})
unlock_self = modify (λ s. record s { lock = false })

unfoldable pub lock_waiting : M (Unit {0})
lock_waiting = take_lock (λ (s : Semaphore). s.waiting_lock) (λ s. record s { waiting_lock = true })

unfoldable pub unlock_waiting : M (Unit {0})
unlock_waiting = modify (λ s. record s { waiting_lock = false })

unfoldable pub lock_holders : M (Unit {0})
lock_holders = take_lock (λ (s : Semaphore). s.holders_lock) (λ s. record s { holders_lock = true })

unfoldable pub unlock_holders : M (Unit {0})
unlock_holders = modify (λ s. record s { holders_lock = false })

-- A call of the scheduler.
abbrev pub order : Order → M (Unit {0})
order o = modify (λ s. record s { orders = o ∷ s.orders })

-- `thread->SetBlocked(value)`
abbrev pub set_blocked : ℕ → Bool → M (Unit {0})
set_blocked thread value = modify (λ s. record s { is_blocked = update s.is_blocked thread value })

-- `remove(thread)` of a list: the first entry of that thread.
unfoldable pub remove_first : ℕ → List ℕ → List ℕ
remove_first t [] = []
remove_first t (x ∷ xs) = if x == t then xs else x ∷ remove_first t xs

-- A new semaphore; its threads are those of the system.
unfoldable pub make : ℕ → (ℕ → Bool) → Semaphore
make value is_blocked = record {
  value = value;
  lock = false;
  waiting = [];
  waiting_lock = false;
  holders = [];
  holders_lock = false;
  is_blocked = is_blocked;
  orders = [];
}

unfoldable pub hold : ℕ → M (Unit {0})
unfolding lock_holders unlock_holders
hold thread = do
  lock_holders
  modify (λ s. record s { holders = s.holders ++ thread ∷ [] })
  unlock_holders

-- `acquire` up to its end, or up to where it switches to another thread: the answer says whether it
-- has switched. `Scheduler::RemoveThread` unlinks the thread from the list of ready threads that it is in. The
-- thread that runs is in none. A thread that is in one loses there the links that `PushBack` has just set.
unfoldable pub acquire : ℕ → ℕ → M Bool
unfolding lock_self unlock_self lock_waiting unlock_waiting hold
acquire current thread = do
  lock_self
  s ← get_state
  branch (s.value == 0)
      (do
        lock_waiting
        modify (λ t. record t { waiting = t.waiting ++ thread ∷ [] })
        unlock_waiting
        order (removes thread)
        set_blocked thread true
        branch (current == thread) (do unlock_self; order switches; return true)
            (do order (stops thread); unlock_self; return false))
      (do
        modify (λ t. record t { value = sub64 t.value 1 })
        hold thread
        unlock_self
        return false)

-- What is left of `acquire` when the thread that switched runs again.
unfoldable pub resume : M (Unit {0})
unfolding unlock_self
resume = unlock_self

-- The first waiting thread gets the semaphore.
unfoldable pub hand_over : M (Unit {0})
unfolding lock_self unlock_self lock_waiting unlock_waiting hold
hand_over = do
  lock_waiting
  s ← get_state
  elim s.waiting [
    | [] ↦ unlock_waiting
    | next ∷ rest ↦ (do
      modify (λ t. record t { waiting = rest })
      unlock_waiting
      lock_self
      modify (λ t. record t { value = sub64 t.value 1 })
      unlock_self
      hold next
      set_blocked next false
      order (readds next))
  ]

unfoldable pub release : ℕ → M (Unit {0})
unfolding lock_self unlock_self lock_holders unlock_holders remove_first hand_over
release thread = do
  lock_holders
  s ← get_state
  branch (has thread s.holders)
      (do
        modify (λ t. record t { holders = remove_first thread t.holders })
        unlock_holders
        lock_self
        modify (λ t. record t { value = add64 t.value 1 })
        unlock_self
        hand_over)
      unlock_holders

unfoldable pub acquire_nolock : ℕ → M (Unit {0})
unfolding hold
acquire_nolock thread = do
  s ← get_state
  branch (s.value == 0) (return tt)
      do modify (λ t. record t { value = sub64 t.value 1 }); hold thread

unfoldable pub is_held_by : ℕ → M Bool
unfolding lock_holders unlock_holders
is_held_by thread = do lock_holders; s ← get_state; unlock_holders; return (has thread s.holders)

unfoldable pub is_waiting : ℕ → M Bool
unfolding lock_waiting unlock_waiting
is_waiting thread = do lock_waiting; s ← get_state; unlock_waiting; return (has thread s.waiting)

-- The loop of the destructor, over the threads that wait.
unfoldable pub wake_all : List ℕ → M (Unit {0})
wake_all [] s = ok tt s
wake_all (x ∷ xs) s = (set_blocked x false >> order (readds x) >> wake_all xs) s

unfoldable pub destroy : M (Unit {0})
unfolding lock_waiting unlock_waiting wake_all
destroy = do
  lock_waiting
  s ← get_state
  wake_all s.waiting
  modify (λ t. record t { waiting = [] })
  unlock_waiting
