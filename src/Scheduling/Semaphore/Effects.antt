-- ===== src/Scheduling/Semaphore/Effects.antt =====
-- What the calls leave, as states.
use frosty_os_old.Common.{
  if◌then◌else◌, ℕ, ◌==◌, ◌≡◌, ◌≢◌, Bool, true, false, List, [], ◌∷◌, ◌++◌, has, update, add64,
  sub64, arith,
}
use frosty_os_old.Common.Locking.{ok}
use frosty_os_old.Scheduling.Semaphore.{
  Semaphore, removes, readds, switches, stops, acquire, release, acquire_nolock, remove_first,
}

pub record IsFree (s : Semaphore) : Type 0 where
  pub self_free : s.lock ≡ false
  pub waiting_free : s.waiting_lock ≡ false
  pub holders_free : s.holders_lock ≡ false

abbrev pub queued : ℕ → Semaphore → Semaphore
queued t s = record s {
  waiting = s.waiting ++ t ∷ [];
  is_blocked = update s.is_blocked t true;
  orders = removes t ∷ s.orders;
}

-- The order that follows the removal from the scheduler.
abbrev pub told : Bool → ℕ → Semaphore → Semaphore
told here t s = record s { orders = (if here then switches else stops t) ∷ s.orders }

abbrev pub taken : ℕ → Semaphore → Semaphore
taken t s = record s { value = sub64 s.value 1; holders = s.holders ++ t ∷ [] }

abbrev pub given_back : ℕ → Semaphore → Semaphore
given_back t s = record s { value = add64 s.value 1; holders = remove_first t s.holders }

abbrev pub handed : ℕ → ℕ → List ℕ → Semaphore → Semaphore
handed t next rest s = record s {
  value = sub64 (add64 s.value 1) 1;
  holders = remove_first t s.holders ++ next ∷ [];
  waiting = rest;
  is_blocked = update s.is_blocked next false;
  orders = readds next ∷ s.orders;
}

module _ (s : Semaphore) (f : IsFree s) where
  pub acquire-queued :
      (current t : ℕ)
      → s.value ≡ 0
      → acquire current t s ≡ ok (current == t) (told (current == t) t (queued t s))
  unfolding acquire
  acquire-queued current t e = ground (arith, f.self_free, f.waiting_free)

  pub acquire-taken : (current t : ℕ) → s.value ≢ 0 → acquire current t s ≡ ok false (taken t s)
  unfolding acquire
  acquire-taken current t e = ground (arith, f.self_free, f.holders_free)

  pub acquire_nolock-taken : (t : ℕ) → s.value ≢ 0 → acquire_nolock t s ≡ ok tt (taken t s)
  unfolding acquire_nolock
  acquire_nolock-taken t e = ground (arith, f.holders_free)

  pub release-other : (t : ℕ) → has t s.holders ≡ false → release t s ≡ ok tt s
  unfolding release
  release-other t e = ground (arith, f.holders_free)

  pub release-given_back :
      (t : ℕ) → has t s.holders ≡ true → s.waiting ≡ [] → release t s ≡ ok tt (given_back t s)
  unfolding release
  release-given_back t e w = ground (arith, f.self_free, f.waiting_free, f.holders_free)

  pub release-handed :
      (t next : ℕ) (rest : List ℕ)
      → has t s.holders ≡ true
      → s.waiting ≡ next ∷ rest
      → release t s ≡ ok tt (handed t next rest s)
  unfolding release
  release-handed t next rest e w = ground (arith, f.self_free, f.waiting_free, f.holders_free)
