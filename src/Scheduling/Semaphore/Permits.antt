-- ===== src/Scheduling/Semaphore/Permits.antt =====
-- No permit is lost or made: any sequence of calls.
use frosty_os_old.Common.{
  ap, subst, ◌∙◌, ℕ, suc, ◌+◌, ◌==◌, ◌<◌, ◌≡◌, ◌≢◌, ◌⊎◌, inl, inr, refl, Bool, true, false, List,
  [], ◌∷◌, ◌++◌, has, has-append, Distinct, length, length-append, add64, sub64, u64_mod,
  sub64-add64, arith, eq_cases, Bool-cases,
}
use frosty_os_old.Common.Locking.{ok, ◌>>=◌, ◌>>◌, return, bind_ok}
use frosty_os_old.Scheduling.Semaphore.{
  Semaphore, M, acquire, release, acquire_nolock, resume, remove_first,
}
use frosty_os_old.Scheduling.Semaphore.Effects.{
  IsFree, queued, told, taken, given_back, handed, acquire-queued, acquire-taken,
  acquire_nolock-taken, release-other, release-given_back, release-handed,
}

-- The locks are free, the value and the holders are the permits, threads wait only while the value is
-- 0, each of them once and blocked.
pub record Inv (permits : ℕ) (s : Semaphore) : Type 0 where
  pub free : IsFree s
  pub balance : s.value + length s.holders ≡ permits
  pub in_words : permits < u64_mod
  pub idle : (s.waiting ≡ []) ⊎ (s.value ≡ 0)
  pub once : Distinct s.waiting
  pub blocked : (t : ℕ) → has t s.waiting ≡ true → s.is_blocked t ≡ true

length-remove_first :
    (t : ℕ) (xs : List ℕ) → has t xs ≡ true → suc (length (remove_first t xs)) ≡ length xs
unfolding remove_first
length-remove_first t [] h = cc
length-remove_first t (x ∷ xs) h = ground (arith, length-remove_first t xs)

sub64_one : (v : ℕ) → v ≢ 0 → v < u64_mod → suc (sub64 v 1) ≡ v
unfolding sub64
sub64_one v h l = omega (arith, h)

add64_one : (v : ℕ) → suc v < u64_mod → add64 v 1 ≡ suc v
unfolding add64
add64_one v l = omega arith

Distinct-snoc : (t : ℕ) (xs : List ℕ) → has t xs ≡ false → Distinct xs → Distinct (xs ++ t ∷ [])
Distinct-snoc t [] out d = (refl, tt)
Distinct-snoc t (x ∷ xs) out d =
    (has-append x xs (t ∷ []) ∙ ground (arith, d.0), Distinct-snoc t xs (ground arith) d.1)

module _ (permits : ℕ) (s : Semaphore) (v : Inv permits s) where
  queued-Inv :
      (here : Bool) (t : ℕ)
      → s.value ≡ 0
      → has t s.waiting ≡ false
      → Inv permits (told here t (queued t s))
  queued-Inv here t e out = record {
    free = record {
      self_free = v.free.self_free;
      waiting_free = v.free.waiting_free;
      holders_free = v.free.holders_free;
    };
    balance = v.balance;
    in_words = v.in_words;
    idle = inr e;
    once = Distinct-snoc t s.waiting out v.once;
    blocked = λ a h. ground (arith, h, has-append a s.waiting (t ∷ []), v.blocked a);
  }

  taken-Inv : (t : ℕ) → s.value ≢ 0 → Inv permits (taken t s)
  taken-Inv t ne = record {
    free = record {
      self_free = v.free.self_free;
      waiting_free = v.free.waiting_free;
      holders_free = v.free.holders_free;
    };
    balance =
        omega
          (arith, v.balance, v.in_words, sub64_one s.value ne, length-append s.holders (t ∷ []));
    in_words = v.in_words;
    idle = elim v.idle [ inl e ↦ inl e | inr e ↦ absurd (ne e) ];
    once = v.once;
    blocked = v.blocked;
  }

  given_back-Inv : (t : ℕ) → has t s.holders ≡ true → s.waiting ≡ [] → Inv permits (given_back t s)
  given_back-Inv t h e = record {
    free = record {
      self_free = v.free.self_free;
      waiting_free = v.free.waiting_free;
      holders_free = v.free.holders_free;
    };
    balance =
        omega (arith, v.balance, v.in_words, add64_one s.value, length-remove_first t s.holders h);
    in_words = v.in_words;
    idle = inl e;
    once = v.once;
    blocked = v.blocked;
  }

  pub handed-Inv :
      (t next : ℕ) (rest : List ℕ)
      → has t s.holders ≡ true
      → s.waiting ≡ next ∷ rest
      → Inv permits (handed t next rest s)
  handed-Inv t next rest h e =
      let zero_now : s.value ≡ 0 = elim v.idle [ inl n ↦ cc | inr z ↦ z ] in
      let same = sub64-add64 s.value 1 in
      let once : Distinct (next ∷ rest) = subst Distinct e v.once in
      record {
        free = record {
          self_free = v.free.self_free;
          waiting_free = v.free.waiting_free;
          holders_free = v.free.holders_free;
        };
        balance = omega (
          arith,
          v.balance,
          same,
          zero_now,
          length-remove_first t s.holders h,
          length-append (remove_first t s.holders) (next ∷ []),
        );
        in_words = v.in_words;
        idle = inr (omega (arith, same, zero_now));
        once = once.1;
        blocked = λ a m.
            let still : has a s.waiting ≡ true = ap (has a) e ∙ ground (arith, m) in
            ground (arith, m, once.0, v.blocked a still);
      }

pub data Call : Type 0 where
  acquires : (current : ℕ) → (thread : ℕ) → Call
  tries : ℕ → Call
  releases : ℕ → Call
  resumes : Call

unfoldable pub step : Call → M (Unit {0})
unfolding acquire release acquire_nolock resume
step (acquires current thread) = do _ ← acquire current thread; return tt
step (tries thread) = acquire_nolock thread
step (releases thread) = release thread
step resumes = resume

unfoldable pub run : List Call → M (Unit {0})
unfolding step
run [] s = ok tt s
run (c ∷ cs) s = (step c >> run cs) s

-- A thread that waits does not ask again; where the value is 0, the thread that asks is the one that runs, which
-- is in no list of the scheduler, and which `Scheduler::RemoveThread` so leaves as it is.
abbrev pub IsFair : Semaphore → Call → Type 0
IsFair s (acquires current thread) =
    (has thread s.waiting ≡ false) × ((current ≡ thread) ⊎ (s.value ≢ 0))
IsFair s _ = Unit {0}

abbrev pub AllFair : Semaphore → List Call → Type 0
AllFair s [] = Unit {0}
AllFair s (c ∷ cs) = IsFair s c × ((u : Semaphore) → step c s ≡ ok tt u → AllFair u cs)

abbrev pub Ends : ℕ → M (Unit {0}) → Semaphore → Type 0
Ends permits m s = (u : Semaphore) × (m s ≡ ok tt u) × Inv permits u

release-Ends : (permits : ℕ) (s : Semaphore) (t : ℕ) → Inv permits s → Ends permits (release t) s
release-Ends permits s t v = elim (Bool-cases (has t s.holders)) [
  | inr other ↦ (s, release-other s v.free t other, v)
  | inl holds ↦ go s.waiting refl holds
]
  where
    go : (ws : List ℕ) → s.waiting ≡ ws → has t s.holders ≡ true → Ends permits (release t) s
    go [] e holds = (
      given_back t s,
      release-given_back s v.free t holds e,
      given_back-Inv permits s v t holds e,
    )
    go (n ∷ ws) e holds = (
      handed t n ws s,
      release-handed s v.free t n ws holds e,
      handed-Inv permits s v t n ws holds e,
    )

step-Ends :
    (permits : ℕ) (s : Semaphore) (c : Call) → Inv permits s → IsFair s c → Ends permits (step c) s
unfolding step
step-Ends permits s (acquires current thread) v fair = elim (eq_cases s.value 0) [
  | inl z ↦ (
    told (current == thread) thread (queued thread s),
    bind_ok (acquire current thread) (λ _. return tt) s
        (told (current == thread) thread (queued thread s)) (current == thread)
        (acquire-queued s v.free current thread z),
    queued-Inv permits s v (current == thread) thread z fair.0,
  )
  | inr n ↦ (
    taken thread s,
    bind_ok (acquire current thread) (λ _. return tt) s (taken thread s) false
        (acquire-taken s v.free current thread n),
    taken-Inv permits s v thread n,
  )
]
step-Ends permits s (tries thread) v fair = elim (eq_cases s.value 0) [
  | inl z ↦ (s, ground (arith, z), v)
  | inr n ↦ (taken thread s, acquire_nolock-taken s v.free thread n, taken-Inv permits s v thread n)
]
step-Ends permits s (releases thread) v fair = release-Ends permits s thread v
step-Ends permits s resumes v fair = (s, ground (arith, v.free.self_free), v)

-- From a semaphore that meets the invariant for a number of permits, every sequence of calls, in which no
-- thread that waits asks again, and in which a thread that asks while the value is 0 is the one that runs, goes
-- to its end with no deadlock and with the invariant: the value and the number of holders add up to the
-- permits, threads wait only while the value is 0, and each of them once and blocked.
pub run_calls-Inv :
    (permits : ℕ) (s : Semaphore) (cs : List Call)
    → Inv permits s
    → AllFair s cs
    → Ends permits (run cs) s
unfolding run
run_calls-Inv permits s [] v f = (s, refl, v)
run_calls-Inv permits s (c ∷ cs) v f =
    let (t, e, w) = step-Ends permits s c v f.0 in
    let (u, g, x) = run_calls-Inv permits t cs w (f.1 t e) in
    (u, bind_ok (step c) (λ _. run cs) s t tt e ∙ g, x)
