-- ===== src/Tests/Threads.antt =====
-- The list of threads and the semaphore of kernel/src/Scheduling.
use frosty_os_old.Common.{
  ◌<◌, ℕ, ◌≡◌, refl, sym, ap, arith, true, false, some, none, List, [], ◌∷◌, has, length, update,
  map, inl, inr,
}
use frosty_os_old.Common.Locking.{Outcome, ok, deadlock}
use frosty_os_old.Scheduling.ThreadList.{Threads, remove_thread, pop_front}
use frosty_os_old.Scheduling.ThreadList.Deque.{IsDeque}
use frosty_os_old.Scheduling.ThreadList.Replies.{Op, replies, model_replies, replies-model_replies}
use frosty_os_old.Scheduling.ThreadList.Miscount.{remove_thread_miscounts, pop_front-remove_thread}
use frosty_os_old.Scheduling.Semaphore.{Semaphore, make, release, acquire}
use frosty_os_old.Scheduling.Semaphore.Permits.{Inv, Call, Ends, run, step, run_calls-Inv}
use frosty_os_old.Scheduling.Semaphore.Fifo.{IsServed, run-serves}

abbrev no_threads : Threads
no_threads = record { previous = λ i. 0; next = λ i. 0; start = 0; end = 0; count = 0 }

abbrev two_threads : Threads
two_threads = record {
  previous = update (λ i. 0) 2 1;
  next = update (λ i. 0) 1 2;
  start = 1;
  end = 2;
  count = 2;
}

no_threads-IsDeque : IsDeque no_threads []
no_threads-IsDeque = record {
  distinct = tt;
  linked = tt;
  starts = refl;
  ends = refl;
  counted = refl;
  clean = λ t h. (refl, refl);
}

two_threads-IsDeque : IsDeque two_threads (1 ∷ 2 ∷ [])
two_threads-IsDeque = record {
  distinct = (refl, (refl, tt));
  linked = (omega arith, refl, refl, (omega arith, refl, refl, tt));
  starts = refl;
  ends = refl;
  counted = refl;
  clean = λ t h. ground (arith, h);
}

abbrev calls : List Op
calls = Op.pushes_back 1 ∷ Op.pushes_front 2 ∷ Op.pops_back ∷ Op.pops_back ∷ []

replies-model_replies_example : replies no_threads calls ≡ some (model_replies [] calls)
replies-model_replies_example = replies-model_replies no_threads [] calls no_threads-IsDeque (
  (omega arith, refl, omega arith),
  ((omega arith, refl, omega arith), (omega arith, (omega arith, tt))),
)

remove_thread_miscounts_example :
    (u : Threads) × (remove_thread 3 2 two_threads ≡ some (true, u))
    × (u.count ≡ 2)
    × ((ys : List ℕ) → length ys < 2 → ¬ IsDeque u ys)
remove_thread_miscounts_example =
    remove_thread_miscounts 3 2 two_threads (1 ∷ 2 ∷ []) two_threads-IsDeque refl (omega arith)

pop_front-remove_thread_example :
    (u : Threads) × (remove_thread 3 1 two_threads ≡ some (true, u)) × (pop_front u ≡ none)
pop_front-remove_thread_example = pop_front-remove_thread 1 2 two_threads two_threads-IsDeque

abbrev one_permit : Semaphore
unfolding make
one_permit = make 1 (λ i. false)

abbrev waiting_of : Outcome Semaphore (Unit {0}) → List ℕ
waiting_of (ok a s) = s.waiting
waiting_of deadlock = []

abbrev holders_of : Outcome Semaphore (Unit {0}) → List ℕ
holders_of (ok a s) = s.holders
holders_of deadlock = []

make-Inv : Inv 1 (make 1 (λ i. false))
unfolding make
make-Inv = record {
  free = record { self_free = refl; waiting_free = refl; holders_free = refl };
  balance = refl;
  in_words = omega arith;
  idle = inl refl;
  once = tt;
  blocked = λ t h. cc;
}

run_calls-Inv_example :
    Ends 1
      (run (Call.acquires 7 7 ∷ Call.acquires 8 8 ∷ Call.releases 7 ∷ []))
      (make 1 (λ i. false))
unfolding make acquire step
run_calls-Inv_example =
    run_calls-Inv 1 (make 1 (λ i. false))
      (Call.acquires 7 7 ∷ Call.acquires 8 8 ∷ Call.releases 7 ∷ []) make-Inv
      (
        (refl, inl refl),
        λ u e. ((ap (λ o. has 8 (waiting_of o)) (sym e), inl refl), λ v f. (tt, λ w g. tt)),
      )

-- Thread 5 holds the only permit, 6 and 7 wait.
abbrev queue : Semaphore
queue = record {
  value = 0;
  lock = false;
  waiting = 6 ∷ 7 ∷ [];
  waiting_lock = false;
  holders = 5 ∷ [];
  holders_lock = false;
  is_blocked = λ t. true;
  orders = [];
}

queue-Inv : Inv 1 queue
queue-Inv = record {
  free = record { self_free = refl; waiting_free = refl; holders_free = refl };
  balance = refl;
  in_words = omega arith;
  idle = inr refl;
  once = (refl, (refl, tt));
  blocked = λ t h. refl;
}

run-serves_example :
    (u : Semaphore) × (run (map Call.releases (5 ∷ 6 ∷ [])) queue ≡ ok tt u) × IsServed 7 [] u
unfolding release
run-serves_example =
    run-serves 1 queue (6 ∷ []) 7 [] (5 ∷ 6 ∷ []) queue-Inv refl refl
      (refl, λ u e. (ap (λ o. has 6 (holders_of o)) (sym e), λ v f. tt))
