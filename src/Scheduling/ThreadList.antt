-- ===== src/Scheduling/ThreadList.antt =====
-- `ThreadList` in kernel/src/Scheduling/Scheduler.cpp: a list through the links that each thread has
-- itself. A thread is the number of its address, 0 is null, and `none` is a dereference of null.
pub mod Linked
pub mod Deque
pub mod Pops
pub mod Replies
pub mod Miscount
use frosty_os_old.Common.{
  ℕ, zero, suc, ◌==◌, leb, Bool, true, false, Option, none, some, if◌then◌else◌, update, add64,
  sub64,
}
use frosty_os_old.Common.Partial.{◌>>=◌}

-- The links of all threads, and the fields of the list.
pub record Threads : Type 0 where
  pub previous : ℕ → ℕ
  pub next : ℕ → ℕ
  pub start : ℕ
  pub end : ℕ
  pub count : ℕ

-- `thread->SetNextThread(link)`, and so for the other three.
unfoldable pub set_next : ℕ → ℕ → Threads → Option Threads
set_next thread link s =
    if thread == 0 then none else some (record s { next = update s.next thread link })

unfoldable pub set_previous : ℕ → ℕ → Threads → Option Threads
set_previous thread link s =
    if thread == 0 then none else some (record s { previous = update s.previous thread link })

unfoldable pub get_next : ℕ → Threads → Option ℕ
get_next thread s = if thread == 0 then none else some (s.next thread)

unfoldable pub get_previous : ℕ → Threads → Option ℕ
get_previous thread s = if thread == 0 then none else some (s.previous thread)

unfoldable pub push_back : ℕ → Threads → Option Threads
unfolding set_next set_previous
push_back thread s = do
  s1 ← if s.end == 0 then some s else set_next s.end thread s
  s2 ← set_previous thread s1.end s1
  some (record s2 {
    end = thread;
    start = if s2.start == 0 then thread else s2.start;
    count = add64 s2.count 1;
  })

unfoldable pub push_front : ℕ → Threads → Option Threads
unfolding set_next set_previous
push_front thread s = do
  s1 ← set_next thread s.start s
  s2 ← if s1.start == 0 then some s1 else set_previous s1.start thread s1
  some (record s2 {
    start = thread;
    end = if s2.end == 0 then thread else s2.end;
    count = add64 s2.count 1;
  })

-- The thread, or null, and the list afterwards.
unfoldable pub pop_back : Threads → Option (ℕ × Threads)
unfolding set_next set_previous get_previous
pop_back s =
    let many = (do
      before ← get_previous s.end s
      s1 ← set_next before 0 (record s { end = before })
      s2 ← set_previous s.end 0 s1
      some (s.end, record s2 { count = sub64 s2.count 1 })) in
    if s.count == 0
    then some (0, s)
    else if s.count == 1
    then some (s.end, record s { start = 0; end = 0; count = 0 })
    else many

unfoldable pub pop_front : Threads → Option (ℕ × Threads)
unfolding set_next set_previous get_next
pop_front s =
    let many = (do
      after ← get_next s.start s
      s1 ← set_previous after 0 (record s { start = after })
      s2 ← set_next s.start 0 s1
      some (s.start, record s2 { count = sub64 s2.count 1 })) in
    if s.count == 0
    then some (0, s)
    else if s.count == 1
    then some (s.start, record s { start = 0; end = 0; count = 0 })
    else many

-- What `RemoveThread` does when it has come to the thread.
unfoldable pub unlink : ℕ → Threads → Option Threads
unfolding set_next set_previous get_next get_previous
unlink t s =
    let first = (do
      after ← get_next t s
      let s1 = record s { start = after }
      if after == 0 then some s1 else set_previous after 0 s1) in
    let last = (do
      before ← get_previous t s
      let s1 = record s { end = before }
      if before == 0 then some s1 else set_next before 0 s1) in
    let inner = (do
      before ← get_previous t s
      after ← get_next t s
      s1 ← set_next before after s
      after' ← get_next t s1
      before' ← get_previous t s1
      set_previous after' before' s1) in
    (do
      s1 ← if t == s.start then first else if t == s.end then last else inner
      s2 ← set_next t 0 s1
      set_previous t 0 s2)

-- The loop of `RemoveThread`: the rounds left, and `current`.
unfoldable pub remove_loop : ℕ → ℕ → ℕ → Threads → Option (Bool × Threads)
unfolding unlink get_next
remove_loop zero thread current s = none
remove_loop (suc fuel) thread current s =
    let found = (do s1 ← unlink current s; some (true, s1)) in
    let rest = remove_loop fuel thread (s.next current) s in
    if current == 0 then some (false, s) else if current == thread then found else rest

unfoldable pub remove_thread : ℕ → ℕ → Threads → Option (Bool × Threads)
unfolding remove_loop
remove_thread fuel thread s = remove_loop fuel thread s.start s

-- The loop of `Get`: the rounds left.
unfoldable pub walk : ℕ → ℕ → Threads → Option ℕ
unfolding get_next
walk zero current s = some current
walk (suc rounds) current s = do after ← get_next current s; walk rounds after s

unfoldable pub get_at : ℕ → Threads → Option ℕ
unfolding walk
get_at index s = if leb s.count index then some 0 else walk index s.start s

-- The loop of `Contains`, on fuel.
unfoldable pub search_from : ℕ → ℕ → ℕ → Threads → Option Bool
search_from zero thread current s = none
search_from (suc fuel) thread current s =
    let rest = search_from fuel thread (s.next current) s in
    if current == 0 then some false else if current == thread then some true else rest

unfoldable pub contains : ℕ → ℕ → Threads → Option Bool
unfolding search_from
contains fuel thread s = search_from fuel thread s.start s
