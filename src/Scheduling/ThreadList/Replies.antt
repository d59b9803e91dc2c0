-- ===== src/Scheduling/ThreadList/Replies.antt =====
-- Any sequence of pushes and pops, and the sequence of threads that it works on.
use frosty_os_old.Common.{
  ℕ, suc, ◌<◌, ◌≡◌, ◌≢◌, refl, false, Option, some, List, [], ◌∷◌, ◌++◌, has, length, tail, u64_mod,
}
use frosty_os_old.Common.Partial.{◌>>=◌}
use frosty_os_old.Scheduling.ThreadList.{Threads, push_back, push_front, pop_back, pop_front}
use frosty_os_old.Scheduling.ThreadList.Linked.{first_or, last_or}
use frosty_os_old.Scheduling.ThreadList.Deque.{IsDeque, push_back-IsDeque, push_front-IsDeque}
use frosty_os_old.Scheduling.ThreadList.Pops.{drop_last, pop_back-IsDeque, pop_front-IsDeque}

pub data Op : Type 0 where
  pushes_back : ℕ → Op
  pushes_front : ℕ → Op
  pops_back : Op
  pops_front : Op

-- The thread that a call answers with, 0 where it has no answer, and the list afterwards.
unfoldable pub call : Threads → Op → Option (ℕ × Threads)
unfolding push_back push_front pop_back pop_front
call s (pushes_back t) = do u ← push_back t s; some (0, u)
call s (pushes_front t) = do u ← push_front t s; some (0, u)
call s pops_back = pop_back s
call s pops_front = pop_front s

unfoldable pub replies : Threads → List Op → Option (List ℕ)
unfolding call
replies s [] = some []
replies s (o ∷ os) = do (a, u) ← call s o; as' ← replies u os; some (a ∷ as')

-- The same on a sequence.
abbrev pub model_call : List ℕ → Op → ℕ × List ℕ
model_call xs (pushes_back t) = (0, xs ++ t ∷ [])
model_call xs (pushes_front t) = (0, t ∷ xs)
model_call xs pops_back = (last_or 0 xs, drop_last xs)
model_call xs pops_front = (first_or 0 xs, tail xs)

abbrev pub model_replies : List ℕ → List Op → List ℕ
model_replies xs [] = []
model_replies xs (o ∷ os) = (model_call xs o).0 ∷ model_replies (model_call xs o).1 os

-- Only a thread that is in no list is pushed, and there is room to count it.
abbrev pub MayPush : List ℕ → ℕ → Type 0
MayPush xs t = (t ≢ 0) × (has t xs ≡ false) × (suc (length xs) < u64_mod)

abbrev pub MayCall : List ℕ → Op → Type 0
MayCall xs (pushes_back t) = MayPush xs t
MayCall xs (pushes_front t) = MayPush xs t
MayCall xs pops_back = length xs < u64_mod
MayCall xs pops_front = length xs < u64_mod

abbrev pub MayCallAll : List ℕ → List Op → Type 0
MayCallAll xs [] = Unit {0}
MayCallAll xs (o ∷ os) = MayCall xs o × MayCallAll (model_call xs o).1 os

call-IsDeque :
    (s : Threads) (xs : List ℕ) (o : Op)
    → IsDeque s xs
    → MayCall xs o
    → (u : Threads) × (call s o ≡ some ((model_call xs o).0, u)) × IsDeque u (model_call xs o).1
unfolding call
call-IsDeque s xs (pushes_back t) v (ne, out, room) =
    let (u, e, w) = push_back-IsDeque t s xs v ne out room in (u, rw e refl, w)
call-IsDeque s xs (pushes_front t) v (ne, out, room) =
    let (u, e, w) = push_front-IsDeque t s xs v ne out room in (u, rw e refl, w)
call-IsDeque s xs pops_back v room = pop_back-IsDeque s xs v room
call-IsDeque s xs pops_front v room = pop_front-IsDeque s xs v room

-- For a list that holds a sequence of threads, all other threads with null links, every sequence of
-- pushes and pops, at either end, of which each push is of a thread that is not in the list,
-- dereferences no null and answers as the sequence does.
pub replies-model_replies :
    (s : Threads) (xs : List ℕ) (os : List Op)
    → IsDeque s xs
    → MayCallAll xs os
    → replies s os ≡ some (model_replies xs os)
unfolding replies
replies-model_replies s xs [] v f = refl
replies-model_replies s xs (o ∷ os) v f =
    let (u, e, w) = call-IsDeque s xs o v f.0 in
    rw (e, replies-model_replies u (model_call xs o).1 os w f.1) refl
