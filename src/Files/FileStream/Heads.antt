-- ===== src/Files/FileStream/Heads.antt =====
-- kernel/src/fs/FileStream.cpp: a stream keeps its own head, so that the head that the inode has before a call
-- is of no effect.
use frosty_os_old.Common.{List, [], ◌∷◌, map, ap, sym, ◌∙◌, refl, ◌∷◌, List, ◌≡◌, arith}
use frosty_os_old.Files.FileStream.{
  return, modify, ◌>>=◌, ◌>>◌, Head, no_head, Streams, State, Outcome, done, deadlock, fault,
}
use frosty_os_old.Files.FileStream.Calls.{
  run, Call, opens, closes, reads, writes, seeks, rewinds, asks_offset, asks_open, asks_size,
  asks_file_system, Answer, call, open_stream, close_stream, read_stream, write_stream, seek,
  rewind, get_offset, is_open, get_size, get_file_system,
}
use frosty_os_old.Files.FileStream.Actions.{
  Action, Action, if_mounted, if_temp_fs, if_file, if_type, set_current_head, is_file,
}

module _ {C : Type 0} where
  abbrev pub with_head : Head → State C → State C
  with_head h s = record s { inode = record s.inode { head = h } }

  -- An outcome but for the head of the inode.
  abbrev pub but_head : {A : Type 0} → Outcome (State C) A → Outcome (State C) A
  but_head (done a t) = done a (with_head no_head t)
  but_head deadlock = deadlock
  but_head fault = fault

  -- Every call, from every state, answers the same and leaves the same stream and contents whatever the head
  -- of the inode is before.
  pub call-with_head :
      (ops : Streams C) (c : Call) (s : State C) (h : Head)
      → but_head (call ops c (with_head h s)) ≡ but_head (call ops c s)
  unfolding call open_stream close_stream read_stream write_stream seek rewind get_offset is_open
      get_size get_file_system if_mounted if_temp_fs if_file if_type set_current_head is_file
  call-with_head ops opens s h = ground arith
  call-with_head ops closes s h = ground arith
  call-with_head ops (reads bytes count) s h = ground arith
  call-with_head ops (writes bytes count) s h = ground arith
  call-with_head ops (seeks offset) s h = ground arith
  call-with_head ops rewinds s h = ground arith
  call-with_head ops asks_offset s h = ground arith
  call-with_head ops asks_open s h = ground arith
  call-with_head ops asks_size s h = ground arith
  call-with_head ops asks_file_system s h = ground arith

module _ {C : Type 0} where
  abbrev Alike : State C → State C → Type 0
  Alike s t = with_head no_head s ≡ with_head no_head t

  abbrev chain : {A B : Type 0} → (A → Action C B) → Outcome (State C) A → Outcome (State C) B
  chain f o = elim o [ done a t ↦ f a t | deadlock ↦ deadlock | fault ↦ fault ]

  -- What follows outcomes that are the same but for the head.
  chain-but_head :
      {A B : Type 0} (f g : A → Action C B) (o p : Outcome (State C) A)
      → ((a : A) (s t : State C) → Alike s t → but_head (f a s) ≡ but_head (g a t))
      → but_head o ≡ but_head p
      → but_head (chain f o) ≡ but_head (chain g p)
  chain-but_head f g (done a s) (done b t) next e =
      let same : a ≡ b = cc in
      let alike : Alike s t = cc in ap (λ a. but_head (f a s)) same ∙ next b s t alike
  chain-but_head f g deadlock deadlock next e = refl
  chain-but_head f g fault fault next e = refl
  chain-but_head f g (done a s) deadlock next e = cc
  chain-but_head f g (done a s) fault next e = cc
  chain-but_head f g deadlock (done b t) next e = cc
  chain-but_head f g deadlock fault next e = cc
  chain-but_head f g fault (done b t) next e = cc
  chain-but_head f g fault deadlock next e = cc

-- Calls in a row, where before each of them another stream leaves its head in the inode.
module _ {C : Type 0} (ops : Streams C) where
  unfoldable pub run_among : List (Head × Call) → Action C (List Answer)
  unfolding call
  run_among [] = return []
  run_among ((h, c) ∷ xs) =
      modify (with_head h) >> call ops c >>= λ a. run_among xs >>= λ later. return (a ∷ later)

  call-Alike :
      (c : Call) (h : Head) (s t : State C)
      → Alike s t
      → but_head (call ops c (with_head h s)) ≡ but_head (call ops c t)
  call-Alike c h s t e =
      call-with_head ops c s h
      ∙ sym (call-with_head ops c s no_head)
      ∙ ap (λ u. but_head (call ops c u)) e
      ∙ call-with_head ops c t no_head

  run_among-Alike :
      (xs : List (Head × Call)) (s t : State C)
      → Alike s t
      → but_head (run_among xs s) ≡ but_head (run ops (map (λ x. x.1) xs) t)
  unfolding run run_among
  run_among-Alike [] s t e = ap (λ u. done [] u) e
  run_among-Alike ((h, c) ∷ xs) s t e =
      chain-but_head (λ a. run_among xs >>= λ later. return (a ∷ later))
        (λ a. run ops (map (λ x. x.1) xs) >>= λ later. return (a ∷ later))
        (call ops c (with_head h s)) (call ops c t)
        (λ a u w e'.
          chain-but_head (λ later. return (a ∷ later)) (λ later. return (a ∷ later))
            (run_among xs u) (run ops (map (λ x. x.1) xs) w)
            (λ later u' w' e''. ap (λ z. done (a ∷ later) z) e'') (run_among-Alike xs u w e'))
        (call-Alike c h s t e)

  -- Every sequence of calls, from every state, answers the same and leaves the same stream and contents,
  -- or deadlocks or faults the same, whatever heads other streams leave in the inode before each call.
  pub run_among-run :
      (xs : List (Head × Call)) (s : State C)
      → but_head (run_among xs s) ≡ but_head (run ops (map (λ x. x.1) xs) s)
  run_among-run xs s = run_among-Alike xs s s refl
