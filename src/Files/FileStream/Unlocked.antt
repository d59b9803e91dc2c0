-- ===== src/Files/FileStream/Unlocked.antt =====
-- kernel/src/fs/FileStream.cpp: no call on a stream that is used in order spins or faults.
use frosty_os_old.Common.{refl, List, [], ◌∷◌, ◌≡◌, Bool, true, false, Option, none, some, arith}
use frosty_os_old.Files.FileStream.{
  return, ◌>>=◌, FileSystemType, Streams, Saved, null, deleted, kept, State, Outcome, done,
  deadlock, fault,
}
use frosty_os_old.Files.FileStream.Calls.{
  run, Call, opens, closes, reads, writes, seeks, rewinds, asks_offset, asks_open, asks_size,
  asks_file_system, Answer, call, open_stream, close_stream, read_stream, write_stream, seek,
  rewind, get_offset, is_open, get_size, get_file_system,
}
use frosty_os_old.Files.FileStream.Actions.{
  if_mounted, if_temp_fs, if_file, if_type, set_current_head, is_file,
}

-- `m_inode_state` leads to a head.
abbrev pub has_head : Saved → Bool
has_head null = false
has_head deleted = false
has_head (kept h) = true

abbrev pub is_mounted : Option FileSystemType → Bool
is_mounted none = false
is_mounted (some fs) = true

-- Both locks are free, and a stream that is open keeps a head.
abbrev pub IsReady : {C : Type 0} → State C → Type 0
IsReady s =
    (s.self.lock ≡ false)
    × (s.inode.lock ≡ false)
    × (s.self.is_open ≡ true → has_head s.self.inode_state ≡ true)

abbrev pub Goes : {C A : Type 0} → Outcome (State C) A → Type 0
Goes (done a t) = IsReady t
Goes deadlock = ⊥
Goes fault = ⊥

module _ {C : Type 0} (ops : Streams C) where
  -- What a call needs of the stream: to be open; `Open` and `Close` need nothing, `GetSize` that it has a
  -- mount point, and `GetFileSystem` that it has none.
  abbrev pub Fits : Call → State C → Type 0
  Fits opens s = Unit {0}
  Fits closes s = Unit {0}
  Fits asks_size s = is_mounted s.self.mount_point ≡ true
  Fits asks_file_system s = is_mounted s.self.mount_point ≡ false
  Fits c s = s.self.is_open ≡ true

  -- On a ready stream a call that fits ends and leaves the stream ready.
  pub call-Goes : (c : Call) (s : State C) → IsReady s → Fits c s → Goes (call ops c s)
  unfolding call open_stream close_stream read_stream write_stream seek rewind get_offset is_open
      get_size get_file_system if_mounted if_temp_fs if_file if_type set_current_head is_file
  call-Goes opens s (a, b, k) o = ground (arith, a, b, k)
  call-Goes closes s (a, b, k) o = ground (arith, a, b, k)
  call-Goes (reads bytes count) s (a, b, k) o = ground (arith, a, b, k o)
  call-Goes (writes bytes count) s (a, b, k) o = ground (arith, a, b, k o)
  call-Goes (seeks offset) s (a, b, k) o = ground (arith, a, b, k o)
  call-Goes rewinds s (a, b, k) o = ground (arith, a, b, k o)
  call-Goes asks_offset s (a, b, k) o = ground (arith, a, b, k o)
  call-Goes asks_open s (a, b, k) o = ground (arith, a, b, k o)
  call-Goes asks_size s (a, b, k) o = ground (arith, a, b, k, o)
  call-Goes asks_file_system s (a, b, k) o = ground (arith, a, b, k, o)

  -- Every call of a sequence fits where the calls before it end.
  abbrev pub AllFit : List Call → State C → Type 0
  AllFit [] s = Unit {0}
  AllFit (c ∷ cs) s =
      Fits c s × ((a : Answer) (t : State C) → call ops c s ≡ done a t → AllFit cs t)

  chain-Goes :
      {A B : Type 0} (f : A → State C → Outcome (State C) B) (o : Outcome (State C) A)
      → Goes o
      → ((a : A) (t : State C) → o ≡ done a t → IsReady t → Goes (f a t))
      → Goes (elim o [ done a t ↦ f a t | deadlock ↦ deadlock | fault ↦ fault ])
  chain-Goes f (done a t) g next = next a t refl g
  chain-Goes f deadlock g next = g
  chain-Goes f fault g next = g

  -- From a ready stream, that is one with both locks free that keeps a head if it is open, every sequence of
  -- calls, each of which fits where the calls before it end, ends with no spinning on a lock and no access
  -- through a null or a deleted pointer, and leaves the stream ready. `Open` and `Close` always fit, `GetSize` on a
  -- stream with a mount point, `GetFileSystem` on one without, every other call on an open stream.
  pub run-Goes : (cs : List Call) (s : State C) → IsReady s → AllFit cs s → Goes (run ops cs s)
  unfolding run
  run-Goes [] s v fit = v
  run-Goes (c ∷ cs) s v (fit, rest) =
      chain-Goes (λ a. run ops cs >>= λ later. return (a ∷ later)) (call ops c s)
        (call-Goes c s v fit)
        (λ a t e w.
          chain-Goes (λ later. return (a ∷ later)) (run ops cs t) (run-Goes cs t w (rest a t e))
            (λ later u e' x. x))
