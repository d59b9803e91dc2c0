-- ===== src/Files/FileDescriptor/Follows.antt =====
-- The lock, as an automaton of two states.
use frosty_os_old.Files.FileDescriptor.Steady.{Steady, returning}
use frosty_os_old.Files.FileDescriptor.Calls.{
  read_directory, write_file, read_file, rewind_descriptor, write_descriptor, read_descriptor,
  seek_descriptor,
}
use frosty_os_old.Common.{
  inr, inl, refl, Bool-cases, ◌∙◌, sym, ap, subst, ℕ, if◌then◌else◌, Bool, true, false, ◌&&◌, not,
  ◌≡◌, arith, Option, none, some, List, [], ◌∷◌,
}
use frosty_os_old.Common.Locking.{bind_deadlock, bind_ok, Outcome, ok, deadlock, ◌>>◌}
use frosty_os_old.Files.FileDescriptor.{
  einval, is_negative, can_read, can_write, ℤ, can_seek, FileDescriptorType, unknown, file_stream,
  directory_stream, tty, debug, FileDescriptorMode, Devices, FileDescriptor, State, M, Reply,
  acquire_lock, release_lock, answer,
}
use frosty_os_old.Files.FileDescriptor.Opening.{
  close_with, close_ready, close_descriptor, open_descriptor, open_file, open_directory, open_ready,
}
use frosty_os_old.Files.FileDescriptor.Locked.{
  call_locked, writes, reads, seeks, closes, rewinds, Call, opens, allows, is_refused, leaks, call,
}

-- Whether the lock is held after a call, or `none` where the call spins for ever.
unfoldable pub after : FileDescriptorType → FileDescriptorMode → Bool → Call → Option Bool
after type mode true c = if is_refused c then some true else none
after type mode false c = some (not (is_refused c) && allows c mode && leaks c type)

unfoldable pub after_all : FileDescriptorType → FileDescriptorMode → Bool → List Call → Option Bool
unfolding after
after_all type mode lock [] = some lock
after_all type mode lock (c ∷ cs) = elim (after type mode lock c) [
  | none ↦ none
  | some l ↦ after_all type mode l cs
]

module _ {W : Type 0} where
  abbrev pub lock_of : Outcome (State W) (Unit {0}) → Option Bool
  lock_of (ok r t) = some t.self.lock
  lock_of deadlock = none

  -- The call ends with that lock and keeps the type and the mode.
  abbrev pub Leaves : Outcome (State W) Reply → State W → Bool → Type 0
  Leaves (ok r t) s b =
      (t.self.lock ≡ b) × (t.self.type ≡ s.self.type) × (t.self.mode ≡ s.self.mode)
  Leaves deadlock s b = ⊥

module _ {W : Type 0} (d : Devices W) where
  unfoldable pub run : List Call → M W (Unit {0})
  unfolding call
  run [] s = ok tt s
  run (c ∷ cs) s = (call d c >> run cs) s

module _ {W : Type 0} (k : Steady W) (d' : Devices W) where
  abbrev d : Devices W
  d = returning k d'

  abbrev free : FileDescriptor → FileDescriptorType → FileDescriptorMode → W → State W
  free f ty m w = record { self = record f { type = ty; mode = m; lock = false }; world = w }

  opens-Leaves :
      (f : FileDescriptor) (w : W) (m : FileDescriptorMode) (ty : FileDescriptorType)
      → Leaves (call d opens (free f ty m w)) (free f ty m w) (allows opens m && leaks opens ty)
  unfolding call open_descriptor open_ready open_file open_directory acquire_lock release_lock
      answer
  opens-Leaves f w m unknown = ground arith
  opens-Leaves f w m file_stream = ground arith
  opens-Leaves f w m directory_stream = ground arith
  opens-Leaves f w m tty = ground arith
  opens-Leaves f w m debug = ground arith

  closes-Leaves :
      (f : FileDescriptor) (w : W) (m : FileDescriptorMode) (ty : FileDescriptorType)
      → Leaves (call d closes (free f ty m w)) (free f ty m w) (allows closes m && leaks closes ty)
  unfolding call close_descriptor close_ready close_with acquire_lock release_lock answer
  closes-Leaves f w m unknown = ground arith
  closes-Leaves f w m file_stream = ground arith
  closes-Leaves f w m directory_stream = ground arith
  closes-Leaves f w m tty = ground arith
  closes-Leaves f w m debug = ground arith

  reads-Leaves :
      (b : ℕ) (c : ℤ) (k : Bool) (f : FileDescriptor) (w : W) (m : FileDescriptorMode)
      (ty : FileDescriptorType)
      → Leaves
          (call d (reads b c k) (free f ty m w))
          (free f ty m w)
          (allows (reads b c k) m && leaks (reads b c k) ty)
  unfolding call read_descriptor read_file read_directory can_read acquire_lock release_lock answer
  reads-Leaves b c k f w m unknown = ground arith
  reads-Leaves b c k f w m file_stream = ground arith
  reads-Leaves b c k f w m directory_stream = ground arith
  reads-Leaves b c k f w m tty = ground arith
  reads-Leaves b c k f w m debug = ground arith

  writes-Leaves :
      (b : ℕ) (c : ℤ) (k : Bool) (f : FileDescriptor) (w : W) (m : FileDescriptorMode)
      (ty : FileDescriptorType)
      → Leaves
          (call d (writes b c k) (free f ty m w))
          (free f ty m w)
          (allows (writes b c k) m && leaks (writes b c k) ty)
  unfolding call write_descriptor write_file can_write acquire_lock release_lock answer
  writes-Leaves b c k f w m unknown = ground arith
  writes-Leaves b c k f w m file_stream = ground arith
  writes-Leaves b c k f w m directory_stream = ground arith
  writes-Leaves b c k f w m tty = ground arith
  writes-Leaves b c k f w m debug = ground arith

  seeks-Leaves :
      (o : ℤ) (f : FileDescriptor) (w : W) (m : FileDescriptorMode) (ty : FileDescriptorType)
      → Leaves
          (call d (seeks o) (free f ty m w))
          (free f ty m w)
          (not (is_negative o) && allows (seeks o) m && leaks (seeks o) ty)
  unfolding call seek_descriptor can_seek acquire_lock release_lock answer
  seeks-Leaves o f w m unknown = ground arith
  seeks-Leaves o f w m file_stream = ground arith
  seeks-Leaves o f w m directory_stream = ground arith
  seeks-Leaves o f w m tty = ground arith
  seeks-Leaves o f w m debug = ground arith

  rewinds-Leaves :
      (f : FileDescriptor) (w : W) (m : FileDescriptorMode) (ty : FileDescriptorType)
      → Leaves
          (call d rewinds (free f ty m w))
          (free f ty m w)
          (allows rewinds m && leaks rewinds ty)
  unfolding call rewind_descriptor can_seek acquire_lock release_lock answer
  rewinds-Leaves f w m unknown = ground arith
  rewinds-Leaves f w m file_stream = ground arith
  rewinds-Leaves f w m directory_stream = ground arith
  rewinds-Leaves f w m tty = ground arith
  rewinds-Leaves f w m debug = ground arith

  -- A call on a descriptor that is not locked.
  call-Leaves :
      (c : Call) (s : State W)
      → s.self.lock ≡ false
      → Leaves (call d c s) s (not (is_refused c) && allows c s.self.mode && leaks c s.self.type)
  call-Leaves c s e =
      subst
        (λ l.
          Leaves (call d c (locked l)) (locked l)
            (not (is_refused c) && allows c s.self.mode && leaks c s.self.type))
        (sym e) (each c)
    where
      locked : Bool → State W
      locked l = record s { self = record s.self { lock = l } }

      each :
          (a : Call)
          → Leaves
              (call d a (locked false))
              (locked false)
              (not (is_refused a) && allows a s.self.mode && leaks a s.self.type)
      each opens = opens-Leaves s.self s.world s.self.mode s.self.type
      each closes = closes-Leaves s.self s.world s.self.mode s.self.type
      each (reads b n k) = reads-Leaves b n k s.self s.world s.self.mode s.self.type
      each (writes b n k) = writes-Leaves b n k s.self s.world s.self.mode s.self.type
      each (seeks o) = seeks-Leaves o s.self s.world s.self.mode s.self.type
      each rewinds = rewinds-Leaves s.self s.world s.self.mode s.self.type

  call_refused : (c : Call) (s : State W) → is_refused c ≡ true → call d c s ≡ ok (einval, none) s
  unfolding call seek_descriptor
  call_refused opens s e = cc
  call_refused closes s e = cc
  call_refused (reads b n k) s e = cc
  call_refused (writes b n k) s e = cc
  call_refused (seeks o) s e = ground (arith, e)
  call_refused rewinds s e = cc

  after_call : FileDescriptorType → FileDescriptorMode → List Call → Option Bool → Option Bool
  unfolding after_all
  after_call type mode cs none = none
  after_call type mode cs (some l) = after_all type mode l cs

  after_all-call :
      (type : FileDescriptorType) (mode : FileDescriptorMode) (l : Bool) (c : Call) (cs : List Call)
      → after_all type mode l (c ∷ cs) ≡ after_call type mode cs (after type mode l c)
  unfolding after_all after_call
  after_all-call type mode l c cs = ground arith

  run-cons :
      (s : State W) (c : Call) (cs : List Call) (o : Outcome (State W) Reply)
      → ((t : State W) → lock_of (run d cs t) ≡ after_all t.self.type t.self.mode t.self.lock cs)
      → call d c s ≡ o
      → Leaves o s (not (is_refused c) && allows c s.self.mode && leaks c s.self.type)
      → s.self.lock ≡ false
      → lock_of (run d (c ∷ cs) s) ≡ after_all s.self.type s.self.mode s.self.lock (c ∷ cs)
  unfolding run after_all after
  run-cons s c cs (ok r t) rest q (lock, type, mode) e =
      ap lock_of (bind_ok (call d c) (λ _. run d cs) s t r q)
      ∙ rest t
      ∙ rw (lock, type, mode, e) refl
  run-cons s c cs deadlock rest q f e = absurd f

  -- Where every call of the streams returns, every sequence of calls, of every kind, on every descriptor
  -- deadlocks exactly where the automaton says so, and else leaves the lock of the descriptor as the automaton
  -- does. The automaton takes the lock and gives it back in each call, but for a `Read` of a file stream in a
  -- mode that may read, and for an `Open`, such a `Read` or a `Seek` of a descriptor of unknown type: these
  -- keep it, and every later call but a `Seek` to a negative offset deadlocks.
  pub run-after_all :
      (s : State W) (cs : List Call)
      → lock_of (run d cs s) ≡ after_all s.self.type s.self.mode s.self.lock cs
  unfolding run after_all after
  run-after_all s [] = refl
  run-after_all s (c ∷ cs) = elim (Bool-cases s.self.lock) [
    | inl e ↦ elim (Bool-cases (is_refused c)) [
      | inl r ↦
          ap lock_of (bind_ok (call d c) (λ _. run d cs) s s (einval, none) (call_refused c s r))
          ∙ run-after_all s cs
          ∙ ground (arith, e, r)
      | inr r ↦
          ap lock_of (bind_deadlock (call d c) (λ _. run d cs) s (call_locked d c s e r))
          ∙ ground (arith, e, r)
    ]
    | inr e ↦ run-cons s c cs (call d c s) (λ t. run-after_all t cs) refl (call-Leaves c s e) e
  ]
