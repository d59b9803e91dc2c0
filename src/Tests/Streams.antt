-- ===== src/Tests/Streams.antt =====
-- kernel/src/fs/FileStream.cpp and DirectoryStream.cpp, tried on a folder, and on an inode whose contents
-- are a number of bytes.
use frosty_os_old.Files.DirectoryStream.{
  Listing, DirectoryStream, open_directory, next_inodes, get_next_inode,
}
use frosty_os_old.Files.DirectoryStream.Enumerate.{at, next_inodes-children}
use frosty_os_old.Common.{none, ℕ, ◌+◌, ◌≡◌, Bool, true, false, List, [], ◌∷◌, some, refl, sym, ap}
use frosty_os_old.Common.Integers.{neg, ℤ, pos, is_negative}
use frosty_os_old.Files.FileStream.{
  file, tmpfs, Head, no_head, Streams, State, Outcome, done, deadlock, fault, make,
}
use frosty_os_old.Files.FileStream.Calls.{
  Call, opens, closes, reads, seeks, asks_offset, Answer, call, run, get_file_system,
}
use frosty_os_old.Files.FileStream.Actions.{esuccess}
use frosty_os_old.Files.FileStream.Unlocked.{AllFit, Goes, run-Goes}
use frosty_os_old.Files.FileStream.Heads.{run_among, run_among-run, but_head}
use frosty_os_old.Files.FileStream.Faults.{get_file_system-deadlock, takes_lock}

abbrev opened_at : ℤ → Head
opened_at offset = record no_head { is_open = true; current_offset = offset }

-- Every method succeeds; a read or a write goes to the offset that is its count.
abbrev counting_inode : Streams ℕ
counting_inode = record {
  get_type = λ c. file;
  open_inode = λ h c. (pos 0, (opened_at (pos 0), c));
  close_inode = λ h c. (pos 0, (no_head, c));
  read_inode =
      λ p bytes count h c. ((count, some (pos 0)), (record h { current_offset = count }, c));
  write_inode =
      λ p bytes count h c. ((count, some (pos 0)), (record h { current_offset = count }, c + 1));
  seek_inode = λ offset h c. (pos 0, (record h { current_offset = offset }, c));
  rewind_inode = λ h c. (pos 0, (record h { current_offset = pos 0 }, c));
  size_of = λ c. (c, pos 0);
  has_memory = λ c. true;
}

abbrev fresh : State ℕ
fresh = record {
  self = make true (some tmpfs) 3 (0, 0, 0);
  inode = record { head = no_head; contents = 10; lock = false };
}

abbrev open_after : Outcome (State ℕ) Answer → Bool
open_after (done a t) = t.self.is_open
open_after deadlock = false
open_after fault = false

abbrev three_calls : List Call
three_calls = opens ∷ reads 500 (pos 4) ∷ closes ∷ []

three_calls-fit : AllFit counting_inode three_calls fresh
unfolding call is_negative
three_calls-fit = (tt, λ a t e. (sym (ap open_after e), λ b u e'. (tt, λ c w e''. tt)))

run-Goes_example : Goes (run counting_inode three_calls fresh)
run-Goes_example = run-Goes counting_inode three_calls fresh (refl, refl, λ e. cc) three_calls-fit

abbrev among : List (Head × Call)
among =
    (no_head, opens) ∷ (opened_at (pos 77), seeks (pos 5)) ∷ (opened_at (pos 78), asks_offset) ∷ []

run_among-run_example :
    but_head (run_among counting_inode among fresh)
    ≡ but_head (run counting_inode (opens ∷ seeks (pos 5) ∷ asks_offset ∷ []) fresh)
run_among-run_example = run_among-run counting_inode among fresh

get_file_system-deadlock_example :
    (t : State ℕ) × (get_file_system fresh ≡ done (true, esuccess) t)
    × ((c : Call) → takes_lock counting_inode c ≡ true → call counting_inode c t ≡ deadlock)
get_file_system-deadlock_example = get_file_system-deadlock counting_inode fresh tmpfs refl refl

abbrev folder : Listing
folder = record { is_folder = true; privilege_level = (1, 1, 256); children = 700 ∷ 800 ∷ 900 ∷ [] }

abbrev closed_directory : DirectoryStream
closed_directory = record {
  inode = some folder;
  fs = none;
  privilege = (1, 1, 0);
  index = 7;
  is_open = false;
  lock = false;
}

-- `Open` leads to where the children are given from.
open_closed_directory :
    open_directory closed_directory ≡ done (pos 0) (at closed_directory folder 0)
unfolding open_directory
open_closed_directory = refl

next_inodes-children_example :
    (next_inodes 3 (at closed_directory folder 0)
      ≡ done ((700, pos 0) ∷ (800, pos 0) ∷ (900, pos 0) ∷ []) (at closed_directory folder 3))
    × (get_next_inode (at closed_directory folder 3)
        ≡ done (0, neg 29) (at closed_directory folder 3))
next_inodes-children_example = next_inodes-children closed_directory folder
