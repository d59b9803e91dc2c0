-- ===== src/Tests/Descriptors.antt =====
-- Descriptors on devices that only keep the characters that they are given.
use frosty_os_old.Common.{◌/◌, ◌%◌, ℕ, ◌≡◌, refl, true, false, some, none, List, [], ◌∷◌, ◌++◌}
use frosty_os_old.Common.Integers.{rounds, pos, negsuc}
use frosty_os_old.Common.Locking.{ok}
use frosty_os_old.Files.FileDescriptor.{
  can_read, Devices, State, FileDescriptorType, FileDescriptorMode, file_stream, tty, read, write,
}
use frosty_os_old.Files.FileDescriptor.Steady.{Steady, returning}
use frosty_os_old.Files.FileDescriptor.Locked.{Call, call}
use frosty_os_old.Files.FileDescriptor.Follows.{run, lock_of, after_all, run-after_all}

abbrev plain_streams : Steady (List ℕ)
plain_streams = record {
  open_stream = λ s w. (pos 0, w);
  close_stream = λ s w. (pos 0, w);
  seek_stream = λ s o w. (pos 0, w);
  rewind_stream = λ s w. (pos 0, w);
  get_size = λ s w. (5, w);
  read_stream = λ s b c w. ((c, pos 0), w);
  write_stream = λ s b c w. ((c, pos 0), w);
  open_directory = λ s w. (pos 0, w);
  close_directory = λ s w. (pos 0, w);
  seek_directory = λ s o w. (pos 0, w);
  get_next_inode = λ s w. ((0, pos 0), w);
  is_temp_fs = λ s w. (true, w);
}

-- Streams that spin for ever, and a terminal that keeps what it gets.
abbrev stuck_devices : Devices (List ℕ)
stuck_devices = record {
  open_stream = λ s w. none;
  close_stream = λ s w. none;
  seek_stream = λ s o w. none;
  rewind_stream = λ s w. none;
  get_size = λ s w. none;
  read_stream = λ s b c w. none;
  write_stream = λ s b c w. none;
  open_directory = λ s w. none;
  close_directory = λ s w. none;
  seek_directory = λ s o w. none;
  get_next_inode = λ s w. none;
  is_temp_fs = λ s w. none;
  inode_size = 64;
  copy = λ t s n w. w;
  load_byte = λ a w. a % 256;
  store_byte = λ a v w. w;
  getc = λ t w. (negsuc 0, w);
  putc = λ t c w. w ++ c ∷ [];
  unlock_tty = λ t w. w;
  amount_of_text_rows = λ t w. 25;
  set_cursor_position = λ t x y w. w;
  uldiv = λ n m. (n / 25, n % 25);
  debug_putc = λ c w. w;
}

abbrev pub plain_devices : Devices (List ℕ)
plain_devices = returning plain_streams stuck_devices

abbrev descriptor : FileDescriptorType → FileDescriptorMode → State (List ℕ)
descriptor type mode = record {
  self = record {
    terminal = 4096;
    stream = 8192;
    is_open = false;
    type = type;
    mode = mode;
    id = pos 3;
    init_successful = true;
    lock = false;
  };
  world = [];
}

abbrev file_calls : List Call
file_calls = Call.opens ∷ Call.reads 64 (pos 2) true ∷ Call.closes ∷ []

run-after_all_example :
    lock_of (run plain_devices file_calls (descriptor file_stream read))
    ≡ after_all file_stream read false file_calls
run-after_all_example =
    run-after_all plain_streams stuck_devices (descriptor file_stream read) file_calls

-- The descriptor of a file cannot be closed after a read.
after_all-file : after_all file_stream read false file_calls ≡ none
unfolding after_all can_read
after_all-file = refl

write_tty-world :
    call plain_devices (Call.writes 65 (pos 2) true) (descriptor tty write)
    ≡ ok (pos 2, some (pos 0)) (record (descriptor tty write) { world = 65 ∷ 66 ∷ [] })
unfolding call rounds
write_tty-world = refl
