-- ===== src/Files/FileDescriptor/Steady.antt =====
-- Streams each call of which returns.
use frosty_os_old.Common.{ℕ, Bool, some}
use frosty_os_old.Common.Integers.{ℤ}
use frosty_os_old.Files.FileDescriptor.{Devices}

-- What the calls of the streams return, and what they leave of the rest of the system.
pub record Steady (W : Type 0) : Type 0 where
  pub open_stream : ℕ → W → ℤ × W
  pub close_stream : ℕ → W → ℤ × W
  pub seek_stream : ℕ → ℤ → W → ℤ × W
  pub rewind_stream : ℕ → W → ℤ × W
  pub get_size : ℕ → W → ℕ × W
  pub read_stream : ℕ → ℕ → ℤ → W → (ℤ × ℤ) × W
  pub write_stream : ℕ → ℕ → ℤ → W → (ℤ × ℤ) × W
  pub open_directory : ℕ → W → ℤ × W
  pub close_directory : ℕ → W → ℤ × W
  pub seek_directory : ℕ → ℤ → W → ℤ × W
  pub get_next_inode : ℕ → W → (ℕ × ℤ) × W
  pub is_temp_fs : ℕ → W → Bool × W

-- The devices with these streams.
abbrev pub returning : {W : Type 0} → Steady W → Devices W → Devices W
returning k d = record d {
  open_stream = λ s w. some (k.open_stream s w);
  close_stream = λ s w. some (k.close_stream s w);
  seek_stream = λ s o w. some (k.seek_stream s o w);
  rewind_stream = λ s w. some (k.rewind_stream s w);
  get_size = λ s w. some (k.get_size s w);
  read_stream = λ s b c w. some (k.read_stream s b c w);
  write_stream = λ s b c w. some (k.write_stream s b c w);
  open_directory = λ s w. some (k.open_directory s w);
  close_directory = λ s w. some (k.close_directory s w);
  seek_directory = λ s o w. some (k.seek_directory s o w);
  get_next_inode = λ s w. some (k.get_next_inode s w);
  is_temp_fs = λ s w. some (k.is_temp_fs s w);
}
