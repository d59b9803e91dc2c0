-- ===== src/Data/Bitmap.antt =====
-- kernel/src/Data-structures/Bitmap.cpp. The buffer is a pointer into memory: it is modelled as the
-- bytes from that address onward, whatever the size says, so that an access past the array it
-- was taken from is an access to the neighbouring bytes.
pub mod Laws
use frosty_os_old.Common.{
  ℕ, ◌/◌, ◌%◌, Bool, true, false, leb, if◌then◌else◌, test_bit, write_bit, update,
}

pub record Bitmap : Type 0 where
  -- in bytes
  pub size : ℕ
  pub buffer : ℕ → ℕ

-- `Bitmap::Bitmap()` with a null buffer: with size 0 the buffer is never read.
unfoldable pub empty : (ℕ → ℕ) → Bitmap
empty memory = record { size = 0; buffer = memory }

-- `Bitmap::~Bitmap()`
unfoldable pub destroy : Bitmap → Bitmap
destroy m = record m { size = 0 }

-- `Bitmap::operator[]`
unfoldable pub get : Bitmap → ℕ → Bool
get m index = if leb m.size (index / 8) then false else test_bit (m.buffer (index / 8)) (index % 8)

-- `Bitmap::Set`
unfoldable pub set : Bitmap → ℕ → Bool → Bitmap
set m index value = if leb m.size (index / 8) then m else record m {
  buffer = update m.buffer (index / 8) (write_bit (m.buffer (index / 8)) (index % 8) value);
}

unfoldable pub set_size : Bitmap → ℕ → Bitmap
set_size m size = record m { size = size }

unfoldable pub set_buffer : Bitmap → (ℕ → ℕ) → Bitmap
set_buffer m buffer = record m { buffer = buffer }
