-- ===== src/Tests/Bitmaps.antt =====
-- kernel/src/Data-structures/Bitmap.cpp on a bitmap of two bytes, with another byte behind it.
use frosty_os_old.Common.{◌≡◌, refl, true, false, ◌==◌, if◌then◌else◌, arith, test_bit}
use frosty_os_old.Data.Bitmap.{Bitmap, get}
use frosty_os_old.Data.Bitmap.Laws.{IsBytes}

abbrev two_bytes : Bitmap
two_bytes = record { size = 2; buffer = λ i. if i == 0 then 129 else 255 }

two_bytes-IsBytes : IsBytes two_bytes
two_bytes-IsBytes i = ground arith

get_first : get two_bytes 0 ≡ true
unfolding get test_bit
get_first = refl

get_beyond : get two_bytes 16 ≡ false
unfolding get
get_beyond = refl
