-- ===== src/Tests/Regions.antt =====
-- kernel/src/Memory/VirtualRegion.cpp on the addresses from 4096 up to 8192.
use frosty_os_old.Common.{List, ℕ, ◌+◌, ◌≤◌, ◌<◌, ◌≡◌, ◌↔◌, true, [], ◌∷◌, arith, add64, refl}
use frosty_os_old.Memory.Region.{Region, from_start, is_inside}
use frosty_os_old.Memory.Region.Changes.{all_moved, IsRegion, Change, changes, changes-IsRegion}
use frosty_os_old.Memory.Region.Inside.{is_inside-bytes}

abbrev page : Region
page = record { start = 4096; end = 8192; size = 4096 }

page-IsRegion : IsRegion page
page-IsRegion = record { in_words = omega arith; size_fits = refl }

from_start-page : from_start 4096 4096 ≡ page
unfolding from_start add64
from_start-page = refl

-- The second change is refused.
abbrev two_changes : List Change
two_changes = Change.ends 16384 ∷ Change.starts 20480 ∷ []

changes-IsRegion_example :
    (((changes page two_changes).start, (changes page two_changes).end)
      ≡ all_moved (4096, 8192) two_changes)
    × IsRegion (changes page two_changes)
changes-IsRegion_example = changes-IsRegion page two_changes page-IsRegion (omega arith, (tt, tt))

changes-two_changes : all_moved (4096, 8192) two_changes ≡ (4096, 16384)
changes-two_changes = refl

is_inside-bytes_example :
    (is_inside page 5000 8 ≡ true)
    ↔ ((i : ℕ) → i < 8 → (page.start ≤ 5000 + i) × (5000 + i < page.end))
is_inside-bytes_example = is_inside-bytes page 5000 8 (omega arith) (omega arith)
