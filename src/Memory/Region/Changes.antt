-- ===== src/Memory/Region/Changes.antt =====
-- What keeps a region in order: its two ends and its size agree.
use frosty_os_old.Common.{
  leb, ap, ◌∙◌, ◌-◌, if◌then◌else◌, refl, ℕ, ◌+◌, ◌≤◌, ◌<◌, ◌≡◌, List, [], ◌∷◌, arith, u64_mod,
  add64, sub64,
}
use frosty_os_old.Memory.Region.{
  Region, from_start, from_ends, from_end, set_start, set_end, expand_left, expand_right,
}

pub record IsRegion (r : Region) : Type 0 where
  pub in_words : r.end < u64_mod
  pub size_fits : r.start + r.size ≡ r.end

sub64-left : (a b : ℕ) → a + b < u64_mod → sub64 (a + b) a ≡ b
unfolding sub64
sub64-left a b h = omega arith

sub64-right : (a b : ℕ) → a + b < u64_mod → sub64 (a + b) b ≡ a
unfolding sub64
sub64-right a b h = omega arith

add64_small : (a b : ℕ) → a + b < u64_mod → add64 a b ≡ a + b
unfolding add64
add64_small a b h = omega arith

-- The three constructors give a region in order, and the same one, for a range that stays in the
-- address space.
constructors-IsRegion :
    (start size : ℕ)
    → start + size < u64_mod
    → IsRegion (from_start start size)
      × IsRegion (from_ends start (start + size))
      × IsRegion (from_end size (start + size))
      × (from_ends start (start + size) ≡ from_start start size)
      × (from_end size (start + size) ≡ from_start start size)
unfolding from_start from_ends from_end
constructors-IsRegion start size h =
    let v : IsRegion (record { start = start; end = start + size; size = size }) = record {
      in_words = h;
      size_fits = refl;
    } in
    rw (add64_small start size h, sub64-left start size h, sub64-right start size h)
      (v, v, v, refl, refl)

pub data Change : Type 0 where
  starts : ℕ → Change
  ends : ℕ → Change
  grows_left : ℕ → Change
  grows_right : ℕ → Change

unfoldable pub change : Region → Change → Region
unfolding set_start set_end expand_left expand_right
change r (Change.starts a) = set_start r a
change r (Change.ends a) = set_end r a
change r (Change.grows_left n) = expand_left r n
change r (Change.grows_right n) = expand_right r n

unfoldable pub changes : Region → List Change → Region
unfolding change
changes r [] = r
changes r (c ∷ cs) = changes (change r c) cs

-- A new size must leave the region in the address space; a new end must be an address.
abbrev pub MayChange : Region → Change → Type 0
MayChange r (Change.starts a) = Unit {0}
MayChange r (Change.ends a) = a < u64_mod
MayChange r (Change.grows_left n) = n ≤ r.end
MayChange r (Change.grows_right n) = r.start + n < u64_mod

abbrev pub MayChangeAll : Region → List Change → Type 0
MayChangeAll r [] = Unit {0}
MayChangeAll r (c ∷ cs) = MayChange r c × MayChangeAll (change r c) cs

change-IsRegion : (r : Region) (c : Change) → IsRegion r → MayChange r c → IsRegion (change r c)
unfolding change add64 sub64
change-IsRegion r (Change.starts a) v h = record {
  in_words = ground (arith, v.in_words);
  size_fits = ground (arith, v.in_words, v.size_fits);
}
change-IsRegion r (Change.ends a) v h = record {
  in_words = ground (arith, v.in_words);
  size_fits = ground (arith, v.in_words, v.size_fits);
}
change-IsRegion r (Change.grows_left n) v h = record {
  in_words = v.in_words;
  size_fits = omega (arith, v.in_words);
}
change-IsRegion r (Change.grows_right n) v h = record {
  in_words = omega arith;
  size_fits = omega arith;
}

-- The two ends that a change asks for, and the two ends after it: those, unless they cross over.
abbrev pub asked : ℕ → ℕ → Change → ℕ × ℕ
asked start end (Change.starts a) = (a, end)
asked start end (Change.ends a) = (start, a)
asked start end (Change.grows_left n) = (end - n, end)
asked start end (Change.grows_right n) = (start, start + n)

abbrev pub moved : ℕ × ℕ → Change → ℕ × ℕ
moved (start, end) c = let (a, b) = asked start end c in if leb a b then (a, b) else (start, end)

abbrev pub all_moved : ℕ × ℕ → List Change → ℕ × ℕ
all_moved p [] = p
all_moved p (c ∷ cs) = all_moved (moved p c) cs

change-moved :
    (r : Region) (c : Change)
    → IsRegion r
    → MayChange r c
    → ((change r c).start, (change r c).end) ≡ moved (r.start, r.end) c
unfolding change add64 sub64
change-moved r (Change.starts a) v h = ground (arith, v.in_words, v.size_fits)
change-moved r (Change.ends a) v h = ground (arith, v.in_words, v.size_fits)
change-moved r (Change.grows_left n) v h = ground (arith, v.in_words, v.size_fits)
change-moved r (Change.grows_right n) v h = ground (arith, v.in_words, v.size_fits)

-- After every sequence of changes, each of which a region may take, the ends of the region are where the
-- changes ask for, but for those that would make the ends cross over: these are refused, and move
-- neither. The size is the distance of the ends.
pub changes-IsRegion :
    (r : Region) (cs : List Change)
    → IsRegion r
    → MayChangeAll r cs
    → (((changes r cs).start, (changes r cs).end) ≡ all_moved (r.start, r.end) cs)
      × IsRegion (changes r cs)
unfolding changes
changes-IsRegion r [] v h = (refl, v)
changes-IsRegion r (c ∷ cs) v h =
    let (same, w) = changes-IsRegion (change r c) cs (change-IsRegion r c v h.0) h.1 in
    (same ∙ ap (λ p. all_moved p cs) (change-moved r c v h.0), w)
