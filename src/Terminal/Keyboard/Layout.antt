-- ===== src/Terminal/Keyboard/Layout.antt =====
-- The layout of a keyboard of the United States, and what its keys give.
use frosty_os_old.Common.{
  ℕ, zero, suc, ◌+◌, ◌==◌, leb, ◌≤◌, ◌<◌, ◌≡◌, refl, arith, Bool, true, false, not, ◌&&◌,
  if◌then◌else◌, Option, none, some, List, [], ◌∷◌, inl, inr, eq_cases, lt_cases, subst, and_left,
  and_right,
}
use frosty_os_old.Terminal.Keyboard.{KeyboardState, Reaction, appends, ignores, refuses, react}
use frosty_os_old.Terminal.Keyboard.Codes.{
  kc_lctrl, kc_lshift, kc_rshift, kc_ralt, kc_capslock, kc_numlock,
}

-- The number of a key, its character, and its character with shift.
abbrev pub layout : List (ℕ × ℕ × ℕ)
layout =
    (81, 32, 32)
    ∷ (10, 97, 65)
    ∷ (11, 98, 66)
    ∷ (12, 99, 67)
    ∷ (13, 100, 68)
    ∷ (14, 101, 69)
    ∷ (15, 102, 70)
    ∷ (16, 103, 71)
    ∷ (17, 104, 72)
    ∷ (18, 105, 73)
    ∷ (19, 106, 74)
    ∷ (20, 107, 75)
    ∷ (21, 108, 76)
    ∷ (22, 109, 77)
    ∷ (23, 110, 78)
    ∷ (24, 111, 79)
    ∷ (25, 112, 80)
    ∷ (26, 113, 81)
    ∷ (27, 114, 82)
    ∷ (28, 115, 83)
    ∷ (29, 116, 84)
    ∷ (30, 117, 85)
    ∷ (31, 118, 86)
    ∷ (32, 119, 87)
    ∷ (33, 120, 88)
    ∷ (34, 121, 89)
    ∷ (35, 122, 90)
    ∷ (0, 48, 41)
    ∷ (1, 49, 33)
    ∷ (2, 50, 64)
    ∷ (3, 51, 35)
    ∷ (4, 52, 36)
    ∷ (5, 53, 37)
    ∷ (6, 54, 94)
    ∷ (7, 55, 38)
    ∷ (8, 56, 42)
    ∷ (9, 57, 40)
    ∷ (60, 96, 126)
    ∷ (61, 45, 95)
    ∷ (62, 61, 43)
    ∷ (65, 91, 123)
    ∷ (66, 93, 125)
    ∷ (67, 92, 124)
    ∷ (69, 59, 58)
    ∷ (70, 39, 34)
    ∷ (74, 44, 60)
    ∷ (75, 46, 62)
    ∷ (76, 47, 63)
    ∷ []

-- The key of a character, and whether it takes shift.
abbrev pub key_in : List (ℕ × ℕ × ℕ) → ℕ → Option (ℕ × Bool)
key_in [] c = none
key_in ((k, plain, shifted) ∷ rows) c =
    if plain == c then some (k, false) else if shifted == c then some (k, true) else key_in rows c

abbrev pub IsPrintable : ℕ → Type 0
IsPrintable c = (32 ≤ c) × (c < 127)

abbrev pub with_shift : Bool → Bool → KeyboardState
with_shift shift num = record {
  control = false;
  shift = shift;
  alt = false;
  caps_lock = false;
  num_lock = num;
}

-- A key that `HandleEvent` does not treat as a modifier or a lock.
abbrev pub types_key : ℕ → Bool
types_key k =
    not (leb kc_lctrl k && leb k kc_ralt)
    && not (leb kc_lshift k && leb k kc_rshift)
    && not (k == kc_capslock)
    && not (k == kc_numlock)

abbrev gives : ℕ → Reaction → Bool
gives c (appends a) = a == c
gives c _ = false

abbrev pub good_key : ℕ → Option (ℕ × Bool) → Bool
good_key c none = false
good_key c (some (k, shift)) =
    types_key k
    && gives c (react (with_shift shift true) k)
    && gives c (react (with_shift shift false) k)

abbrev all_good : ℕ → ℕ → Bool
all_good zero c = true
all_good (suc n) c = good_key c (key_in layout c) && all_good n (c + 1)

all_good-from_32 : all_good 24 32 ≡ true
unfolding react
all_good-from_32 = refl

all_good-from_56 : all_good 24 56 ≡ true
unfolding react
all_good-from_56 = refl

all_good-from_80 : all_good 24 80 ≡ true
unfolding react
all_good-from_80 = refl

all_good-from_104 : all_good 23 104 ≡ true
unfolding react
all_good-from_104 = refl

all_good-good_key :
    (n a c : ℕ) → all_good n a ≡ true → a ≤ c → c < a + n → good_key c (key_in layout c) ≡ true
all_good-good_key zero a c h l u = absurd (omega arith)
all_good-good_key (suc n) a c h l u = elim (eq_cases a c) [
  | inl e ↦
      subst (λ k. good_key k (key_in layout k) ≡ true) e
        (and_left (good_key a (key_in layout a)) (all_good n (a + 1)) h)
  | inr ne ↦
      all_good-good_key n (a + 1) c
        (and_right (good_key a (key_in layout a)) (all_good n (a + 1)) h) (omega arith)
        (omega arith)
]

pub printable-good_key : (c : ℕ) → IsPrintable c → good_key c (key_in layout c) ≡ true
printable-good_key c (l, u) = elim (lt_cases c 56) [
  | inl a ↦ all_good-good_key 24 32 c all_good-from_32 l a
  | inr a ↦ elim (lt_cases c 80) [
    | inl e ↦ all_good-good_key 24 56 c all_good-from_56 a e
    | inr e ↦ elim (lt_cases c 104) [
      | inl f ↦ all_good-good_key 24 80 c all_good-from_80 e f
      | inr f ↦ all_good-good_key 23 104 c all_good-from_104 f u
    ]
  ]
]

gives-appends : (c : ℕ) (r : Reaction) → gives c r ≡ true → r ≡ appends c
gives-appends c (appends a) h = ground (arith, h)
gives-appends c ignores h = cc
gives-appends c refuses h = cc

pub good_key-parts :
    (c k : ℕ) (shift num : Bool)
    → good_key c (some (k, shift)) ≡ true
    → (types_key k ≡ true) × (react (with_shift shift num) k ≡ appends c)
good_key-parts c k shift num h =
    let p = types_key k in
    let with_lock = gives c (react (with_shift shift true) k) in
    let without = gives c (react (with_shift shift false) k) in
    let both = and_left (p && with_lock) without h in
    (
      and_left p with_lock both,
      gives-appends c (react (with_shift shift num) k)
          (elim num as (λ n. gives c (react (with_shift shift n) k) ≡ true) [
            | true ↦ and_right p with_lock both
            | false ↦ and_right (p && with_lock) without h
          ]),
    )
