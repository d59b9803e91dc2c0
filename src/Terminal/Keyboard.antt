-- ===== src/Terminal/Keyboard.antt =====
-- kernel/src/tty/KeyboardInput.cpp. The buffer and what a callback reaches are the state of the rest
-- of the system; characters are their codes.
pub mod Codes
pub mod Layout
pub mod Typing
pub mod Blocks
pub mod ReadBack
use frosty_os_old.Common.{
  ℕ, ◌+◌, ◌-◌, ◌%◌, ◌==◌, leb, Bool, true, false, not, ◌&&◌, ◌||◌, if◌then◌else◌, Option, none,
  some, add64, sub64,
}
use frosty_os_old.Common.Integers.{ℤ, pos, negsuc}
use frosty_os_old.Terminal.Keyboard.Codes.{
  kc_0, kc_1, kc_2, kc_3, kc_4, kc_5, kc_6, kc_7, kc_8, kc_9, kc_a, kc_z, kc_grave, kc_minus,
  kc_equals, kc_backspace, kc_tab, kc_lbracket, kc_rbracket, kc_backslash, kc_capslock,
  kc_semicolon, kc_apostrophe, kc_enter, kc_lshift, kc_rshift, kc_comma, kc_period, kc_slash,
  kc_lctrl, kc_rctrl, kc_lalt, kc_ralt, kc_space, kc_numlock, kc_numpad_0, kc_numpad_9,
  kc_numpad_enter, kc_numpad_plus, kc_numpad_minus, kc_numpad_asterisk, kc_numpad_slash,
  kc_numpad_period, kc_esc, kc_del,
}

pub record KeyboardEvent : Type 0 where
  pub key_code : ℕ
  pub pressed : Bool

pub record KeyboardState : Type 0 where
  pub control : Bool
  pub shift : Bool
  pub alt : Bool
  pub caps_lock : Bool
  pub num_lock : Bool

-- What `HandleEvent` does with a key that is pressed: it appends a character, does nothing, or does
-- not know the key.
pub data Reaction : Type 0 where
  appends : ℕ → Reaction
  ignores : Reaction
  refuses : Reaction

unfoldable pub letter : KeyboardState → ℕ → Reaction
letter m k =
    if m.control
    then appends (k - kc_a + 1)
    else if m.alt
    then refuses
    else if m.shift || m.caps_lock
    then appends (k - kc_a + 65)
    else appends (k - kc_a + 97)

-- The digit keys under shift.
unfoldable pub shifted_digit : KeyboardState → ℕ → Reaction
shifted_digit m k =
    if k == kc_0
    then appends 41
    else if k == kc_1
    then appends 33
    else if k == kc_2
    then (if m.control then appends 0 else appends 64)
    else if k == kc_3
    then appends 35
    else if k == kc_4
    then appends 36
    else if k == kc_5
    then appends 37
    else if k == kc_6
    then (if m.control then appends 30 else appends 94)
    else if k == kc_7
    then appends 38
    else if k == kc_8
    then appends 42
    else if k == kc_9
    then appends 40
    else refuses

unfoldable pub digit : KeyboardState → ℕ → Reaction
unfolding shifted_digit
digit m k = if m.shift then shifted_digit m k else appends (k - kc_0 + 48)

unfoldable pub other_key : KeyboardState → ℕ → Reaction
other_key m k =
    if k == kc_space
    then (appends 32)
    else if k == kc_minus
    then (if m.shift then (if m.control then appends 31 else appends 95) else appends 45)
    else if k == kc_equals
    then (if m.shift then appends 43 else appends 61)
    else if k == kc_lbracket
    then (if m.shift then appends 123 else if m.control then appends 27 else appends 91)
    else if k == kc_rbracket
    then (if m.shift then appends 125 else if m.control then appends 29 else appends 93)
    else if k == kc_backslash
    then (if m.shift then appends 124 else if m.control then appends 28 else appends 92)
    else if k == kc_semicolon
    then (if m.shift then appends 58 else appends 59)
    else if k == kc_apostrophe
    then (if m.shift then appends 34 else appends 39)
    else if k == kc_comma
    then (if m.shift then appends 60 else appends 44)
    else if k == kc_period
    then (if m.shift then appends 62 else appends 46)
    else if k == kc_slash
    then (if m.shift then appends 63 else appends 47)
    else if k == kc_grave
    then (if m.shift then appends 126 else appends 96)
    else if k == kc_tab
    then (appends 9)
    else if k == kc_enter
    then (appends 10)
    else if k == kc_backspace
    then (appends 8)
    else if k == kc_esc
    then (appends 27)
    else if k == kc_del
    then (appends 127)
    else if k == kc_numpad_enter
    then (appends 10)
    else if k == kc_numpad_plus
    then (appends 43)
    else if k == kc_numpad_minus
    then (appends 45)
    else if k == kc_numpad_asterisk
    then (appends 42)
    else if k == kc_numpad_slash
    then (appends 47)
    else if k == kc_numpad_period
    then (if m.num_lock then appends 46 else appends 127)
    else refuses

-- The part of `HandleEvent` behind the modifiers and the releases.
unfoldable pub react : KeyboardState → ℕ → Reaction
unfolding letter digit other_key
react m k =
    if leb kc_a k && leb k kc_z
    then letter m k
    else if leb kc_0 k && leb k kc_9
    then digit m k
    else if leb kc_numpad_0 k && leb k kc_numpad_9
    then (if m.num_lock then appends (k - kc_numpad_0 + 48) else ignores)
    else other_key m k

-- The buffer: a write of a byte at an offset, a read, which may find nothing, and the removal of the
-- blocks before an offset, with the number of blocks that are gone.
pub record Buffers (W : Type 0) : Type 0 where
  pub write : ℕ → ℕ → W → W
  pub read : ℕ → W → Option ℕ
  pub clear_until : ℕ → W → ℕ × W

pub record KeyboardInput (W : Type 0) : Type 0 where
  pub buffer_offset : ℕ
  pub buffer_read_offset : ℕ
  pub state : KeyboardState
  pub buffer_size : ℕ
  pub key_callback : Option (ℕ → W → W)
  pub world : W

-- `char c = (char)-1`, unless a byte is read into it.
abbrev or_minus_one : Option ℕ → ℕ
or_minus_one none = 255
or_minus_one (some c) = c

module _ {W : Type 0} (b : Buffers W) where
  unfoldable pub append_char : ℕ → KeyboardInput W → KeyboardInput W
  append_char c s =
      let written = b.write s.buffer_offset c s.world in
      record s {
        buffer_offset = add64 s.buffer_offset 1;
        buffer_size = add64 s.buffer_size 1;
        world = elim s.key_callback [ none ↦ written | some func ↦ func c written ];
      }

  -- The first character, or -1.
  unfoldable pub get_char : KeyboardInput W → ℤ × KeyboardInput W
  get_char s =
      if s.buffer_size == 0
      then (negsuc 0, s)
      else let c = or_minus_one (b.read s.buffer_read_offset s.world) in
        let (rc, w) = b.clear_until (add64 s.buffer_read_offset 1) s.world in
        (
          if c == 255 then negsuc 0 else pos c,
          record s {
            buffer_offset =
                if rc == 0
                then s.buffer_offset
                else if leb s.buffer_read_offset s.buffer_offset
                then 0
                else s.buffer_offset;
            buffer_read_offset = if rc == 0 then add64 s.buffer_read_offset 1 else 0;
            buffer_size = sub64 s.buffer_size 1;
            world = w;
          },
        )

  unfoldable pub perform : Reaction → KeyboardInput W → Bool × KeyboardInput W
  unfolding append_char
  perform (appends c) s = (true, append_char c s)
  perform ignores s = (true, s)
  perform refuses s = (false, s)

  unfoldable pub handle_event : KeyboardEvent → KeyboardInput W → Bool × KeyboardInput W
  unfolding perform react
  handle_event e s =
      let k = e.key_code in
      if k == kc_lctrl || k == kc_rctrl
      then (true, record s { state = record s.state { control = e.pressed } })
      else if k == kc_lshift || k == kc_rshift
      then (true, record s { state = record s.state { shift = e.pressed } })
      else if k == kc_lalt || k == kc_ralt
      then (true, record s { state = record s.state { alt = e.pressed } })
      else if k == kc_capslock && not e.pressed
      then (true, record s { state = record s.state { caps_lock = not s.state.caps_lock } })
      else if k == kc_numlock && not e.pressed
      then (true, record s { state = record s.state { num_lock = not s.state.num_lock } })
      else if not e.pressed
      then (true, s)
      else perform (react s.state k) s

  -- `OnKey`
  unfoldable pub on_key : Option (ℕ → W → W) → KeyboardInput W → KeyboardInput W
  on_key func s = record s { key_callback = func }
