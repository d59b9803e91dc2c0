-- ===== src/Tests/Keys.antt =====
-- Keyboard input into a buffer that is a list of characters.
use frosty_os_old.Common.{add64, sub64, ℕ, ◌≡◌, refl, arith, true, false, none, List, [], ◌∷◌, ◌++◌}
use frosty_os_old.Common.Integers.{pos}
use frosty_os_old.Data.Buffer.{Block, Buffer, make, write, read, clear_until, copy_in}
use frosty_os_old.Terminal.Keyboard.ReadBack.{Pending, get_chars-strokes}
use frosty_os_old.Terminal.Keyboard.Blocks.{block_buffer, get_chars}
use frosty_os_old.Terminal.Keyboard.{append_char, get_char, handle_event, Buffers, KeyboardInput}
use frosty_os_old.Terminal.Keyboard.Typing.{IsPlain, strokes, run, append_text}

abbrev list_buffer : Buffers (List ℕ)
list_buffer = record {
  write = λ o c w. w ++ c ∷ [];
  read = λ o w. none;
  clear_until = λ o w. (0, w);
}

abbrev silent : KeyboardInput (List ℕ)
silent = record {
  buffer_offset = 0;
  buffer_read_offset = 0;
  state = record {
    control = false;
    shift = false;
    alt = false;
    caps_lock = false;
    num_lock = true;
  };
  buffer_size = 0;
  key_callback = none;
  world = [];
}

silent-IsPlain : IsPlain silent.state
silent-IsPlain = record { control_up = refl; shift_up = refl; alt_up = refl; caps_off = refl }

-- `Hi!`
abbrev text : List ℕ
text = 72 ∷ 105 ∷ 33 ∷ []

text-world : (run list_buffer (strokes text) silent).world ≡ text
unfolding run handle_event
text-world = refl

-- No character, in a buffer of one block of four bytes.
abbrev blank : KeyboardInput Buffer
unfolding make
blank = record {
  buffer_offset = 0;
  buffer_read_offset = 0;
  state = silent.state;
  buffer_size = 0;
  key_callback = none;
  world = make (λ i. 0) 4 4;
}

abbrev blocks : Buffers Buffer
blocks = block_buffer (λ i. 0)

typed-read : (get_chars blocks 3 (append_text blocks text blank)).0 ≡ pos 72 ∷ pos 105 ∷ pos 33 ∷ []
unfolding get_chars append_text append_char get_char write add64 sub64 read clear_until copy_in make
    block_buffer
typed-read = refl

-- Six characters are typed and four are read, which empties the first block; then one more is typed.
abbrev six_four_one : KeyboardInput Buffer
six_four_one =
    append_text blocks (71 ∷ [])
      (get_chars blocks 4 (append_text blocks (65 ∷ 66 ∷ 67 ∷ 68 ∷ 69 ∷ 70 ∷ []) blank)).1

-- The character 71 comes in place of 69, which is lost.
six_four_one_lost : (get_chars blocks 3 six_four_one).0 ≡ pos 71 ∷ pos 70 ∷ pos 0 ∷ []
unfolding get_chars append_text append_char get_char write add64 sub64 read clear_until copy_in make
    block_buffer
six_four_one_lost = refl

abbrev one_block : Block
one_block = record { bytes = λ i. 0; size = 4; is_empty = true }

abbrev ready : KeyboardInput Buffer
ready = record {
  buffer_offset = 0;
  buffer_read_offset = 0;
  state = silent.state;
  buffer_size = 0;
  key_callback = none;
  world = record { size = 4; block_size = 4; blocks = one_block ∷ [] };
}

ready-Pending : Pending ready one_block [] []
ready-Pending = record {
  quiet = refl;
  first = refl;
  ends = refl;
  counted = refl;
  room = omega arith;
  in_words = omega arith;
  stored = tt;
}

get_chars-strokes_example :
    (get_chars blocks 3 (run blocks (strokes text) ready)).0 ≡ pos 72 ∷ pos 105 ∷ pos 33 ∷ []
get_chars-strokes_example =
    get_chars-strokes (λ i. 0) ready one_block [] text ready-Pending silent-IsPlain
      ((omega arith, omega arith), ((omega arith, omega arith), ((omega arith, omega arith), tt)))
      (omega arith)
