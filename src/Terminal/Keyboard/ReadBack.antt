-- ===== src/Terminal/Keyboard/ReadBack.antt =====
-- Characters that are typed are read again.
use frosty_os_old.Terminal.Keyboard.Typing.{
  append_text, IsPlain, AllPrintable, strokes, run, run-strokes,
}
use frosty_os_old.Terminal.Keyboard.Blocks.{get_chars, block_buffer}
use frosty_os_old.Common.{
  sym, ap₂, map, refl, subst, suc, ap, ◌∙◌, length-append, sub64, add64, ℕ, ◌+◌, ◌≤◌, ◌<◌, ◌≡◌,
  arith, false, none, List, [], ◌∷◌, ◌++◌, length, u64_mod,
}
use frosty_os_old.Data.Buffer.{
  Block, Buffer, write, write_from, write_block, filled, copy_in, read, read_from, clear_until,
  clear_loop,
}
use frosty_os_old.Terminal.Keyboard.{pos, append_char, get_char, KeyboardInput}

-- The bytes from an index on.
abbrev pub Stored : (ℕ → ℕ) → ℕ → List ℕ → Type 0
Stored f r [] = Unit {0}
Stored f r (x ∷ xs) = (f r ≡ x) × Stored f (r + 1) xs

-- The characters that are not read yet are in the first block, with room behind them.
pub record Pending (s : KeyboardInput Buffer) (b : Block) (bs : List Block) (xs : List ℕ)
    : Type 0 where
  pub quiet : s.key_callback ≡ none
  pub first : s.world.blocks ≡ b ∷ bs
  pub ends : s.buffer_offset ≡ s.buffer_read_offset + length xs
  pub counted : s.buffer_size ≡ length xs
  pub room : s.buffer_offset < b.size
  pub in_words : b.size < u64_mod
  pub stored : Stored b.bytes s.buffer_read_offset xs

Stored-behind :
    (f : ℕ → ℕ) (r o c : ℕ) (xs : List ℕ)
    → Stored f r xs
    → o ≡ r + length xs
    → Stored (copy_in o 1 (λ i. c) f) r (xs ++ c ∷ [])
unfolding copy_in
Stored-behind f r o c [] v e = (ground (arith, e), tt)
Stored-behind f r o c (x ∷ xs) v e =
    (ground (arith, e, v.0), Stored-behind f (r + 1) o c xs v.1 (omega (arith, e)))

Stored-before :
    (f : ℕ → ℕ) (r n : ℕ) (xs : List ℕ)
    → Stored f r xs
    → n ≤ r
    → Stored (copy_in 0 n (λ i. 0) f) r xs
unfolding copy_in
Stored-before f r n [] v h = tt
Stored-before f r n (x ∷ xs) v h =
    (ground (arith, h, v.0), Stored-before f (r + 1) n xs v.1 (omega (arith, h)))

-- Characters other than 255, which `GetChar` takes for the end.
abbrev pub AllBelow : List ℕ → Type 0
AllBelow [] = Unit {0}
AllBelow (x ∷ xs) = (x < 255) × AllBelow xs

AllPrintable-AllBelow : (text : List ℕ) → AllPrintable text → AllBelow text
AllPrintable-AllBelow [] a = tt
AllPrintable-AllBelow (c ∷ cs) a = (omega (arith, a.0.1), AllPrintable-AllBelow cs a.1)

add64_small : (a : ℕ) → a + 1 < u64_mod → add64 a 1 ≡ a + 1
unfolding add64
add64_small a h = omega (arith, h)

sub64_small : (a left : ℕ) → a ≡ suc left → suc left < u64_mod → sub64 a 1 ≡ left
unfolding sub64
sub64_small a left e h = omega (arith, e, h)

append_nil : (xs : List ℕ) → xs ++ [] ≡ xs
append_nil [] = refl
append_nil (x ∷ xs) = ap (λ k. x ∷ k) (append_nil xs)

append_assoc : (xs ys zs : List ℕ) → (xs ++ ys) ++ zs ≡ xs ++ (ys ++ zs)
append_assoc [] ys zs = refl
append_assoc (x ∷ xs) ys zs = ap (λ k. x ∷ k) (append_assoc xs ys zs)

module _ (fresh : ℕ → ℕ) where
  write_first :
      (o c : ℕ) (w : Buffer) (b : Block) (bs : List Block)
      → w.blocks ≡ b ∷ bs
      → o < b.size
      → (write fresh o (λ i. c) 1 w).blocks ≡ filled o 1 (λ i. c) b ∷ bs
  unfolding write write_from write_block
  write_first o c w b bs e h = ground (arith, e, h)

  read_first :
      (o : ℕ) (w : Buffer) (b : Block) (bs : List Block)
      → w.blocks ≡ b ∷ bs
      → o < b.size
      → read o 1 w (λ i. 255) 0 ≡ b.bytes o
  unfolding read read_from copy_in
  read_first o w b bs e h = ground (arith, e, h)

  clear_first :
      (o : ℕ) (w : Buffer) (b : Block) (bs : List Block)
      → w.blocks ≡ b ∷ bs
      → o < b.size
      → 0 < o
      → ((clear_until o w).0 ≡ 0)
        × ((clear_until o w).1.blocks
            ≡ record b { bytes = copy_in 0 o (λ k. 0) b.bytes; is_empty = false } ∷ bs)
  unfolding clear_until clear_loop
  clear_first o w b bs e h p = ground (arith, e, h, p)

  append_char-Pending :
      (c : ℕ) (s : KeyboardInput Buffer) (b : Block) (bs : List Block) (xs : List ℕ)
      → Pending s b bs xs
      → s.buffer_offset + 1 < b.size
      → Pending
          (append_char (block_buffer fresh) c s)
          (filled s.buffer_offset 1 (λ i. c) b)
          bs
          (xs ++ c ∷ [])
  unfolding append_char block_buffer filled add64
  append_char-Pending c s b bs xs v h = record {
    quiet = v.quiet;
    first = ground (arith, v.quiet, write_first s.buffer_offset c s.world b bs v.first v.room);
    ends = omega (arith, v.ends, v.in_words, h, length-append xs (c ∷ []));
    counted = omega (arith, v.ends, v.counted, v.in_words, h, length-append xs (c ∷ []));
    room = omega (arith, v.in_words, h);
    in_words = v.in_words;
    stored = Stored-behind b.bytes s.buffer_read_offset s.buffer_offset c xs v.stored v.ends;
  }

  -- `GetChar` answers with the first of the characters, and the others are left.
  abbrev Reads : KeyboardInput Buffer → List Block → ℕ → ℕ → List ℕ → Type 0
  Reads s bs size x xs =
      ((get_char (block_buffer fresh) s).0 ≡ pos x)
      × ((b : Block) × (b.size ≡ size) × Pending (get_char (block_buffer fresh) s).1 b bs xs)

  -- The state that the call leaves.
  abbrev advanced : KeyboardInput Buffer → ℕ → KeyboardInput Buffer
  advanced s left = record s {
    buffer_read_offset = s.buffer_read_offset + 1;
    buffer_size = left;
    world = (clear_until (s.buffer_read_offset + 1) s.world).1;
  }

  get_char-advanced :
      (s : KeyboardInput Buffer) (x left : ℕ)
      → s.buffer_size ≡ suc left
      → suc left < u64_mod
      → s.buffer_read_offset + 1 < u64_mod
      → read s.buffer_read_offset 1 s.world (λ i. 255) 0 ≡ x
      → x < 255
      → (clear_until (s.buffer_read_offset + 1) s.world).0 ≡ 0
      → get_char (block_buffer fresh) s ≡ (pos x, advanced s left)
  unfolding get_char block_buffer
  get_char-advanced s x left e small l got h none_gone =
      let next : add64 s.buffer_read_offset 1 ≡ s.buffer_read_offset + 1 =
        add64_small s.buffer_read_offset l in
      let fewer : sub64 s.buffer_size 1 ≡ left = sub64_small s.buffer_size left e small in
      rw (next, fewer) (ground (arith, e, got, h, none_gone))

  get_char-Reads :
      (s : KeyboardInput Buffer) (b : Block) (bs : List Block) (x : ℕ) (xs : List ℕ)
      → Pending s b bs (x ∷ xs)
      → x < 255
      → Reads s bs b.size x xs
  get_char-Reads s b bs x xs v h =
      let r = s.buffer_read_offset in
      let got = read_first r s.world b bs v.first (omega (arith, v.ends, v.room)) in
      let (deleted, left) =
        clear_first (r + 1) s.world b bs v.first (omega (arith, v.ends, v.room)) (omega arith) in
      let cleared : Block = record b {
        bytes = copy_in 0 (r + 1) (λ k. 0) b.bytes;
        is_empty = false;
      } in
      let goes : get_char (block_buffer fresh) s ≡ (pos x, advanced s (length xs)) =
        get_char-advanced s x (length xs) v.counted (omega (arith, v.ends, v.room, v.in_words))
          (omega (arith, v.ends, v.room, v.in_words)) (got ∙ v.stored.0) h deleted in
      let after : Pending (advanced s (length xs)) cleared bs xs = record {
        quiet = v.quiet;
        first = left;
        ends = omega (arith, v.ends);
        counted = refl;
        room = v.room;
        in_words = v.in_words;
        stored = Stored-before b.bytes (r + 1) (r + 1) xs v.stored.1 (omega arith);
      } in
      (ap (λ k. k.0) goes, (cleared, refl, subst (λ k. Pending k.1 cleared bs xs) (sym goes) after))

  append_text-Pending :
      (text : List ℕ) (s : KeyboardInput Buffer) (b : Block) (bs : List Block) (xs : List ℕ)
      → Pending s b bs xs
      → s.buffer_offset + length text < b.size
      → (c : Block) × (c.size ≡ b.size)
        × Pending (append_text (block_buffer fresh) text s) c bs (xs ++ text)
  unfolding append_text append_char filled
  append_text-Pending [] s b bs xs v h = (b, refl, subst (Pending s b bs) (sym (append_nil xs)) v)
  append_text-Pending (c ∷ cs) s b bs xs v h =
      let w = append_char-Pending c s b bs xs v (omega (arith, h)) in
      let (e, same, u) =
        append_text-Pending cs (append_char (block_buffer fresh) c s)
          (filled s.buffer_offset 1 (λ i. c) b) bs (xs ++ c ∷ []) w
          (omega (arith, h, add64_small s.buffer_offset (omega (arith, h, v.in_words)))) in
      (e, same, subst (Pending _ e bs) (append_assoc xs (c ∷ []) cs) u)

  get_chars-Pending :
      (xs : List ℕ) (s : KeyboardInput Buffer) (b : Block) (bs : List Block)
      → Pending s b bs xs
      → AllBelow xs
      → (get_chars (block_buffer fresh) (length xs) s).0 ≡ map pos xs
  unfolding get_chars
  get_chars-Pending [] s b bs v h = refl
  get_chars-Pending (x ∷ xs) s b bs v h =
      let (got, (c, _, w)) = get_char-Reads s b bs x xs v h.0 in
      ap₂ (λ k ks. k ∷ ks) got (get_chars-Pending xs _ c bs w h.1)

  -- With no character left to be read, no callback, no modifier down and the caps lock off, and
  -- the next offset in the first block with room in it for more bytes than the text has: after
  -- the strokes for a text of printable ASCII characters, as many calls of `GetChar` answer with the
  -- characters of the text, in their order.
  pub get_chars-strokes :
      (s : KeyboardInput Buffer) (b : Block) (bs : List Block) (text : List ℕ)
      → Pending s b bs []
      → IsPlain s.state
      → AllPrintable text
      → s.buffer_offset + length text < b.size
      → (get_chars (block_buffer fresh) (length text) (run (block_buffer fresh) (strokes text) s)).0
        ≡ map pos text
  get_chars-strokes s b bs text v p a h =
      let (c, _, w) = append_text-Pending text s b bs [] v h in
      let (typed, _) = run-strokes (block_buffer fresh) s text p a in
      ap (λ u. (get_chars (block_buffer fresh) (length text) u).0) typed
      ∙ get_chars-Pending text _ c bs w (AllPrintable-AllBelow text a)
