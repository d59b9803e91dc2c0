-- ===== src/Terminal/Keyboard/Typing.antt =====
-- What is typed on a keyboard of that layout.
use frosty_os_old.Common.{
  sym, ℕ, ◌≡◌, refl, ◌∙◌, ap, arith, Bool, true, false, Option, none, some, List, [], ◌∷◌, ◌++◌,
  subst,
}
use frosty_os_old.Terminal.Keyboard.{
  KeyboardEvent, KeyboardState, appends, react, Buffers, KeyboardInput, append_char, handle_event,
  perform,
}
use frosty_os_old.Terminal.Keyboard.Layout.{
  layout, key_in, IsPrintable, with_shift, types_key, good_key, printable-good_key, good_key-parts,
}
use frosty_os_old.Terminal.Keyboard.Codes.{kc_lshift}

abbrev press : ℕ → KeyboardEvent
press k = record { key_code = k; pressed = true }

abbrev lift : ℕ → KeyboardEvent
lift k = record { key_code = k; pressed = false }

-- The events of the fingers for a character.
abbrev pub strokes_of : Option (ℕ × Bool) → List KeyboardEvent
strokes_of none = []
strokes_of (some (k, false)) = press k ∷ lift k ∷ []
strokes_of (some (k, true)) = press kc_lshift ∷ press k ∷ lift k ∷ lift kc_lshift ∷ []

abbrev pub strokes : List ℕ → List KeyboardEvent
strokes [] = []
strokes (c ∷ cs) = strokes_of (key_in layout c) ++ strokes cs

abbrev pub AllPrintable : List ℕ → Type 0
AllPrintable [] = Unit {0}
AllPrintable (c ∷ cs) = IsPrintable c × AllPrintable cs

-- No modifier is down, and the caps lock is off.
pub record IsPlain (m : KeyboardState) : Type 0 where
  pub control_up : m.control ≡ false
  pub shift_up : m.shift ≡ false
  pub alt_up : m.alt ≡ false
  pub caps_off : m.caps_lock ≡ false

module _ {W : Type 0} (b : Buffers W) where
  unfoldable pub run : List KeyboardEvent → KeyboardInput W → KeyboardInput W
  run [] s = s
  run (e ∷ es) s = run es (handle_event b e s).1

  -- The characters of a text are appended one after another.
  unfoldable pub append_text : List ℕ → KeyboardInput W → KeyboardInput W
  unfolding append_char
  append_text [] s = s
  append_text (c ∷ cs) s = append_text cs (append_char b c s)

module _ {W : Type 0} (b : Buffers W) where
  run-append :
      (es fs : List KeyboardEvent) (s : KeyboardInput W)
      → run b (es ++ fs) s ≡ run b fs (run b es s)
  unfolding run
  run-append [] fs s = refl
  run-append (e ∷ es) fs s = run-append es fs (handle_event b e s).1

  handle_event-press :
      (c k : ℕ) (s : KeyboardInput W)
      → types_key k ≡ true
      → react s.state k ≡ appends c
      → (handle_event b (press k) s).1 ≡ append_char b c s
  unfolding handle_event
  handle_event-press c k s h e = ground (arith, h) ∙ ap (λ r. (perform b r s).1) e

  handle_event-lift :
      (k : ℕ) (s : KeyboardInput W) → types_key k ≡ true → (handle_event b (lift k) s).1 ≡ s
  unfolding handle_event
  handle_event-lift k s h = ground (arith, h)

  at_rest : Bool → Bool → KeyboardInput W → KeyboardInput W
  at_rest shift num s = record s { state = with_shift shift num }

  append_char-lift :
      (c : ℕ) (num : Bool) (s : KeyboardInput W)
      → (handle_event b (lift kc_lshift) (append_char b c (at_rest true num s))).1
        ≡ append_char b c (at_rest false num s)
  unfolding handle_event at_rest
  append_char-lift c num s = refl

  handle_event-lshift :
      (num : Bool) (s : KeyboardInput W)
      → (handle_event b (press kc_lshift) (at_rest false num s)).1 ≡ at_rest true num s
  unfolding handle_event at_rest
  handle_event-lshift num s = refl

  run-strokes_of :
      (c : ℕ) (o : Option (ℕ × Bool)) (num : Bool) (s : KeyboardInput W)
      → good_key c o ≡ true
      → run b (strokes_of o) (at_rest false num s) ≡ append_char b c (at_rest false num s)
  unfolding run at_rest
  run-strokes_of c none num s h = cc
  run-strokes_of c (some (k, false)) num s h =
      let (types, e) = good_key-parts c k false num h in
      handle_event-lift k _ types ∙ handle_event-press c k (at_rest false num s) types e
  run-strokes_of c (some (k, true)) num s h =
      let (types, e) = good_key-parts c k true num h in
      let up = at_rest true num s in
      let ends : List KeyboardEvent = press k ∷ lift k ∷ lift kc_lshift ∷ [] in
      ap (run b ends) (handle_event-lshift num s)
      ∙ ap (λ u. (handle_event b (lift kc_lshift) u).1)
          (handle_event-lift k _ types ∙ handle_event-press c k up types e)
      ∙ append_char-lift c num s

  at_rest-IsPlain : (s : KeyboardInput W) → IsPlain s.state → at_rest false s.state.num_lock s ≡ s
  unfolding at_rest
  at_rest-IsPlain s p = ground (arith, p.control_up, p.shift_up, p.alt_up, p.caps_off)

  append_char-state : (c : ℕ) (s : KeyboardInput W) → (append_char b c s).state ≡ s.state
  unfolding append_char
  append_char-state c s = refl

  -- From a state with no modifier down and the caps lock off, the strokes for a text of printable
  -- ASCII characters, on a keyboard with the layout of the United States, append exactly the
  -- characters of the text, in their order, and leave the modifiers as they were.
  pub run-strokes :
      (s : KeyboardInput W) (text : List ℕ)
      → IsPlain s.state
      → AllPrintable text
      → (run b (strokes text) s ≡ append_text b text s) × ((append_text b text s).state ≡ s.state)
  unfolding run append_text
  run-strokes s [] p a = (refl, refl)
  run-strokes s (c ∷ cs) p a =
      let o = key_in layout c in
      let one = run-strokes_of c o s.state.num_lock s (printable-good_key c a.0) in
      let same = at_rest-IsPlain s p in
      let typed : run b (strokes_of o) s ≡ append_char b c s =
        subst (λ u. run b (strokes_of o) u ≡ append_char b c u) same one in
      let kept = append_char-state c s in
      let (rest, state) = run-strokes (append_char b c s) cs (subst IsPlain (sym kept) p) a.1 in
      (
        run-append (strokes_of o) (strokes cs) s ∙ ap (run b (strokes cs)) typed ∙ rest,
        state ∙ kept,
      )
