-- ===== src/Keyboard/Tests.antt =====
-- Runs of the keyboard handler, and its theorems at key strokes.
use unos.Base.{ℕ, ◌<◌, ◌≡◌, refl, Bool, true, false, arith, List, [], ◌∷◌, some}
use unos.Keyboard.Table.{initial_keymap, code, key_a}
use unos.Keyboard.{Keyboard, initial, row, flag, keyboard_cb, type_bytes, ctrl_state, alt_state}
use unos.Keyboard.Held.{IsIntact, held, type_bytes-held}

-- caps lock down and up, then left shift down
abbrev strokes : List ℕ
strokes = 0x3a ∷ 0xba ∷ 0x2a ∷ []

abbrev caps : Keyboard
caps = record initial { capslock_state = true }

abbrev prefixed : Keyboard
prefixed = record initial { extcode_state = true }

initial-IsIntact : IsIntact initial
initial-IsIntact = refl

typed_capital : (keyboard_cb (code key_a) caps).1 ≡ some b'A'
unfolding keyboard_cb initial_keymap
typed_capital = refl

-- caps lock and shift together give the small letter
typed_small : (keyboard_cb (code key_a) (type_bytes strokes initial)).1 ≡ some b'a'
unfolding type_bytes initial_keymap
typed_small = refl

-- Control with the prefix, the right one, is held down in the second column.
right_control : ctrl_state (type_bytes (0xe0 ∷ 0x1d ∷ []) initial) ≡ true
unfolding type_bytes ctrl_state initial_keymap
right_control = refl

alt_released : alt_state (type_bytes (0x38 ∷ 0xb8 ∷ []) initial) ≡ false
unfolding type_bytes alt_state initial_keymap
alt_released = refl

type_bytes-held_example :
    ((m : ℕ) (col : Bool)
      → m < 96
      → flag col (row (type_bytes strokes initial) m)
        ≡ held strokes false m col (flag col (row initial m)))
    × IsIntact (type_bytes strokes initial)
type_bytes-held_example = type_bytes-held strokes initial (omega arith) initial-IsIntact
