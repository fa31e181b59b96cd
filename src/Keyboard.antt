-- ===== src/Keyboard.antt =====
-- kernel/drivers/keyboard.c, the handler of the keyboard interrupt: scan codes in, characters out.
--
-- The record holds the table, whose flags the handler writes, and the four globals. The byte that
-- `inb` reads from the data port is an argument, and the character that goes to `fb_write_char` is
-- the result beside the new state.
pub mod Table
pub mod Codes
pub mod Held
pub mod Typed
mod Tests
use unos.Base.{
  ℕ, ◌*◌, ◌+◌, ◌^◌, ◌%◌, Bool, true, false, not, ◌&&◌, ◌||◌, Option, none, some, List, [], ◌∷◌,
  bit_and, bit_or, ltb, leb, ◌==◌, if◌then◌else◌, u8, get_or, set,
}
use unos.Keyboard.Table.{
  Row, inv, key, initial_keymap, Key, code, key_ctrl_l, key_alt_l, key_shift_l, key_shift_r,
  key_print_screen, key_numlock, key_capslock, key_scrlock, key_slash,
}

pub record Keyboard : Type 0 where
  pub keymap : List Row
  pub capslock_state : Bool
  pub scrlock_state : Bool
  pub numlock_state : Bool
  pub extcode_state : Bool

abbrev pub initial : Keyboard
initial = record {
  keymap = initial_keymap;
  capslock_state = false;
  scrlock_state = false;
  numlock_state = false;
  extcode_state = false;
}

abbrev pub row : Keyboard → ℕ → Row
row kb makecode = get_or kb.keymap makecode (key inv inv)

-- `keymap[makecode][ext]` for `ext` 2 (`false`) and 3 (`true`)
abbrev pub flag : Bool → Row → Bool
flag false r = r.down
flag true r = r.ext_down

abbrev pub set_flag : Bool → Bool → Row → Row
set_flag false v r = record r { down = v }
set_flag true v r = record r { ext_down = v }

pub mark : (makecode : ℕ) (ext v : Bool) → Keyboard → Keyboard
mark makecode ext v kb = record kb {
  keymap = set kb.keymap makecode (set_flag ext v (row kb makecode));
}

pub ctrl_state : Keyboard → Bool
ctrl_state kb = (row kb (code key_ctrl_l)).down || (row kb (code key_ctrl_l)).ext_down

pub alt_state : Keyboard → Bool
alt_state kb = (row kb (code key_alt_l)).down || (row kb (code key_alt_l)).ext_down

pub shift_state : Keyboard → Bool
shift_state kb = (row kb (code key_shift_l)).down || (row kb (code key_shift_r)).down

-- the three lock keys
pub toggle_locks : ℕ → Keyboard → Keyboard
toggle_locks makecode kb =
    if makecode == code key_numlock
    then record kb { numlock_state = not kb.numlock_state }
    else if makecode == code key_capslock
    then record kb { capslock_state = not kb.capslock_state }
    else if makecode == code key_scrlock
    then record kb { scrlock_state = not kb.scrlock_state }
    else kb

-- the variable `shift`: two conditional negations
pub shift_of : ℕ → Keyboard → Bool
unfolding shift_state
shift_of makecode kb =
    let letter = leb b'a' (row kb makecode).normal && leb (row kb makecode).normal b'z' in
    let shift = kb.capslock_state && letter in if shift_state kb then not shift else shift

-- the character `ch`
pub char_of : (makecode : ℕ) (ext : Bool) → Keyboard → ℕ
unfolding shift_of
char_of makecode ext kb =
    if ext && not (makecode == code key_slash)
    then (row kb makecode).shifted
    else if shift_of makecode kb
    then (row kb makecode).shifted
    else (row kb makecode).normal

-- a make code: the key goes down
pub key_down : (makecode : ℕ) (ext : Bool) → Keyboard → Keyboard × Option ℕ
unfolding mark toggle_locks char_of
key_down makecode ext kb =
    let kb' = toggle_locks makecode (mark makecode ext true kb) in
    let ch = char_of makecode ext kb' in (kb', if ch == inv then none else some ch)

abbrev pub code_print_screen_down : ℕ
code_print_screen_down = 0xb7

-- `scancode` after the prefix has been put before it: the variable is an `unsigned char`
pub with_prefix : ℕ → ℕ
with_prefix scancode = u8 (bit_or scancode 0xe000)

pub make_code : ℕ → ℕ
make_code scancode =
    let makecode = bit_and scancode 0x7f in
    if makecode == code_print_screen_down then code key_print_screen else makecode

-- the handler from the make code on; `ext` says whether the index of the flag is 3
pub handle_code : (ext : Bool) (scancode : ℕ) → Keyboard → Keyboard × Option ℕ
unfolding make_code mark key_down
handle_code ext scancode kb =
    let makecode = make_code scancode in
    if ltb (code key_print_screen) makecode
    then (kb, none)
    else if not (bit_and scancode 0x80 == 0)
    then (mark makecode ext false kb, none)
    else key_down makecode ext kb

pub keyboard_cb : ℕ → Keyboard → Keyboard × Option ℕ
unfolding with_prefix handle_code
keyboard_cb byte kb =
    if byte == 0xe0
    then (record kb { extcode_state = true }, none)
    else if kb.extcode_state
    then handle_code true (with_prefix byte) (record kb { extcode_state = false })
    else handle_code false byte kb

-- a sequence of interrupts: the last state
pub type_bytes : List ℕ → Keyboard → Keyboard
unfolding keyboard_cb
type_bytes [] kb = kb
type_bytes (byte ∷ bytes) kb = type_bytes bytes (keyboard_cb byte kb).0
