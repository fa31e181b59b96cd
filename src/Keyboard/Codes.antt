-- ===== src/Keyboard/Codes.antt =====
-- What the handler's masks do to a byte.
use unos.Base.{
  ◌*◌, ℕ, zero, suc, ◌%◌, ◌/◌, ◌<◌, ◌≡◌, refl, Bool, true, false, ◌&&◌, ltb, ◌==◌, if◌then◌else◌,
  bit_and, arith, ==_iff, Option, none, leb, ◌≢◌,
}
use unos.Keyboard.{Keyboard, with_prefix, make_code, mark, key_down, handle_code, keyboard_cb}

unfoldable pub all_below : ℕ → (ℕ → Bool) → Bool
all_below zero p = true
all_below (suc n) p = p n && all_below n p

pub all_below_lem : (n : ℕ) (p : ℕ → Bool) (x : ℕ) → all_below n p ≡ true → x < n → p x ≡ true
unfolding all_below
all_below_lem zero p x h lt = absurd (omega arith)
all_below_lem (suc n) p x h lt = ground (arith, all_below_lem n p x)

prefix_table : all_below 256 (λ b. with_prefix b == b) ≡ true
unfolding all_below with_prefix
prefix_table = refl

make_table : all_below 256 (λ b. make_code b == b % 128) ≡ true
unfolding all_below make_code
make_table = refl

break_table : all_below 256 (λ b. bit_and b 0x80 == b / 128 * 128) ≡ true
unfolding all_below
break_table = refl

module _ (b : ℕ) (h : b < 256) where
  -- The prefix 0xe000 does not fit the variable.
  pub with_prefix_lem : with_prefix b ≡ b
  with_prefix_lem = (==_iff _ _).0 (all_below_lem 256 _ b prefix_table h)

  -- The make code is the low seven bits, so it is never 0xb7.
  pub make_code_lem : make_code b ≡ b % 128
  make_code_lem = (==_iff _ _).0 (all_below_lem 256 _ b make_table h)

  pub break_bit : bit_and b 0x80 ≡ b / 128 * 128
  break_bit = (==_iff _ _).0 (all_below_lem 256 _ b break_table h)

-- `handle_code` at a byte, with its masks worked out.
abbrev pub plain_code : Bool → ℕ → Keyboard → Keyboard × Option ℕ
plain_code ext b kb =
    if ltb 95 (b % 128)
    then (kb, none)
    else if leb 128 b
    then (mark (b % 128) ext false kb, none)
    else key_down (b % 128) ext kb

handle_code_lem :
    (ext : Bool) (b : ℕ) (kb : Keyboard) → b < 256 → handle_code ext b kb ≡ plain_code ext b kb
unfolding handle_code
handle_code_lem ext b kb h = rw (make_code_lem b h, break_bit b h) (ground arith)

cleared : (kb : Keyboard) → kb.extcode_state ≡ false → record kb { extcode_state = false } ≡ kb
cleared kb e = ground (arith, e)

-- The handler at a byte other than the prefix.
pub keyboard_cb_lem :
    (b : ℕ) (kb : Keyboard)
    → b < 256
    → b ≢ 0xe0
    → keyboard_cb b kb ≡ plain_code kb.extcode_state b (record kb { extcode_state = false })
unfolding keyboard_cb
keyboard_cb_lem b kb h ne = ground (
  arith,
  with_prefix_lem b h,
  handle_code_lem true b (record kb { extcode_state = false }) h,
  handle_code_lem false b kb h,
  cleared kb,
)
