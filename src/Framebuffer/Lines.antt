-- ===== src/Framebuffer/Lines.antt =====
-- Where characters go, and where the next one will.
use unos.Base.{
  ℕ, ◌+◌, ◌*◌, ◌%◌, ◌^◌, ◌<◌, ◌≤◌, ◌≡◌, ◌≢◌, ◌⊎◌, refl, arith, true, false, ◌||◌, List, [], ◌∷◌,
  ◌==◌, u8, u16, length, ap, bit_and, bit_or, shl,
}
use unos.Base.Masks.{bit_and-ones, bit_or-add}
use unos.Framebuffer.{
  Framebuffer, fb_width, cell_address, fb_write_cell, fb_move_cursor, put_char, wrap_line,
  fb_write_char, fb_write,
}

-- A character that is shown: neither a new line nor a tabulator.
abbrev pub IsShown : ℕ → Type 0
IsShown c = (c ≢ b'\n') × (c ≢ b'\r') × (c ≢ b'\t')

shown_tests :
    (c : ℕ) → IsShown c → (((c == b'\n') || (c == b'\r')) ≡ false) × ((c == b'\t') ≡ false)
shown_tests c (n, r, t) = (ground arith, ground arith)

-- the byte of the two colours
colours :
    (s : Framebuffer)
    → u8 (bit_or (shl (bit_and s.current_bg 0x0f) 4) (bit_and s.current_fg 0x0f))
      ≡ s.current_bg % 16 * 16 + s.current_fg % 16
colours s =
    let bg = bit_and-ones s.current_bg 4 in
    let fg = bit_and-ones s.current_fg 4 in
    let lower : bit_and s.current_fg 0x0f < 2 ^ 4 = omega (arith, fg) in
    let both =
      bit_or-add (bit_and s.current_bg 0x0f * 2 ^ 4) (bit_and s.current_bg 0x0f)
        (bit_and s.current_fg 0x0f) 4 refl lower in
    omega (arith, ap u8 both, bg, fg)

-- A shown character on the screen is written to the cell of the position and nowhere else: the lowest
-- 8 bits of the character, then a byte with the background colour in its upper four bits and the
-- foreground's in its lower ones. The position goes on by one cell, at the line's end to the next line. A new line
-- takes the position to the next line's begin and writes nothing.
pub fb_write_char_lem :
    (c : ℕ) (s : Framebuffer)
    → s.fb_pos_x < 80
    → s.fb_pos_y < 25
    → s.framebuffer_addr + 4000 < 2 ^ 32
    → let r = fb_write_char c s in
      let at = s.framebuffer_addr + 2 * (80 * s.fb_pos_y + s.fb_pos_x) in
      (IsShown c
        → (80 * r.fb_pos_y + r.fb_pos_x ≡ 80 * s.fb_pos_y + s.fb_pos_x + 1)
          × (r.fb_pos_x < 80)
          × (r.memory at ≡ c % 256)
          × (r.memory (at + 1) ≡ s.current_bg % 16 * 16 + s.current_fg % 16)
          × ((j : ℕ) → (j < at) ⊎ (at + 2 ≤ j) → r.memory j ≡ s.memory j))
      × ((c ≡ b'\n') ⊎ (c ≡ b'\r')
          → (r.fb_pos_x ≡ 0) × (r.fb_pos_y ≡ s.fb_pos_y + 1) × ((j : ℕ) → r.memory j ≡ s.memory j))
unfolding fb_write_char put_char wrap_line fb_write_cell fb_move_cursor
fb_write_char_lem c s hx hy ha = (
  (λ shown.
      let (n, t) = shown_tests c shown in
      let pos : u16 (s.fb_pos_x + s.fb_pos_y * fb_width) ≡ 80 * s.fb_pos_y + s.fb_pos_x =
        omega arith in
      let cell : cell_address (80 * s.fb_pos_y + s.fb_pos_x) s.framebuffer_addr
          ≡ s.framebuffer_addr + 2 * (80 * s.fb_pos_y + s.fb_pos_x) =
        ground arith in
      rw (n, t, pos, cell)
        (
          ground arith,
          ground arith,
          ground arith,
          ground (arith, colours s),
          λ j apart. ground arith,
        )),
  (λ line.
      let n : ((c == b'\n') || (c == b'\r')) ≡ true = ground arith in
      rw n (ground arith, ground arith, λ j. ground arith)),
)

shown_beyond :
    (c : ℕ) (s : Framebuffer)
    → IsShown c
    → 80 < s.fb_pos_x
    → s.fb_pos_x + 1 < 2 ^ 32
    → ((fb_write_char c s).fb_pos_x ≡ s.fb_pos_x + 1) × ((fb_write_char c s).fb_pos_y ≡ s.fb_pos_y)
unfolding fb_write_char put_char wrap_line fb_write_cell fb_move_cursor
shown_beyond c s shown far small =
    let (n, t) = shown_tests c shown in rw (n, t) (ground arith, ground arith)

abbrev pub AreShown : List ℕ → Type 0
AreShown [] = Unit
AreShown (c ∷ cs) = IsShown c × AreShown cs

line_beyond :
    (cs : List ℕ) (s : Framebuffer)
    → AreShown cs
    → 80 < s.fb_pos_x
    → s.fb_pos_x + length cs < 2 ^ 32
    → ((fb_write cs s).fb_pos_x ≡ s.fb_pos_x + length cs) × ((fb_write cs s).fb_pos_y ≡ s.fb_pos_y)
unfolding fb_write
line_beyond [] s shown far small = (omega arith, refl)
line_beyond (c ∷ cs) s (one, rest) far small =
    let (x, y) = shown_beyond c s one far (omega arith) in
    let (xs, ys) = line_beyond cs (fb_write_char c s) rest (omega (arith, x)) (omega (arith, x)) in
    (omega (arith, x, xs), omega (arith, y, ys))

-- A tabulator in one of the last three columns takes the position past the line's end, and the test
-- for the end then never holds: any shown characters after it stay on the same line.
pub tab_past_end :
    (cs : List ℕ) (s : Framebuffer)
    → 77 ≤ s.fb_pos_x
    → s.fb_pos_x < 80
    → AreShown cs
    → length cs < 2 ^ 31
    → let r = fb_write (b'\t' ∷ cs) s in
      (r.fb_pos_y ≡ s.fb_pos_y) × (r.fb_pos_x ≡ s.fb_pos_x + 4 + length cs)
unfolding fb_write
tab_past_end cs s lo hi shown few =
    let (x, y) = tab s lo hi in
    let (xs, ys) =
      line_beyond cs (fb_write_char b'\t' s) shown (omega (arith, x)) (omega (arith, x)) in
    (omega (arith, y, ys), omega (arith, x, xs))
  where
    tab :
        (s : Framebuffer)
        → 77 ≤ s.fb_pos_x
        → s.fb_pos_x < 80
        → ((fb_write_char b'\t' s).fb_pos_x ≡ s.fb_pos_x + 4)
          × ((fb_write_char b'\t' s).fb_pos_y ≡ s.fb_pos_y)
    tab s lo hi = (ground arith, ground arith)
