-- ===== src/Framebuffer.antt =====
-- kernel/drivers/framebuffer.c: the text screen of 80 columns and 25 lines.
--
-- The record holds the file's globals, the memory, and the ports, to which the position of the
-- hardware's cursor goes.
pub mod Lines
pub mod Scroll
mod Tests
use unos.Base.{
  ℕ, zero, suc, ◌+◌, ◌-◌, ◌*◌, ◌/◌, ◌^◌, Bool, ◌||◌, List, [], ◌∷◌, bit_and, bit_or, u8, u16, u32,
  shl, shr, ltb, ◌==◌, if◌then◌else◌, update,
}
use unos.Memory.{Memory}
use unos.Ports.{Ports, outb}
use unos.Strings.{memcpy, memsetw}

abbrev pub fb_width : ℕ
fb_width = 80

abbrev pub fb_height : ℕ
fb_height = 25

abbrev pub fb_white : ℕ
fb_white = 15

abbrev pub fb_black : ℕ
fb_black = 0

abbrev pub fb_command_port : ℕ
fb_command_port = 0x3d4

abbrev pub fb_data_port : ℕ
fb_data_port = 0x3d5

abbrev pub fb_high_byte_command : ℕ
fb_high_byte_command = 14

abbrev pub fb_low_byte_command : ℕ
fb_low_byte_command = 15

pub record Framebuffer : Type 0 where
  pub fb_pos_x : ℕ
  pub fb_pos_y : ℕ
  pub current_fg : ℕ
  pub current_bg : ℕ
  pub framebuffer_addr : ℕ
  pub memory : Memory
  pub ports : Ports

pub fb_set_buffer : ℕ → Framebuffer → Framebuffer
fb_set_buffer addr s = record s { framebuffer_addr = addr }

pub fb_set_color : (fg bg : ℕ) → Framebuffer → Framebuffer
fb_set_color fg bg s = record s { current_fg = fg; current_bg = bg }

pub fb_reset_color : Framebuffer → Framebuffer
fb_reset_color s = record s { current_fg = fb_white; current_bg = fb_black }

abbrev pub fb_get_text_attr : (foreground background : ℕ) → ℕ
fb_get_text_attr foreground background = u8 (bit_or (shl background 4) (bit_and foreground 0x0f))

abbrev pub fb_get_text_value : (c foreground background : ℕ) → ℕ
fb_get_text_value c foreground background =
    u16 (bit_or c (shl (fb_get_text_attr foreground background) 8))

-- the address of a cell, whose number is an `int16_t`
abbrev pub cell_address : (i fb : ℕ) → ℕ
cell_address i fb = u32 (fb + (if ltb i (2 ^ 15) then i * 2 else 2 ^ 32 - (2 ^ 16 - i) * 2))

pub fb_write_cell : (i c : ℕ) → Framebuffer → Framebuffer
fb_write_cell i c s =
    let cell = cell_address i s.framebuffer_addr in
    let attr = u8 (bit_or (shl (bit_and s.current_bg 0x0f) 4) (bit_and s.current_fg 0x0f)) in
    record s { memory = update (update s.memory cell (u8 c)) (u32 (cell + 1)) attr }

pub fb_move_cursor : ℕ → Framebuffer → Framebuffer
unfolding outb
fb_move_cursor pos s =
    let p1 = outb fb_command_port fb_high_byte_command s.ports in
    let p2 = outb fb_data_port (bit_and (shr pos 8) 0x00ff) p1 in
    let p3 = outb fb_command_port fb_low_byte_command p2 in
    record s { ports = outb fb_data_port (bit_and pos 0x00ff) p3 }

pub fb_update_cursor : Framebuffer → Framebuffer
unfolding fb_move_cursor
fb_update_cursor s = fb_move_cursor (u16 (s.fb_pos_x + s.fb_pos_y * fb_width)) s

-- the end of a line, after the character
pub wrap_line : Framebuffer → Framebuffer
wrap_line s =
    if s.fb_pos_x == fb_width then record s { fb_pos_y = u32 (s.fb_pos_y + 1); fb_pos_x = 0 } else s

-- the character itself
pub put_char : ℕ → Framebuffer → Framebuffer
unfolding fb_move_cursor fb_write_cell
put_char c s =
    if (c == b'\n') || (c == b'\r')
    then (let s' = record s { fb_pos_y = u32 (s.fb_pos_y + 1); fb_pos_x = 0 } in
        fb_move_cursor (u16 (s'.fb_pos_x + s'.fb_pos_y * fb_width)) s')
    else if c == b'\t'
    then (let s' = record s { fb_pos_x = u32 (s.fb_pos_x + 4) } in
        fb_move_cursor (u16 (s'.fb_pos_x + s'.fb_pos_y * fb_width)) s')
    else (let pos = u16 (s.fb_pos_x + s.fb_pos_y * fb_width) in
        let s' = fb_move_cursor (u16 (pos + 1)) (fb_write_cell pos c s) in
        record s' { fb_pos_x = u32 (s'.fb_pos_x + 1) })

pub fb_write_char : ℕ → Framebuffer → Framebuffer
unfolding wrap_line put_char
fb_write_char c s = wrap_line (put_char c s)

-- `fb_write`, and `fb_write_str` up to the string's end: the characters in their order
pub fb_write : List ℕ → Framebuffer → Framebuffer
unfolding fb_write_char
fb_write [] s = s
fb_write (c ∷ cs) s = fb_write cs (fb_write_char c s)

-- the loop of `fb_clear` from cell `i` on, with `rounds` left
pub clear_cells : (rounds i : ℕ) → Framebuffer → Framebuffer
unfolding fb_write_cell
clear_cells zero i s = s
clear_cells (suc rounds) i s = clear_cells rounds (i + 1) (fb_write_cell i b' ' s)

pub fb_clear : Framebuffer → Framebuffer
unfolding clear_cells
fb_clear s = clear_cells (fb_width * fb_height) 0 (record s { fb_pos_x = 0; fb_pos_y = 0 })

pub scroll : Framebuffer → Framebuffer
scroll s =
    let start = s.framebuffer_addr + 1 * fb_width * 2 in
    let size = u32 (s.fb_pos_y * fb_width * 2) in
    if ltb s.fb_pos_y fb_height
    then s
    else (let copied = memcpy s.framebuffer_addr start size s.memory in
        record s {
          memory =
              memsetw (s.framebuffer_addr + size) (fb_get_text_value b' ' fb_white fb_black)
                fb_width copied;
          fb_pos_y = u32 (s.fb_pos_y + 2 ^ 32 - 1);
        })
