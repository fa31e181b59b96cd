-- ===== src/Framebuffer/Tests.antt =====
-- The screen's theorems at positions near the ends of a line and of the screen.
use unos.Base.{ℕ, ◌+◌, ◌*◌, ◌%◌, ◌^◌, ◌<◌, ◌≤◌, ◌≡◌, ◌⊎◌, arith, List, [], ◌∷◌}
use unos.Framebuffer.{Framebuffer, fb_write_char}
use unos.Framebuffer.Lines.{IsShown, AreShown, fb_write_char_lem}

abbrev letter : ℕ
letter = b'A'

abbrev ab : List ℕ
ab = b'a' ∷ b'b' ∷ []

abbrev screen : ℕ → ℕ → Framebuffer
screen x y = record {
  fb_pos_x = x;
  fb_pos_y = y;
  current_fg = 15;
  current_bg = 0;
  framebuffer_addr = 0xb8000;
  memory = λ j. j % 2 ^ 8;
  ports = record { writes = [] };
}

fb_write_char_lem_example :
    let r = fb_write_char letter (screen 79 3) in
    let at = 0xb8000 + 2 * (80 * 3 + 79) in
    (IsShown letter
      → (80 * r.fb_pos_y + r.fb_pos_x ≡ 80 * 3 + 79 + 1)
        × (r.fb_pos_x < 80)
        × (r.memory at ≡ b'A' % 256)
        × (r.memory (at + 1) ≡ 0 % 16 * 16 + 15 % 16)
        × ((j : ℕ) → (j < at) ⊎ (at + 2 ≤ j) → r.memory j ≡ (screen 79 3).memory j))
    × ((letter ≡ b'\n') ⊎ (letter ≡ b'\r')
        → (r.fb_pos_x ≡ 0) × (r.fb_pos_y ≡ 3 + 1) × ((j : ℕ) → r.memory j ≡ (screen 79 3).memory j))
fb_write_char_lem_example =
    fb_write_char_lem letter (screen 79 3) (omega arith) (omega arith) (omega arith)

shown_ab : AreShown ab
shown_ab = ((omega arith, omega arith, omega arith), ((omega arith, omega arith, omega arith), tt))
