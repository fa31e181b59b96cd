-- ===== src/Framebuffer/Scroll.antt =====
-- Clearing and scrolling the screen.
use unos.Base.{
  ℕ, ◌+◌, ◌-◌, ◌*◌, ◌%◌, ◌<◌, ◌≤◌, ◌≡◌, ◌⊎◌, inl, refl, arith, true, false, ltb, ◌==◌,
  if◌then◌else◌, u32, ap,
}
use unos.Memory.{Memory}
use unos.Strings.{memcpy}
use unos.Strings.Bytes.{memcpy_lem, memsetw_lem}
use unos.Framebuffer.{Framebuffer, fb_width, fb_height, scroll}

-- A full screen scrolls by one line: each of its 25 lines becomes the one below it, for the last one
-- what stood behind the screen, and the line that is blanked is the one behind the screen. The
-- position goes up by one line. Above the last line `scroll` does nothing.
pub scroll_lem :
    (s : Framebuffer)
    → let a = s.framebuffer_addr in
      (s.fb_pos_y < 25 → scroll s ≡ s)
      × (s.fb_pos_y ≡ 25
          → ((scroll s).fb_pos_y ≡ 24)
            × ((j : ℕ) → a ≤ j → j < a + 25 * 160 → (scroll s).memory j ≡ s.memory (j + 160))
            × ((j : ℕ)
                → a + 25 * 160 ≤ j
                → j < a + 26 * 160
                → (scroll s).memory j ≡ (if (j - (a + 25 * 160)) % 2 == 0 then b' ' else 0x0f))
            × ((j : ℕ) → (j < a) ⊎ (a + 26 * 160 ≤ j) → (scroll s).memory j ≡ s.memory j))
unfolding scroll
scroll_lem s =
    let a = s.framebuffer_addr in
    let copied : Memory = memcpy a (a + 1 * fb_width * 2) 4000 s.memory in
    let copy = λ (j : ℕ). memcpy_lem a (a + 1 * fb_width * 2) 4000 s.memory j (inl (omega arith)) in
    let fill = λ (j : ℕ). memsetw_lem (a + 4000) 0x0f20 80 copied j in
    (
      (λ above. let t : ltb s.fb_pos_y fb_height ≡ true = ground arith in rw t refl),
      λ full.
          let t : ltb s.fb_pos_y fb_height ≡ false = ground arith in
          let size : u32 (s.fb_pos_y * fb_width * 2) ≡ 4000 = omega arith in
          rw (t, size)
            (
              omega arith,
              (λ j lo hi. ground (arith, fill j, copy j, ap s.memory (shift j lo))),
              (λ j lo hi. ground (arith, fill j)),
              λ j out. ground (arith, fill j, copy j, out),
            ),
    )
  where
    shift :
        (j : ℕ)
        → s.framebuffer_addr ≤ j
        → j - s.framebuffer_addr + (s.framebuffer_addr + 1 * fb_width * 2) ≡ j + 160
    shift j lo = omega arith
