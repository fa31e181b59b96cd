-- ===== src/Timer/Divisor.antt =====
-- What the timer's chip is told.
use unos.Base.{
  ℕ, ◌+◌, ◌*◌, ◌/◌, ◌%◌, ◌^◌, ◌<◌, ◌≡◌, arith, refl, some, false, bit_and, shr, u8, ◌==◌, ◌∷◌,
}
use native.Mathlib.Nat.{div-le_of_le-mul}
use unos.Base.Masks.{bit_and-ones}
use unos.Ports.{Ports, outb}
use unos.Timer.{Timer, init_timer}

-- The frequency is set and the chip is told to repeat, with two bytes, the lower one first: they are the
-- quotient of 1193180 by the frequency, cut to 16 bits. From 19 on that is the quotient itself.
pub init_timer_lem :
    {R S : Type 0} (frequency : ℕ) (p : Ports) (s : Timer R S)
    → 0 < frequency
    → (low : ℕ) × (high : ℕ) × ((q : Ports) × (init_timer frequency p s
          ≡ some (q, record s { frequency_g = frequency }))
        × (q.writes ≡ (0x40, high) ∷ (0x40, low) ∷ (0x43, 0x36) ∷ p.writes))
      × (low + 256 * high ≡ 1193180 / frequency % 2 ^ 16)
      × (18 < frequency → low + 256 * high ≡ 1193180 / frequency)
unfolding init_timer outb
init_timer_lem frequency p s pos =
    let d = 1193180 / frequency in
    let some_frequency : (frequency == 0) ≡ false = ground arith in
    let low_mask = bit_and-ones d 8 in
    let high_mask = bit_and-ones (d / 2 ^ 8) 8 in
    (
      u8 (bit_and d 0xff),
      u8 (bit_and (shr d 8) 0xff),
      (
        outb 0x40 (bit_and (shr d 8) 0xff) (outb 0x40 (bit_and d 0xff) (outb 0x43 0x36 p)),
        rw (some_frequency) refl,
        refl,
      ),
      omega (arith, low_mask, high_mask),
      λ fast. omega (
        arith,
        low_mask,
        high_mask,
        div-le_of_le-mul frequency {m = 1193180} {n = 65535} (omega arith),
      ),
    )
