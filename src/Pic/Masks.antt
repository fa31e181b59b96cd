-- ===== src/Pic/Masks.antt =====
-- Which line of which controller the two operations on the masks reach.
use unos.Base.{
  ◌+◌, ℕ, ◌/◌, ◌%◌, ◌^◌, ◌<◌, ◌≡◌, arith, bit_and, bit_or, not32, ◌∷◌, if◌then◌else◌, ◌==◌, u8, ap,
  ◌∙◌,
}
use unos.Base.Bits.{
  bit, bit-le-one, bit-bit_and, bit-bit_or, bit-pow, bit-complement, bit_and-le, bit_or-lt,
  pow-lt-pow,
}
use unos.Ports.{Ports, outb}
use unos.Pic.{line_port, line_number, enable_irq, disable_irq, pic1_data, pic2_data}

set_digit :
    (m j k : ℕ)
    → m < 256
    → j < 8
    → k < 8
    → bit (u8 (bit_or m (2 ^ j))) k ≡ (if k == j then 1 else bit m k)
set_digit m j k hm hj hk =
    let small : u8 (bit_or m (2 ^ j)) ≡ bit_or m (2 ^ j) =
      omega (arith, bit_or-lt 8 m (2 ^ j) hm (pow-lt-pow j 8 hj)) in
    ap (λ w. bit w k) small ∙ bit-bit_or m (2 ^ j) k ∙ ground (arith, bit-pow j k, bit-le-one m k)

clear_digit :
    (m j k : ℕ)
    → m < 256
    → j < 8
    → k < 8
    → bit (u8 (bit_and m (not32 (2 ^ j)))) k ≡ (if k == j then 0 else bit m k)
clear_digit m j k hm hj hk =
    let small : u8 (bit_and m (not32 (2 ^ j))) ≡ bit_and m (not32 (2 ^ j)) =
      omega (arith, bit_and-le m (not32 (2 ^ j))) in
    ap (λ w. bit w k) small
    ∙ bit-bit_and m (not32 (2 ^ j)) k
    ∙ ground (
      arith,
      bit-complement 32 (2 ^ j) k (pow-lt-pow j 32 (omega arith)) (omega arith),
      bit-pow j k,
      bit-le-one m k,
    )

-- the data port of controller `c`
abbrev pub port_of : ℕ → ℕ
port_of c = if c == 0 then pic1_data else pic2_data

-- One byte more has been written, to the controller of line `n`: its mask as the port answered it,
-- but for the line's bit, which is `x`.
abbrev pub Writes : (x n : ℕ) → (ℕ → ℕ) → Ports → Ports → Type 0
Writes x n inb s s' =
    (v : ℕ) × (s'.writes ≡ (port_of (n / 8), v) ∷ s.writes)
    × ((k : ℕ) → k < 8 → bit v k ≡ (if k == n % 8 then x else bit (inb (port_of (n / 8))) k))

-- Of the 16 lines, `disable_irq` sets just the line's bit in the mask of its controller, and
-- `enable_irq` clears it.
pub irq_masks :
    (inb : ℕ → ℕ) (n : ℕ) (s : Ports)
    → n < 16
    → ((p : ℕ) → inb p < 256)
    → Writes 1 n inb s (disable_irq inb n s) × Writes 0 n inb s (enable_irq inb n s)
unfolding disable_irq enable_irq line_port line_number outb
irq_masks inb n s hn bytes =
    let port : line_port n ≡ port_of (n / 8) = ground arith in
    let number : line_number n ≡ n % 8 = ground arith in
    let m = inb (port_of (n / 8)) in
    rw (port, number)
      (
        (
          u8 (bit_or m (2 ^ (n % 8))),
          written (bit_or m (2 ^ (n % 8))),
          λ k h. set_digit m (n % 8) k (bytes _) (omega arith) h,
        ),
        (
          u8 (bit_and m (not32 (2 ^ (n % 8)))),
          written (bit_and m (not32 (2 ^ (n % 8)))),
          λ k h. clear_digit m (n % 8) k (bytes _) (omega arith) h,
        ),
      )
  where
    written :
        (v : ℕ) → (outb (port_of (n / 8)) (u8 v) s).writes ≡ (port_of (n / 8), u8 v) ∷ s.writes
    written v =
        ap (λ w. w ∷ s.writes)
          (ap (λ p. (p, u8 (u8 v))) (ground arith) ∙ ap (λ b. (port_of (n / 8), b)) (omega arith))

-- With the vector of a line from 0 to 7, which is 32 higher, `enable_irq` writes the second controller's
-- mask back as it was: no line is enabled.
pub enable_irq_vector :
    (inb : ℕ → ℕ) (n : ℕ) (s : Ports)
    → n < 8
    → ((p : ℕ) → inb p < 256)
    → (v : ℕ) × ((enable_irq inb (32 + n) s).writes ≡ (pic2_data, v) ∷ s.writes)
      × ((k : ℕ) → k < 8 → bit v k ≡ bit (inb pic2_data) k)
unfolding enable_irq line_port line_number outb
enable_irq_vector inb n s hn bytes =
    let port : line_port (32 + n) ≡ pic2_data = ground arith in
    let number : line_number (32 + n) ≡ 24 + n = ground arith in
    let m = inb pic2_data in
    let v = u8 (bit_and m (not32 (2 ^ (24 + n)))) in
    let small : v ≡ bit_and m (not32 (2 ^ (24 + n))) =
      omega (arith, bit_and-le m (not32 (2 ^ (24 + n))), bytes pic2_data) in
    let twice : u8 v ≡ v = omega (arith, bit_and-le m (not32 (2 ^ (24 + n))), bytes pic2_data) in
    rw (port, number)
      (
        v,
        ap (λ w. (pic2_data, w) ∷ s.writes) twice,
        λ k h.
            ap (λ w. bit w k) small
            ∙ bit-bit_and m (not32 (2 ^ (24 + n))) k
            ∙ ground (
              arith,
              bit-complement 32 (2 ^ (24 + n)) k (pow-lt-pow (24 + n) 32 (omega arith))
                  (omega arith),
              bit-pow (24 + n) k,
              bit-le-one m k,
            ),
      )
