-- ===== src/Serial/Sent.antt =====
-- What goes out of the port.
use unos.Base.{
  ℕ, zero, suc, ◌+◌, ◌<◌, ◌≡◌, ◌≢◌, refl, arith, true, false, some, List, ◌∷◌, ◌==◌, ap, ◌∙◌, u8,
}
use native.Mathlib.Decide.{ℕ_discrete}
use unos.Memory.{Memory}
use unos.Ports.{Ports, outb}
use unos.Serial.{
  com1_base, serial_configure_baud_rate, serial_configure_line, serial_is_transmit_fifo_empty,
  serial_wait, serial_send, serial_write,
}

-- From each read on, one of the next `fuel` reads says that the transmitter is free.
abbrev pub Answers : (fuel : ℕ) (status : ℕ → ℕ) → Type 0
Answers fuel status =
    (k : ℕ) → (j : ℕ) × (j < fuel) × (serial_is_transmit_fifo_empty (status (k + j)) ≢ 0)

-- The bytes at `a`, the last one first, in front of what went out before.
abbrev pub sent : Memory → (a n : ℕ) → List (ℕ × ℕ) → List (ℕ × ℕ)
sent m a zero before = before
sent m a (suc n) before = sent m (a + 1) n ((com1_base, u8 (m a)) ∷ before)

serial_wait_lem :
    (fuel k j : ℕ) (status : ℕ → ℕ)
    → j < fuel
    → serial_is_transmit_fifo_empty (status (k + j)) ≢ 0
    → (next : ℕ) × (serial_wait fuel k status ≡ some next)
unfolding serial_wait
serial_wait_lem zero k j status h free = absurd (omega arith)
serial_wait_lem (suc fuel) k zero status h free =
    let at : k + 0 ≡ k = omega arith in
    let now : serial_is_transmit_fifo_empty (status k) ≢ 0 =
      λ e. free (ap (λ r. serial_is_transmit_fifo_empty (status r)) at ∙ e) in
    let go : (serial_is_transmit_fifo_empty (status k) == 0) ≡ false = ground (arith, now) in
    rw go (k + 1, refl)
serial_wait_lem (suc fuel) k (suc j) status h free =
    elim (ℕ_discrete (serial_is_transmit_fifo_empty (status k)) 0) [
      | no now ↦
          let go : (serial_is_transmit_fifo_empty (status k) == 0) ≡ false = ground (arith, now) in
          rw go (k + 1, refl)
      | yes busy ↦
          let stay : (serial_is_transmit_fifo_empty (status k) == 0) ≡ true =
            ground (arith, busy) in
          let at : k + suc j ≡ k + 1 + j = omega arith in
          rw stay (
            serial_wait_lem fuel (k + 1) j status (omega arith)
              (λ e. free (ap (λ r. serial_is_transmit_fifo_empty (status r)) at ∙ e)))
    ]

serial_send_lem :
    (fuel rounds i buf k : ℕ) (status : ℕ → ℕ) (m : Memory) (s : Ports)
    → Answers fuel status
    → (s' : Ports) × (serial_send fuel rounds i buf status (some k) m s ≡ some s')
      × (s'.writes ≡ sent m (buf + i) (suc rounds) s.writes)
unfolding serial_send outb
serial_send_lem fuel zero i buf k status m s answers = (_, refl, refl)
serial_send_lem fuel (suc rounds) i buf k status m s answers =
    let (j, small, free) = answers k in
    let (next, e) = serial_wait_lem fuel k j status small free in
    let (s', r, w) =
      serial_send_lem fuel rounds (i + 1) buf next status m (outb com1_base (m (buf + i)) s)
        answers in
    let at : buf + (i + 1) ≡ buf + i + 1 = omega arith in
    (
      s',
      ap (λ o. serial_send fuel rounds (i + 1) buf status o m (outb com1_base (m (buf + i)) s)) e
          ∙ r,
      w ∙ ap (λ a. sent m a (suc rounds) ((com1_base, u8 (m (buf + i))) ∷ s.writes)) at,
    )

-- Where the transmitter gets free again and again, `serial_write` ends: behind the set-up of the line
-- it sends every byte of the buffer, in order.
pub serial_write_lem :
    (fuel buf len : ℕ) (status : ℕ → ℕ) (m : Memory) (s : Ports)
    → Answers fuel status
    → (s' : Ports) × (serial_write fuel buf len status m s ≡ some s')
      × (s'.writes
          ≡ sent m buf len ((0x3FB, 3) ∷ (0x3F8, 3) ∷ (0x3F8, 0) ∷ (0x3FB, 0x80) ∷ s.writes))
unfolding serial_write serial_configure_baud_rate serial_configure_line outb
serial_write_lem fuel buf zero status m s answers = (_, refl, refl)
serial_write_lem fuel buf (suc rounds) status m s answers =
    let (j, small, free) = answers 0 in
    let (next, e) = serial_wait_lem fuel 0 j status small free in
    let start = serial_configure_line com1_base (serial_configure_baud_rate com1_base 3 s) in
    let (s', r, w) = serial_send_lem fuel rounds 0 buf next status m start answers in
    let at : buf + 0 ≡ buf = omega arith in
    (
      s',
      ap (λ o. serial_send fuel rounds 0 buf status o m start) e ∙ r,
      w ∙ ap (λ a. sent m a (suc rounds) start.writes) at,
    )
