-- ===== src/Isr/Dispatch.antt =====
-- Which handler runs, and when the controllers are told.
use unos.Base.{
  update, inr, inl, false, Bool-cases, true, ℕ, ◌<◌, ◌≤◌, ◌≡◌, ◌≢◌, refl, arith, Option, none, some,
  ◌∷◌, leb, ltb, if◌then◌else◌, ◌==◌, u8, ap,
}
use unos.Ports.{Ports, outb}
use unos.Pic.{ack_irq}
use unos.Isr.{Isr, register_interrupt_handler, isr_handler, irq_handler, call_handler, run_handler}

-- The end-of-interrupt command goes to the second controller, for its vectors from 0x28 to 0x2f, and
-- then to the first one; for the vectors from 0x20 to 0x27 it goes to the first one alone.
abbrev pub acknowledged : ℕ → Ports → Ports
acknowledged n s = record s {
  writes = if leb 0x28 n then (0x20, 0x20) ∷ (0xa0, 0x20) ∷ s.writes else (0x20, 0x20) ∷ s.writes;
}

ack_irq_lem : (n : ℕ) (s : Ports) → ack_irq n s ≡ acknowledged n s
unfolding ack_irq outb
ack_irq_lem n s = elim (Bool-cases (leb 0x28 n)) [ inl t ↦ rw t refl | inr t ↦ rw t refl ]

run_handler-rest :
    {S : Type 0} (o : Option (ℕ → S → S)) (n : ℕ) (s s' : Isr S)
    → s.rest ≡ s'.rest
    → (run_handler o n s).rest ≡ (run_handler o n s').rest
unfolding run_handler
run_handler-rest none n s s' e = e
run_handler-rest (some h) n s s' e = ap (h n) e

abbrev registered : {S : Type 0} → ℕ → (ℕ → S → S) → Isr S → Isr S
registered n h s = record s { interrupt_handlers = update s.interrupt_handlers n (some h) }

register_lem :
    {S : Type 0} (n : ℕ) (h : ℕ → S → S) (s : Isr S)
    → n < 256
    → register_interrupt_handler n h s ≡ registered n h s
unfolding register_interrupt_handler
register_lem n h s small = let t : ltb n 256 ≡ true = ground arith in rw t refl

register_none :
    {S : Type 0} (n : ℕ) (h : ℕ → S → S) (s : Isr S)
    → 256 ≤ n
    → register_interrupt_handler n h s ≡ s
unfolding register_interrupt_handler
register_none n h s big = let t : ltb n 256 ≡ false = ground arith in rw t refl

-- A hardware interrupt `n` is acknowledged, and then the handler registered for it runs, once; after
-- a registration for another vector it is handled as before. A vector of 256 or more registers
-- nothing.
pub irq_handler-register :
    {S : Type 0} (n m : ℕ) (h : ℕ → S → S) (s : Isr S)
    → n < 256
    → let r = register_interrupt_handler n h s in
      (irq_handler n r ≡ record r { ports = acknowledged n s.ports; rest = h n s.rest })
      × (m ≢ n → (irq_handler m r).rest ≡ (irq_handler m s).rest)
      × (256 ≤ m → register_interrupt_handler m h s ≡ s)
unfolding irq_handler run_handler
irq_handler-register n m h s small =
    let e : (n == n) ≡ true = ground arith in
    let b : u8 n ≡ n = omega arith in
    let miss : m ≢ n → (m == n) ≡ false = λ ne. ground arith in
    rw (register_lem n h s small, e, b)
      (
        ap (λ p. record (registered n h s) { ports = p; rest = h n s.rest })
            (ack_irq_lem n s.ports),
        (λ ne. rw (miss ne) (
            run_handler-rest (s.interrupt_handlers m) m
              (record (registered n h s) { ports = ack_irq (u8 m) s.ports })
              (record s { ports = ack_irq (u8 m) s.ports }) refl)),
        λ big. register_none m h s big,
      )

-- An exception runs the handler registered for it; one with no handler stops the machine.
pub isr_handler-register :
    {S : Type 0} (n : ℕ) (h : ℕ → S → S) (s : Isr S)
    → n < 256
    → let r = register_interrupt_handler n h s in
      (isr_handler n r ≡ some (record r { rest = h n s.rest }))
      × (s.interrupt_handlers n ≡ none → isr_handler n s ≡ none)
unfolding register_interrupt_handler isr_handler call_handler
isr_handler-register n h s small =
    let t : ltb n 256 ≡ true = ground arith in
    let e : (n == n) ≡ true = ground arith in rw (t, e) (refl, λ no. rw no refl)
