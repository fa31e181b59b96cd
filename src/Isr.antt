-- ===== src/Isr.antt =====
-- kernel/isr.c: the table of handlers, and what an interrupt calls.
--
-- `S` is the rest of the kernel's state, on which the handlers act; a null pointer in the table is
-- `none`. `PANIC` stops the machine: the result is `none`. `int_no` is what the entry code in
-- assembly pushes, the vector's number.
pub mod Dispatch
use unos.Base.{ℕ, ◌<◌, Option, none, some, ltb, if◌then◌else◌, u8, update}
use unos.Ports.{Ports, outb}
use unos.Pic.{ack_irq}

pub record Isr (S : Type 0) : Type 0 where
  pub interrupt_handlers : ℕ → Option (ℕ → S → S)
  pub ports : Ports
  pub rest : S

module _ {S : Type 0} where
  pub register_interrupt_handler : ℕ → (ℕ → S → S) → Isr S → Isr S
  register_interrupt_handler n handler s =
      if ltb n 256
      then record s { interrupt_handlers = update s.interrupt_handlers n (some handler) }
      else s

  pub call_handler : Option (ℕ → S → S) → ℕ → Isr S → Option (Isr S)
  call_handler none int_no s = none
  call_handler (some handler) int_no s = some (record s { rest = handler int_no s.rest })

  pub isr_handler : ℕ → Isr S → Option (Isr S)
  unfolding call_handler
  isr_handler int_no s = call_handler (s.interrupt_handlers int_no) int_no s

  pub run_handler : Option (ℕ → S → S) → ℕ → Isr S → Isr S
  run_handler none int_no s = s
  run_handler (some handler) int_no s = record s { rest = handler int_no s.rest }

  pub irq_handler : ℕ → Isr S → Isr S
  unfolding ack_irq run_handler
  irq_handler int_no s =
      let s' = record s { ports = ack_irq (u8 int_no) s.ports } in
      run_handler (s'.interrupt_handlers int_no) int_no s'
