-- ===== src/Idt/Tests.antt =====
-- The gates where each routine has 16 bytes.
use unos.Base.{ℕ, ◌+◌, ◌*◌, ◌<◌, ◌^◌, ◌≡◌, false, none, some, [], arith}
use unos.Idt.{Idt, zero_entry}
use unos.Idt.Gates.{routine}

abbrev start : Idt
start = record {
  idt_entries = λ i. zero_entry;
  limit = 0;
  base = 0;
  loaded = none;
  interrupts = false;
  ports = record { writes = [] };
}

abbrev isr : ℕ → ℕ
isr n = 0x100000 + 16 * n

abbrev irq : ℕ → ℕ
irq n = 0x101000 + 16 * n

isr-small : (n a : ℕ) → routine isr irq n ≡ some a → a < 2 ^ 32
isr-small n a e = ground arith
