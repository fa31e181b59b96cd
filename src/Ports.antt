-- ===== src/Ports.antt =====
-- The machine's I/O ports, kernel/drivers/io.c: what is written to them, the last one first. What a
-- port answers is an argument of the code that reads it.
use unos.Base.{ℕ, List, ◌∷◌, u8, u16, u32}

pub record Ports : Type 0 where
  pub writes : List (ℕ × ℕ)

unfoldable pub outb : (port value : ℕ) → Ports → Ports
outb port value s = record s { writes = (u16 port, u8 value) ∷ s.writes }

unfoldable pub outw : (port value : ℕ) → Ports → Ports
outw port value s = record s { writes = (u16 port, u16 value) ∷ s.writes }

unfoldable pub outl : (port value : ℕ) → Ports → Ports
outl port value s = record s { writes = (u16 port, u32 value) ∷ s.writes }
