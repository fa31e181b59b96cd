-- ===== src/Idt.antt =====
-- kernel/idt.c and the types of includes/kernel/idt.h: the table of interrupt gates.
--
-- The entry points `isr0` to `isr31`, `isr128` and `irq0` to `irq15` are in assembly: their addresses
-- are arguments, by number, as is the address of the table. `idt_flush` loads the register from
-- `idt_ptr`, which the field `loaded` records; the field `interrupts` is the processor's interrupt
-- flag, which `sti` sets and `are_interrupts_enabled` reads. `PANIC` is `none`.
pub mod Gates
mod Tests
use unos.Base.{
  ℕ, ◌+◌, ◌-◌, ◌*◌, ◌/◌, ◌%◌, ◌^◌, Bool, true, false, Option, none, some, List, [], ◌∷◌, bit_and,
  u8, update, if◌then◌else◌,
}
use unos.Ports.{Ports}
use unos.Pic.{pic_init}

pub record IdtFlags : Type 0 where
  pub gate_type : ℕ
  pub d : ℕ
  pub zero_bit : ℕ
  pub dpl : ℕ
  pub p : ℕ

pub record IdtEntry : Type 0 where
  pub base_low : ℕ
  pub segment_selector : ℕ
  pub reserved : ℕ
  pub flags : IdtFlags
  pub base_high : ℕ

pub record Idt : Type 0 where
  pub idt_entries : ℕ → IdtEntry
  pub limit : ℕ
  pub base : ℕ
  pub loaded : Option (ℕ × ℕ)
  pub interrupts : Bool
  pub ports : Ports

abbrev pub idt_selector : ℕ
idt_selector = 8

abbrev pub gate_type_interrupt : ℕ
gate_type_interrupt = 6

-- `sizeof(idt_entry_t)`
abbrev pub sizeof_idt_entry : ℕ
sizeof_idt_entry = 8

-- the table after the `memset`
abbrev pub zero_entry : IdtEntry
zero_entry = record {
  base_low = 0;
  segment_selector = 0;
  reserved = 0;
  flags = record { gate_type = 0; d = 0; zero_bit = 0; dpl = 0; p = 0 };
  base_high = 0;
}

-- `flags` and `syscall_flags` are alike
abbrev pub gate_flags : IdtFlags
gate_flags = record { gate_type = gate_type_interrupt; d = 1; zero_bit = 0; dpl = 3; p = 1 }

unfoldable pub idt_set_gate : (idx base selector : ℕ) → IdtFlags → Idt → Idt
idt_set_gate idx base selector flags s = record s {
  idt_entries = update s.idt_entries (u8 idx) (record {
    base_low = bit_and base 0xffff;
    segment_selector = selector;
    reserved = 0;
    flags = flags;
    base_high = bit_and (base / 2 ^ 16) 0xffff;
  });
}

-- the calls of `idt_set_gate` in their order
pub set_gates : List (ℕ × ℕ) → Idt → Idt
unfolding idt_set_gate
set_gates [] s = s
set_gates (g ∷ gs) s = set_gates gs (idt_set_gate g.0 g.1 idt_selector gate_flags s)

abbrev pub gates : (isr irq : ℕ → ℕ) → List (ℕ × ℕ)
gates isr irq =
    (0, isr 0)
    ∷ (1, isr 1)
    ∷ (2, isr 2)
    ∷ (3, isr 3)
    ∷ (4, isr 4)
    ∷ (5, isr 5)
    ∷ (6, isr 6)
    ∷ (7, isr 7)
    ∷ (8, isr 8)
    ∷ (9, isr 9)
    ∷ (10, isr 10)
    ∷ (11, isr 11)
    ∷ (12, isr 12)
    ∷ (13, isr 13)
    ∷ (14, isr 14)
    ∷ (15, isr 15)
    ∷ (16, isr 16)
    ∷ (17, isr 17)
    ∷ (18, isr 18)
    ∷ (19, isr 19)
    ∷ (20, isr 20)
    ∷ (21, isr 21)
    ∷ (22, isr 22)
    ∷ (23, isr 23)
    ∷ (24, isr 24)
    ∷ (25, isr 25)
    ∷ (26, isr 26)
    ∷ (27, isr 27)
    ∷ (28, isr 28)
    ∷ (29, isr 29)
    ∷ (30, isr 30)
    ∷ (31, isr 31)
    ∷ (32, irq 0)
    ∷ (33, irq 1)
    ∷ (34, irq 2)
    ∷ (35, irq 3)
    ∷ (36, irq 4)
    ∷ (37, irq 5)
    ∷ (38, irq 6)
    ∷ (39, irq 7)
    ∷ (40, irq 8)
    ∷ (41, irq 9)
    ∷ (42, irq 10)
    ∷ (43, irq 11)
    ∷ (44, irq 12)
    ∷ (45, irq 13)
    ∷ (46, irq 14)
    ∷ (47, irq 15)
    ∷ (128, isr 128)
    ∷ []

pub idt_flush : Idt → Idt
idt_flush s = record s { loaded = some (s.limit, s.base) }

pub are_interrupts_enabled : Idt → Bool
are_interrupts_enabled s = s.interrupts

pub init_idt : (isr irq : ℕ → ℕ) (table : ℕ) → Idt → Option Idt
unfolding set_gates idt_flush are_interrupts_enabled
init_idt isr irq table s =
    let s1 = record s {
      limit = sizeof_idt_entry * 256 - 1;
      base = table;
      idt_entries = λ i. zero_entry;
    } in
    let s2 = record s1 { ports = pic_init 0x20 0x28 s1.ports } in
    let s3 = idt_flush (set_gates (gates isr irq) s2) in
    let s4 = record s3 { interrupts = true } in if are_interrupts_enabled s4 then some s4 else none
