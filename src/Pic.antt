-- ===== src/Pic.antt =====
-- kernel/drivers/pic.c: the interrupt controllers.
pub mod Masks
mod Tests
use unos.Base.{ℕ, ◌+◌, ◌-◌, ◌^◌, bit_and, bit_or, not32, u8, ltb, leb, if◌then◌else◌}
use unos.Ports.{Ports, outb}

abbrev pub pic1 : ℕ
pic1 = 0x20

abbrev pub pic2 : ℕ
pic2 = 0xa0

abbrev pub pic1_command : ℕ
pic1_command = pic1

abbrev pub pic1_data : ℕ
pic1_data = pic1 + 1

abbrev pub pic2_command : ℕ
pic2_command = pic2

abbrev pub pic2_data : ℕ
pic2_data = pic2 + 1

abbrev pub pic_eoi : ℕ
pic_eoi = 0x20

abbrev pub icw1_icw4 : ℕ
icw1_icw4 = 1

abbrev pub icw1_init : ℕ
icw1_init = 0x10

abbrev pub icw4_8086 : ℕ
icw4_8086 = 1

-- `io_wait` does nothing.
unfoldable pub pic_init : (offset1 offset2 : ℕ) → Ports → Ports
unfolding outb
pic_init offset1 offset2 s =
    let s1 = outb pic1_command (icw1_init + icw1_icw4) s in
    let s2 = outb pic2_command (icw1_init + icw1_icw4) s1 in
    let s3 = outb pic1_data offset1 s2 in
    let s4 = outb pic2_data offset2 s3 in
    let s5 = outb pic1_data 4 s4 in
    let s6 = outb pic2_data 2 s5 in
    let s7 = outb pic1_data icw4_8086 s6 in
    let s8 = outb pic2_data icw4_8086 s7 in let s9 = outb pic1_data 0 s8 in outb pic2_data 0 s9

unfoldable pub ack_irq : ℕ → Ports → Ports
unfolding outb
ack_irq irq s = let s' = if leb 0x28 irq then outb pic2 pic_eoi s else s in outb pic1 pic_eoi s'

-- the port and the number of a line at its controller, from 0 to 7 for lines 0 to 15
pub line_port : ℕ → ℕ
line_port irq_port = if ltb irq_port 8 then pic1_data else pic2_data

pub line_number : ℕ → ℕ
line_number irq_port = if ltb irq_port 8 then irq_port else irq_port - 8

pub enable_irq : (inb : ℕ → ℕ) (irq_port : ℕ) → Ports → Ports
unfolding outb line_port line_number
enable_irq inb irq_port s =
    let value = u8 (bit_and (inb (line_port irq_port)) (not32 (2 ^ line_number irq_port))) in
    outb (line_port irq_port) value s

pub disable_irq : (inb : ℕ → ℕ) (irq_port : ℕ) → Ports → Ports
unfolding outb line_port line_number
disable_irq inb irq_port s =
    let value = u8 (bit_or (inb (line_port irq_port)) (2 ^ line_number irq_port)) in
    outb (line_port irq_port) value s
