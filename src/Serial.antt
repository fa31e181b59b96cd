-- ===== src/Serial.antt =====
-- kernel/drivers/serial.c: the serial port.
--
-- `status` is what the line status port answers, by the number of the read. The wait for the
-- transmitter runs on fuel: `none` is running out of it.
pub mod Sent
mod Tests
use unos.Base.{ℕ, zero, suc, ◌+◌, ◌^◌, Option, none, some, bit_and, shr, ◌==◌, if◌then◌else◌}
use unos.Memory.{Memory}
use unos.Ports.{Ports, outb}

abbrev pub com1_base : ℕ
com1_base = 0x3F8

abbrev pub line_command_port : ℕ → ℕ
line_command_port base = base + 3

abbrev pub line_enable_dlab : ℕ
line_enable_dlab = 0x80

-- the data port is the base itself
unfoldable pub serial_configure_baud_rate : (base divisor : ℕ) → Ports → Ports
unfolding outb
serial_configure_baud_rate base divisor s =
    outb base (bit_and divisor 0x00ff) (
      outb base (bit_and (shr divisor 8) 0x00ff) (outb (line_command_port base) line_enable_dlab s))

pub serial_configure_line : (base : ℕ) → Ports → Ports
unfolding outb
serial_configure_line base s = outb (line_command_port base) 0x03 s

abbrev pub serial_is_transmit_fifo_empty : (answer : ℕ) → ℕ
serial_is_transmit_fifo_empty answer = bit_and answer 0x20

-- the wait from read `k` on: the number of the next read
pub serial_wait : (fuel k : ℕ) (status : ℕ → ℕ) → Option ℕ
serial_wait zero k status = none
serial_wait (suc fuel) k status =
    let rest = serial_wait fuel (k + 1) status in
    if serial_is_transmit_fifo_empty (status k) == 0 then rest else some (k + 1)

-- the loop over the bytes from `i` on, with `rounds` left; `next` is the wait before the first one
pub serial_send :
    (fuel rounds i buf : ℕ) (status : ℕ → ℕ) (next : Option ℕ) → Memory → Ports → Option Ports
unfolding serial_wait outb
serial_send fuel rounds i buf status none m s = none
serial_send fuel zero i buf status (some k) m s = some (outb com1_base (m (buf + i)) s)
serial_send fuel (suc rounds) i buf status (some k) m s =
    serial_send fuel rounds (i + 1) buf status (serial_wait fuel k status) m
      (outb com1_base (m (buf + i)) s)

-- `len` is not negative
pub serial_write : (fuel buf len : ℕ) (status : ℕ → ℕ) → Memory → Ports → Option Ports
unfolding serial_send serial_wait serial_configure_baud_rate serial_configure_line
serial_write fuel buf zero status m s =
    some (serial_configure_line com1_base (serial_configure_baud_rate com1_base 3 s))
serial_write fuel buf (suc rounds) status m s =
    serial_send fuel rounds 0 buf status (serial_wait fuel 0 status) m
      (serial_configure_line com1_base (serial_configure_baud_rate com1_base 3 s))
