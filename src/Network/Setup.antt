-- ===== src/Network/Setup.antt =====
-- `rtl8139_init`: the card's registers, its buffer and its interrupt.
--
-- What the machine answers are arguments: the configuration space and `sizes` for the PCI bus, `answer`
-- for the reset by the number of the read, `inb` for the controllers, and the two parts of the card's
-- address. The search of the bus and the wait for the reset run on fuel: `none` is running out of it. The
-- vector is below 128 and the line it is taken from below 8, where C defines the shift in `enable_irq`.
pub mod Ready
use unos.Base.{
  ℕ, zero, suc, ◌+◌, ◌-◌, ◌^◌, Option, none, some, bit_and, bit_or, ◌==◌, if◌then◌else◌, u8, u16,
}
use unos.Strings.{memset}
use unos.Malloc.{malloc}
use unos.Ports.{outb, outw, outl}
use unos.Pci.{PciDev, pci_read, pci_write, pci_get_device}
use unos.Pic.{enable_irq}
use unos.Network.{Nic, after_malloc, phys, read_mac_addr}

abbrev pub rtl8139_vendor_id : ℕ
rtl8139_vendor_id = 0x10EC

abbrev pub rtl8139_device_id : ℕ
rtl8139_device_id = 0x8139

abbrev pub pci_command : ℕ
pci_command = 0x04

abbrev pub pci_bar0 : ℕ
pci_bar0 = 0x10

abbrev pub pci_interrupt_line : ℕ
pci_interrupt_line = 0x3C

abbrev pub rx_buffer_size : ℕ
rx_buffer_size = 8192 + 16 + 1500

-- the wait for the reset from read `k` on: the number of the next read
unfoldable pub wait_reset : (fuel k : ℕ) (answer : ℕ → ℕ) → Option ℕ
wait_reset zero k answer = none
wait_reset (suc fuel) k answer =
    let rest = wait_reset fuel (k + 1) answer in
    if bit_and (answer k) 0x10 == 0 then some (k + 1) else rest

-- the buffer, and the registers that start the card
pub start_card : (rx_buffer : ℕ) → Nic → Nic
unfolding outb outw outl
start_card rx_buffer s =
    let s1 = record s {
      rx_buffer = rx_buffer;
      mm = record s.mm { memory = memset rx_buffer 0x0 rx_buffer_size s.mm.memory };
    } in
    let p1 = outl (s.io_base + 0x30) (phys rx_buffer s1) s.ports in
    let p2 = outw (s.io_base + 0x3C) 0x0005 p1 in
    let p3 = outl (s.io_base + 0x44) (bit_or 0xf (2 ^ 7)) p2 in
    record s1 { ports = outb (s.io_base + 0x37) 0x0C p3 }

-- the power and the reset
pub reset_card : Nic → Nic
unfolding outb
reset_card s = record s {
  ports = outb (s.io_base + 0x37) 0x10 (outb (s.io_base + 0x52) 0x0 s.ports);
}

module _ (config sizes : ℕ → ℕ) where
  pub set_bases : PciDev → Nic → Nic
  set_bases dev s =
      let ret = pci_read config sizes dev pci_bar0 in
      record s {
        bar_type = bit_and ret 0x1;
        io_base = u16 (bit_and ret 0xffff_fffc);
        mem_base = bit_and ret 0xffff_fff0;
        tx_cur = 0;
      }

  pub enable_bus_mastering : PciDev → Nic → Nic
  enable_bus_mastering dev s =
      let pci_command_reg = pci_read config sizes dev pci_command in
      record s {
        ports =
            if bit_and pci_command_reg 4 == 0
            then pci_write dev pci_command (bit_or pci_command_reg 4) s.ports
            else s.ports;
      }

  -- with the device and after the reset
  pub init_card : (dev : PciDev) (inb : ℕ → ℕ) (mac_part1 mac_part2 : ℕ) → Nic → Option Nic
  unfolding start_card after_malloc
  init_card dev inb mac_part1 mac_part2 s =
      let irq_port = u8 (32 + pci_read config sizes dev pci_interrupt_line) in
      after_malloc (malloc rx_buffer_size s.mm) (λ rx_buffer mm.
        let s1 = start_card rx_buffer (record s { mm = mm }) in
        some (
          read_mac_addr mac_part1 mac_part2
            (record s1 { ports = enable_irq inb irq_port s1.ports })))

  pub after_reset :
      (dev : PciDev) (inb : ℕ → ℕ) (mac_part1 mac_part2 : ℕ) → Option ℕ → Nic → Option Nic
  unfolding init_card
  after_reset dev inb mac_part1 mac_part2 none s = none
  after_reset dev inb mac_part1 mac_part2 (some reads) s = init_card dev inb mac_part1 mac_part2 s

  pub with_device :
      (fuel : ℕ) (answer inb : ℕ → ℕ) (mac_part1 mac_part2 : ℕ) → Option PciDev → Nic → Option Nic
  unfolding after_reset wait_reset
  with_device fuel answer inb mac_part1 mac_part2 none s = none
  with_device fuel answer inb mac_part1 mac_part2 (some dev) s =
      after_reset dev inb mac_part1 mac_part2 (wait_reset fuel 0 answer)
        (reset_card (enable_bus_mastering dev (set_bases dev s)))

  -- The state; the handler is registered for the vector that `enable_irq` is given.
  pub rtl8139_init : (fuel : ℕ) (answer inb : ℕ → ℕ) (mac_part1 mac_part2 : ℕ) → Nic → Option Nic
  unfolding with_device
  rtl8139_init fuel answer inb mac_part1 mac_part2 s =
      with_device fuel answer inb mac_part1 mac_part2
        (pci_get_device config sizes rtl8139_vendor_id rtl8139_device_id (2 ^ 32 - 1) fuel) s
