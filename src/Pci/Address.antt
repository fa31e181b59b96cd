-- ===== src/Pci/Address.antt =====
-- The configuration address of a field, and the widths that `pci_init` sets.
use unos.Base.{ℕ, ◌*◌, ◌/◌, ◌%◌, ◌^◌, ◌<◌, ◌≡◌, arith, bit_and}
use unos.Base.Masks.{bit_and-shift, bit_and-ones}
use unos.Pci.{
  PciDev, dev_at, config_address, pci_init, pci_read, pci_vendor_id, pci_device_id, pci_class,
  pci_subclass, pci_header_type, pci_secondary_bus,
}

field-bits : (field : ℕ) → bit_and field 0xFC / 4 % 2 ^ 6 ≡ field / 4 % 2 ^ 6
field-bits field = omega (arith, bit_and-shift field 63 2, bit_and-ones (field / 2 ^ 2) 6)

-- The address of a field of a function can be taken apart again, so two functions or two words of
-- their spaces never share one.
pub config_address_fields :
    (bus device function field : ℕ)
    → bus < 256
    → device < 32
    → function < 8
    → field < 256
    → let a = config_address (dev_at bus device function) field in
      (a / 2 ^ 31 ≡ 1)
      × (a / 2 ^ 16 % 2 ^ 8 ≡ bus)
      × (a / 2 ^ 11 % 2 ^ 5 ≡ device)
      × (a / 2 ^ 8 % 2 ^ 3 ≡ function)
      × (a % 2 ^ 8 ≡ field / 4 * 4)
config_address_fields bus device function field hb hd hf hg =
    let f = field-bits field in
    (omega (arith, f), omega (arith, f), omega (arith, f), omega (arith, f), omega (arith, f))

module _ (config sizes : ℕ → ℕ) (dev : PciDev) where
  -- Once `pci_init` has run, the fields that the search reads are the documented parts of the words
  -- at offsets 0, 8 and 12; the bus behind a bridge is read from the second byte of the word at 8.
  pub pci_read-pci_init :
      let read = pci_read config (pci_init sizes) dev in
      (read pci_vendor_id ≡ config (config_address dev 0) % 2 ^ 16)
      × (read pci_device_id ≡ config (config_address dev 0) / 2 ^ 16 % 2 ^ 16)
      × (read pci_class ≡ config (config_address dev 8) / 2 ^ 24 % 2 ^ 8)
      × (read pci_subclass ≡ config (config_address dev 8) / 2 ^ 16 % 2 ^ 8)
      × (read pci_header_type ≡ config (config_address dev 12) / 2 ^ 16 % 2 ^ 8)
      × (read pci_secondary_bus ≡ config (config_address dev 8) / 2 ^ 8 % 2 ^ 8)
  unfolding pci_read pci_init
  pci_read-pci_init = (omega arith, omega arith, omega arith, omega arith, omega arith, omega arith)
