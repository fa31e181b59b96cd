-- ===== src/Pci.antt =====
-- kernel/drivers/pci.c: the configuration space of the PCI bus, and the search for a device.
--
-- `config` is what the machine answers: the 32 bits at a configuration address, of which
-- CONFIG_DATA shows one byte, one half or all, the lowest byte at the lowest port. `sizes` is the
-- table `pci_size_map`. A search follows the bridges on fuel: `none` is running out of it.
pub mod Address
pub mod Found
pub mod Bridges
pub mod Samples
mod Tests
use unos.Base.{
  ◌-◌, ℕ, zero, suc, ◌+◌, ◌*◌, ◌/◌, ◌%◌, ◌^◌, Bool, ◌&&◌, ◌||◌, Option, none, some, bit_and, bit_or,
  shl, ◌==◌, if◌then◌else◌, update,
}
use unos.Ports.{Ports, outl}

pub record PciDev : Type 0 where
  pub field_num : ℕ
  pub function_num : ℕ
  pub device_num : ℕ
  pub bus_num : ℕ
  pub enable : ℕ

-- the union's other member; `always_zero` and `reserved` are 0 throughout
abbrev pub bits : PciDev → ℕ
bits d =
    d.field_num * 4
    + d.function_num * 256
    + d.device_num * 2048
    + d.bus_num * 65536
    + d.enable * 2 ^ 31

abbrev pub dev_zero : PciDev
dev_zero = record { field_num = 0; function_num = 0; device_num = 0; bus_num = 0; enable = 0 }

-- the bit fields cut what is assigned to them
abbrev pub dev_at : (bus device function : ℕ) → PciDev
dev_at bus device function = record dev_zero {
  bus_num = bus % 2 ^ 8;
  device_num = device % 2 ^ 5;
  function_num = function % 2 ^ 3;
}

abbrev pub config_address : PciDev → (field : ℕ) → ℕ
config_address dev field =
    bits (record dev { field_num = bit_and field 0xFC / 4 % 2 ^ 6; enable = 1 })

abbrev pub pci_vendor_id : ℕ
pci_vendor_id = 0x00

abbrev pub pci_device_id : ℕ
pci_device_id = 0x02

abbrev pub pci_subclass : ℕ
pci_subclass = 0x0a

abbrev pub pci_class : ℕ
pci_class = 0x0b

abbrev pub pci_header_type : ℕ
pci_header_type = 0x0e

abbrev pub pci_secondary_bus : ℕ
pci_secondary_bus = 0x09

abbrev pub pci_type_bridge : ℕ
pci_type_bridge = 0x0604

abbrev pub pci_none : ℕ
pci_none = 0xFFFF

-- `pci_init`: the table's entries that it sets
pub pci_init : (ℕ → ℕ) → ℕ → ℕ
pci_init sizes =
    let s1 =
      update (update (update (update sizes pci_vendor_id 2) pci_device_id 2) 0x04 2) 0x06 2 in
    let s2 = update (update (update (update s1 pci_subclass 1) pci_class 1) 0x0c 1) 0x0d 1 in
    let s3 = update (update (update (update s2 pci_header_type 1) 0x0f 1) 0x10 4) 0x14 4 in
    let s4 = update (update (update (update s3 0x18 4) 0x1C 4) 0x20 4) 0x24 4 in
    update (update (update s4 0x3C 1) 0x3D 1) pci_secondary_bus 1

pub pci_write : PciDev → (field value : ℕ) → Ports → Ports
unfolding outl
pci_write dev field value s = outl 0xCFC value (outl 0xCF8 (config_address dev field) s)

-- a search that goes on only while nothing is found
pub found_or : Option PciDev → Option PciDev → Option PciDev
found_or none rest = none
found_or (some t) rest = if bits t == 0 then rest else some t

module _ (config sizes : ℕ → ℕ) where
  pub pci_read : PciDev → (field : ℕ) → ℕ
  pci_read dev field =
      let dword = config (config_address dev field) in
      let size = sizes field in
      if size == 1
      then dword / 2 ^ (8 * bit_and field 3) % 2 ^ 8
      else if size == 2
      then dword / 2 ^ (8 * bit_and field 2) % 2 ^ 16
      else if size == 4
      then dword % 2 ^ 32
      else 0xffff

  pub get_device_type : PciDev → ℕ
  unfolding pci_read
  get_device_type dev = bit_or (shl (pci_read dev pci_class) 8) (pci_read dev pci_subclass)

  pub get_secondary_bus : PciDev → ℕ
  unfolding pci_read
  get_secondary_bus dev = pci_read dev pci_secondary_bus

  pub pci_reach_end : PciDev → Bool
  unfolding pci_read
  pci_reach_end dev = pci_read dev pci_header_type == 0

  -- `device_type` is an `int`, -1 for any type
  module _ (vendor_id device_id device_type : ℕ) where
    -- the end of `pci_scan_function`, when the search behind a bridge is back
    pub match_function : PciDev → Option PciDev → Option PciDev
    match_function dev none = none
    match_function dev (some t) =
        if (device_type == 2 ^ 32 - 1) || (device_type == get_device_type dev)
        then (if (pci_read dev pci_device_id == device_id)
              && (vendor_id == pci_read dev pci_vendor_id)
            then some dev
            else some dev_zero)
        else some dev_zero

    -- `scan` is `pci_scan_bus`
    pub pci_scan_function : (scan : ℕ → Option PciDev) (bus device function : ℕ) → Option PciDev
    pci_scan_function scan bus device function =
        let dev = dev_at bus device function in
        match_function dev (
          if get_device_type dev == pci_type_bridge
          then scan (get_secondary_bus dev)
          else some dev_zero)

    -- the loop over the functions from `function` on, with `rounds` left
    pub scan_functions : (scan : ℕ → Option PciDev) (rounds bus device function : ℕ) → Option PciDev
    scan_functions scan zero bus device function = some dev_zero
    scan_functions scan (suc rounds) bus device function =
        let rest = scan_functions scan rounds bus device (function + 1) in
        if pci_read (dev_at bus device 0) pci_vendor_id == pci_none
        then rest
        else found_or (pci_scan_function scan bus device function) rest

    pub pci_scan_device : (scan : ℕ → Option PciDev) (bus device : ℕ) → Option PciDev
    pci_scan_device scan bus device =
        let dev = dev_at bus device 0 in
        if pci_read dev pci_vendor_id == pci_none
        then some dev_zero
        else found_or (pci_scan_function scan bus device 0)
            (if pci_reach_end dev then some dev_zero else scan_functions scan 31 bus device 1)

    -- the loop over the devices from `device` on, with `rounds` left
    pub scan_devices : (scan : ℕ → Option PciDev) (rounds bus device : ℕ) → Option PciDev
    scan_devices scan zero bus device = some dev_zero
    scan_devices scan (suc rounds) bus device =
        found_or (pci_scan_device scan bus device) (scan_devices scan rounds bus (device + 1))

    pub pci_scan_bus : (fuel bus : ℕ) → Option PciDev
    pci_scan_bus zero bus = none
    pci_scan_bus (suc fuel) bus = scan_devices (pci_scan_bus fuel) 32 bus 0

    -- the loop of `pci_get_device` over the host controllers
    pub scan_hosts : (fuel rounds function : ℕ) → Option PciDev
    scan_hosts fuel zero function = some dev_zero
    scan_hosts fuel (suc rounds) function =
        let rest = scan_hosts fuel rounds (function + 1) in
        if pci_read (dev_at 0 0 function) pci_vendor_id == pci_none
        then some dev_zero
        else found_or (pci_scan_bus fuel function) rest

    pub pci_get_device : (fuel : ℕ) → Option PciDev
    pci_get_device fuel = found_or (pci_scan_bus fuel 0) (scan_hosts fuel 31 1)
