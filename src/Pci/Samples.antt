-- ===== src/Pci/Samples.antt =====
-- A bus with a network card, and the search that finds it.
use unos.Base.{ℕ, ◌-◌, ◌/◌, ◌%◌, ◌^◌, ◌≡◌, refl, some, ◌==◌, if◌then◌else◌}
use unos.Pci.{
  dev_at, found_or, pci_read, get_device_type, get_secondary_bus, pci_reach_end, match_function,
  pci_scan_function, scan_functions, pci_scan_device, scan_devices, pci_scan_bus, pci_get_device,
  pci_init,
}

-- the card is device 1 of bus 0
abbrev pub card : ℕ → ℕ
card a =
    if a / 2 ^ 11 % 2 ^ 13 == 1
    then (if a % 2 ^ 11 == 0 then 0x813910ec else if a % 2 ^ 11 == 8 then 0x02000000 else 0)
    else 0xffff_ffff

abbrev pub sizes : ℕ → ℕ
sizes = pci_init (λ j. 0)

pub card-get : pci_get_device card sizes 0x10ec 0x8139 (2 ^ 32 - 1) 3 ≡ some (dev_at 0 1 0)
unfolding pci_get_device pci_scan_bus scan_devices pci_scan_device scan_functions pci_scan_function
    match_function found_or pci_reach_end get_device_type get_secondary_bus pci_read pci_init
card-get = refl
