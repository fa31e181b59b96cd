-- ===== src/Pci/Tests.antt =====
-- A bus with a network card, and a bus with a bridge.
use unos.Base.{ℕ, ◌-◌, ◌/◌, ◌%◌, ◌^◌, ◌≡◌, ◌≢◌, inl, refl, arith, some, none, ◌==◌, if◌then◌else◌}
use unos.Pci.{
  PciDev, bits, dev_zero, dev_at, pci_vendor_id, pci_device_id, found_or, pci_read, get_device_type,
  get_secondary_bus, pci_reach_end, match_function, pci_scan_function, scan_functions,
  pci_scan_device, scan_devices, pci_scan_bus, pci_init,
}
use unos.Pci.Samples.{card, sizes}
use unos.Pci.Found.{OnBus, pci_scan_bus-OnBus}
use unos.Pci.Bridges.{pci_scan_bus-loop, pci_scan_bus-absent}
use unos.Pci.Address.{pci_read-pci_init}

card-found : pci_scan_bus card sizes 0x10ec 0x8139 (2 ^ 32 - 1) 1 0 ≡ some (dev_at 0 1 0)
unfolding pci_scan_bus scan_devices pci_scan_device scan_functions pci_scan_function match_function
    found_or pci_reach_end get_device_type get_secondary_bus pci_read pci_init
card-found = refl

pci_scan_bus-OnBus_example : OnBus card sizes 0x10ec 0x8139 (2 ^ 32 - 1) 0 (dev_at 0 1 0)
pci_scan_bus-OnBus_example =
    pci_scan_bus-OnBus card sizes 0x10ec 0x8139 (2 ^ 32 - 1) 1 0 (dev_at 0 1 0) card-found
      (omega arith)

-- the card at the number that stands for nothing
abbrev card_at_zero : ℕ → ℕ
card_at_zero a =
    if a / 2 ^ 11 % 2 ^ 13 == 0
    then (if a % 2 ^ 11 == 0 then 0x813910ec else if a % 2 ^ 11 == 8 then 0x02000000 else 0)
    else 0xffff_ffff

zero-missed : pci_scan_bus card_at_zero sizes 0x10ec 0x8139 (2 ^ 32 - 1) 1 0 ≡ some dev_zero
unfolding pci_scan_bus scan_devices pci_scan_device scan_functions pci_scan_function match_function
    found_or pci_reach_end get_device_type get_secondary_bus pci_read pci_init
zero-missed = refl

zero-read : pci_read card_at_zero sizes (dev_at 0 0 0) pci_vendor_id ≡ 0x10ec
unfolding pci_read pci_init
zero-read = refl

zero-id : pci_read card_at_zero sizes (dev_at 0 0 0) pci_device_id ≡ 0x8139
unfolding pci_read pci_init
zero-id = refl

pci_scan_bus-absent_example : bits (dev_at 0 0 0) ≡ 0
pci_scan_bus-absent_example =
    pci_scan_bus-absent card_at_zero sizes 0x10ec 0x8139 (2 ^ 32 - 1) 1 0 0 0 dev_zero zero-missed
      (omega arith) (omega arith) (omega arith) (omega (arith, zero-read)) (inl refl)
      (record { vendor = zero-read; device = zero-id; kind = inl refl })

-- device 1 of bus 0 is a bridge, whose byte at offset 9, its programming interface, is 0
abbrev bridge : ℕ → ℕ
bridge a =
    if a / 2 ^ 11 % 2 ^ 13 == 1
    then (if a % 2 ^ 11 == 0
        then 0x12378086
        else if a % 2 ^ 11 == 8
        then 0x06040000
        else 0x00010000)
    else 0xffff_ffff

bridge-vendor : pci_read bridge sizes (dev_at 0 1 0) pci_vendor_id ≡ 0x8086
unfolding pci_read pci_init
bridge-vendor = refl

bridge-type : get_device_type bridge sizes (dev_at 0 1 0) ≡ 0x0604
unfolding get_device_type pci_read pci_init
bridge-type = refl

bridge-bus : get_secondary_bus bridge sizes (dev_at 0 1 0) ≡ 0
unfolding get_secondary_bus pci_read pci_init
bridge-bus = refl

no_card : (dev : PciDev) → pci_read bridge sizes dev pci_vendor_id ≢ 0x10ec
no_card dev = λ e. ground (arith, (pci_read-pci_init bridge (λ j. 0) dev).0, e)

pci_scan_bus-loop_example : pci_scan_bus bridge sizes 0x10ec 0x8139 (2 ^ 32 - 1) 7 0 ≡ none
pci_scan_bus-loop_example =
    pci_scan_bus-loop bridge sizes 0x10ec 0x8139 (2 ^ 32 - 1) 7 0 1 (omega arith)
      (omega (arith, bridge-vendor)) bridge-type bridge-bus (λ t on. no_card t on.answers.vendor)
