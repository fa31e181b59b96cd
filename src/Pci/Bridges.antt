-- ===== src/Pci/Bridges.antt =====
-- A search that finds nothing, and one that comes back to the bus that it began with.
use mathlib.Core.Path.{subst}
use unos.Base.{
  ℕ, zero, suc, ◌+◌, ◌<◌, ◌≤◌, ◌≡◌, ◌≢◌, ◌⊎◌, inl, inr, refl, arith, true, false, Option, none,
  some, ◌==◌, if◌then◌else◌, ap, sym, ◌∙◌,
}
use native.Mathlib.Decide.{ℕ_discrete}
use unos.Pci.{
  PciDev, bits, dev_zero, dev_at, pci_vendor_id, pci_none, pci_read, pci_type_bridge,
  get_secondary_bus, get_device_type, pci_reach_end, match_function, pci_scan_function,
  scan_functions, pci_scan_device, scan_devices, pci_scan_bus,
}
use unos.Pci.Found.{found_or-empty, Answers, Answers-match_function, OnBus, pci_scan_bus-OnBus}

module _ (config sizes : ℕ → ℕ) (vendor_id device_id device_type : ℕ) where
  scan_devices-empty :
      (scan : ℕ → Option PciDev) (bus : ℕ) (t : PciDev) (rounds from device : ℕ)
      → scan_devices config sizes vendor_id device_id device_type scan rounds bus from ≡ some t
      → bits t ≡ 0
      → from ≤ device
      → device < from + rounds
      → (x : PciDev) × (pci_scan_device config sizes vendor_id device_id device_type scan bus device
          ≡ some x)
        × (bits x ≡ 0)
  unfolding scan_devices
  scan_devices-empty scan bus t zero from device e z lo hi = absurd (omega arith)
  scan_devices-empty scan bus t (suc rounds) from device e z lo hi =
      let (first, later) = found_or-empty _ _ t e z in
      elim (ℕ_discrete from device) [
        | yes here ↦
            subst
              (λ d.
                (x : PciDev) × (pci_scan_device config sizes vendor_id device_id device_type scan
                    bus d
                  ≡ some x)
                × (bits x ≡ 0))
              here first
        | no other ↦
            scan_devices-empty scan bus t rounds (from + 1) device later z (omega arith)
              (omega arith)
      ]

  -- A device that is there, and of which nothing was found.
  scan_device-empty :
      (scan : ℕ → Option PciDev) (bus device : ℕ) (t : PciDev)
      → pci_scan_device config sizes vendor_id device_id device_type scan bus device ≡ some t
      → bits t ≡ 0
      → pci_read config sizes (dev_at bus device 0) pci_vendor_id ≢ pci_none
      → ((x : PciDev) × (pci_scan_function config sizes vendor_id device_id device_type scan bus
              device 0
            ≡ some x)
          × (bits x ≡ 0))
        × ((if pci_reach_end config sizes (dev_at bus device 0)
              then some dev_zero
              else scan_functions config sizes vendor_id device_id device_type scan 31 bus device 1)
            ≡ some t)
  unfolding pci_scan_device
  scan_device-empty scan bus device t e z present =
      let there : (pci_read config sizes (dev_at bus device 0) pci_vendor_id == pci_none) ≡ false =
        ground (arith, present) in
      found_or-empty _ _ t (rw there at e) z

  scan_function-empty :
      (scan : ℕ → Option PciDev) (bus device function : ℕ) (t : PciDev)
      → pci_scan_function config sizes vendor_id device_id device_type scan bus device function
        ≡ some t
      → bits t ≡ 0
      → Answers config sizes vendor_id device_id device_type (dev_at bus device function)
      → bits (dev_at bus device function) ≡ 0
  unfolding pci_scan_function
  scan_function-empty scan bus device function t e z a =
      ap bits (
        sym (
          Answers-match_function config sizes vendor_id device_id device_type
            (dev_at bus device function) t _ a e))
      ∙ z

  scan_functions-empty :
      (scan : ℕ → Option PciDev) (bus device : ℕ) (t : PciDev) (rounds from function : ℕ)
      → scan_functions config sizes vendor_id device_id device_type scan rounds bus device from
        ≡ some t
      → bits t ≡ 0
      → pci_read config sizes (dev_at bus device 0) pci_vendor_id ≢ pci_none
      → from ≤ function
      → function < from + rounds
      → Answers config sizes vendor_id device_id device_type (dev_at bus device function)
      → bits (dev_at bus device function) ≡ 0
  unfolding scan_functions
  scan_functions-empty scan bus device t zero from function e z present lo hi a =
      absurd (omega arith)
  scan_functions-empty scan bus device t (suc rounds) from function e z present lo hi a =
      let there : (pci_read config sizes (dev_at bus device 0) pci_vendor_id == pci_none) ≡ false =
        ground (arith, present) in
      let ((x, first, empty), later) = found_or-empty _ _ t (rw there at e) z in
      elim (ℕ_discrete from function) [
        | yes here ↦
            scan_function-empty scan bus device function x
              (subst
                (λ f.
                  pci_scan_function config sizes vendor_id device_id device_type scan bus device f
                  ≡ some x)
                here first)
              empty a
        | no other ↦
            scan_functions-empty scan bus device t rounds (from + 1) function later z present
              (omega arith) (omega arith) a
      ]

  -- A search of a bus that ends with nothing has missed nothing: of a device that is there neither
  -- function 0 nor, if its header says that it has more, another one answers. Only function 0 of
  -- device 0 on bus 0 may, since its number is 0, the sign for nothing.
  pub pci_scan_bus-absent :
      (fuel bus device function : ℕ) (t : PciDev)
      → pci_scan_bus config sizes vendor_id device_id device_type fuel bus ≡ some t
      → bits t ≡ 0
      → device < 32
      → function < 32
      → pci_read config sizes (dev_at bus device 0) pci_vendor_id ≢ pci_none
      → (function ≡ 0) ⊎ (pci_reach_end config sizes (dev_at bus device 0) ≡ false)
      → Answers config sizes vendor_id device_id device_type (dev_at bus device function)
      → bits (dev_at bus device function) ≡ 0
  unfolding pci_scan_bus
  pci_scan_bus-absent zero bus device function t e z hd hf present reach a = absurd cc
  pci_scan_bus-absent (suc fuel) bus device function t e z hd hf present reach a =
      let scan = pci_scan_bus config sizes vendor_id device_id device_type fuel in
      let (x, one, empty) =
        scan_devices-empty scan bus t 32 0 device e z (omega arith) (omega arith) in
      let ((y, first, none_there), later) = scan_device-empty scan bus device x one empty present in
      elim (ℕ_discrete function 0) [
        | yes here ↦
            subst
              (λ f.
                Answers config sizes vendor_id device_id device_type (dev_at bus device f)
                → bits (dev_at bus device f) ≡ 0)
              (sym here) (scan_function-empty scan bus device 0 y first none_there) a
        | no other ↦ elim reach [
          | inl here ↦ absurd (other here)
          | inr more ↦
              scan_functions-empty scan bus device x 31 1 function (rw more at later) empty present
                (omega arith) (omega arith) a
        ]
      ]

  scan_function-blocked :
      (scan : ℕ → Option PciDev) (bus device : ℕ)
      → get_device_type config sizes (dev_at bus device 0) ≡ pci_type_bridge
      → scan (get_secondary_bus config sizes (dev_at bus device 0)) ≡ none
      → pci_scan_function config sizes vendor_id device_id device_type scan bus device 0 ≡ none
  unfolding pci_scan_function match_function
  scan_function-blocked scan bus device bridge again =
      let is_bridge : (get_device_type config sizes (dev_at bus device 0) == pci_type_bridge)
          ≡ true =
        ground (arith, bridge) in
      rw (is_bridge, again) refl

  scan_bus-blocked :
      (fuel bus device : ℕ) (o : Option PciDev)
      → pci_scan_bus config sizes vendor_id device_id device_type (suc fuel) bus ≡ o
      → device < 32
      → pci_read config sizes (dev_at bus device 0) pci_vendor_id ≢ pci_none
      → pci_scan_function config sizes vendor_id device_id device_type
          (pci_scan_bus config sizes vendor_id device_id device_type fuel)
          bus
          device
          0
        ≡ none
      → ((t : PciDev) → ¬ OnBus config sizes vendor_id device_id device_type bus t)
      → o ≡ none
  unfolding pci_scan_bus
  scan_bus-blocked fuel bus device none e hd present blocked nobody = refl
  scan_bus-blocked fuel bus device (some t) e hd present blocked nobody =
      let scan = pci_scan_bus config sizes vendor_id device_id device_type fuel in
      elim (ℕ_discrete (bits t) 0) [
        | no full ↦ absurd (
            nobody t (
              pci_scan_bus-OnBus config sizes vendor_id device_id device_type (suc fuel) bus t e
                full))
        | yes z ↦
            let (x, one, empty) =
              scan_devices-empty scan bus t 32 0 device e z (omega arith) (omega arith) in
            let ((y, first, none_there), later) =
              scan_device-empty scan bus device x one empty present in
            let clash : none ≡ some y = sym blocked ∙ first in absurd cc
      ]

  -- Where the byte that is read for the bus behind a bridge names the bridge's own bus, a search
  -- for a device that is not there does not end, whatever the fuel.
  pub pci_scan_bus-loop :
      (fuel bus device : ℕ)
      → device < 32
      → pci_read config sizes (dev_at bus device 0) pci_vendor_id ≢ pci_none
      → get_device_type config sizes (dev_at bus device 0) ≡ pci_type_bridge
      → get_secondary_bus config sizes (dev_at bus device 0) ≡ bus
      → ((t : PciDev) → ¬ OnBus config sizes vendor_id device_id device_type bus t)
      → pci_scan_bus config sizes vendor_id device_id device_type fuel bus ≡ none
  unfolding pci_scan_bus
  pci_scan_bus-loop zero bus device hd present bridge same nobody = refl
  pci_scan_bus-loop (suc fuel) bus device hd present bridge same nobody =
      let scan = pci_scan_bus config sizes vendor_id device_id device_type fuel in
      let again = pci_scan_bus-loop fuel bus device hd present bridge same nobody in
      scan_bus-blocked fuel bus device _ refl hd present
        (scan_function-blocked scan bus device bridge (ap scan same ∙ again)) nobody
