-- ===== src/Pci/Found.antt =====
-- What a search of one bus finds.
use unos.Pci.{
  pci_reach_end, pci_none, dev_at, scan_functions, scan_devices, pci_scan_function, pci_scan_device,
  pci_scan_bus, PciDev, bits, dev_zero, pci_vendor_id, pci_device_id, found_or, pci_read,
  get_device_type, match_function,
}
use unos.Base.{
  ℕ, zero, suc, ◌+◌, ◌^◌, ◌<◌, ◌≤◌, ◌≡◌, ◌≢◌, ◌⊎◌, inl, inr, refl, arith, Bool, true, ◌&&◌, ◌||◌,
  Option, none, some, ◌==◌, ap, sym, Bool-cases, ◌-◌,
}
use mathlib.Core.Path.{subst}
use native.Mathlib.Decide.{ℕ_discrete}

-- Of a chain of searches the one that finds something is the result, and the result is empty only
-- where both are.
found_or-found :
    (p q : Option PciDev) (t : PciDev)
    → found_or p q ≡ some t
    → bits t ≢ 0
    → (p ≡ some t) ⊎ (q ≡ some t)
unfolding found_or
found_or-found none q t e ne = absurd cc
found_or-found (some x) q t e ne = elim (Bool-cases (bits x == 0)) [
  | inl empty ↦ inr (rw empty at e)
  | inr full ↦ inl (rw full at e)
]

pub found_or-empty :
    (p q : Option PciDev) (t : PciDev)
    → found_or p q ≡ some t
    → bits t ≡ 0
    → ((x : PciDev) × (p ≡ some x) × (bits x ≡ 0)) × (q ≡ some t)
unfolding found_or
found_or-empty none q t e ne = absurd cc
found_or-empty (some x) q t e ne = elim (Bool-cases (bits x == 0)) [
  | inl empty ↦ ((x, refl, ground (arith, empty)), (rw empty at e))
  | inr full ↦
      let same : some x ≡ some t = (rw full at e) in
      let found : x ≡ t = cc in absurd (ground (arith, full, ap bits found, ne))
]

bits_of : Option PciDev → ℕ
bits_of none = 0
bits_of (some t) = bits t

module _ (config sizes : ℕ → ℕ) (vendor_id device_id device_type : ℕ) where
  -- The function at this address is the one that is searched for.
  pub record Answers (dev : PciDev) : Type 0 where
    pub vendor : pci_read config sizes dev pci_vendor_id ≡ vendor_id
    pub device : pci_read config sizes dev pci_device_id ≡ device_id
    pub kind : (device_type ≡ 2 ^ 32 - 1) ⊎ (device_type ≡ get_device_type config sizes dev)

  -- the two tests of `pci_scan_function`
  has_type : PciDev → Bool
  has_type dev = (device_type == 2 ^ 32 - 1) || (device_type == get_device_type config sizes dev)

  has_ids : PciDev → Bool
  has_ids dev =
      (pci_read config sizes dev pci_device_id == device_id)
      && (vendor_id == pci_read config sizes dev pci_vendor_id)

  tests-Answers : (dev : PciDev) → has_type dev ≡ true → has_ids dev ≡ true → Answers dev
  unfolding has_type has_ids
  tests-Answers dev type ids = record {
    vendor = ground (arith, ids);
    device = ground (arith, ids);
    kind = elim (ℕ_discrete device_type (2 ^ 32 - 1)) [
      | yes any ↦ inl any
      | no other ↦ inr (ground (arith, type, other))
    ];
  }

  Answers-tests : (dev : PciDev) → Answers dev → (has_type dev ≡ true) × (has_ids dev ≡ true)
  unfolding has_type has_ids
  Answers-tests dev a = (
    elim a.kind [ inl any ↦ ground (arith, any) | inr same ↦ ground (arith, same) ],
    ground (arith, a.vendor, a.device),
  )

  match_function-Answers :
      (dev t : PciDev) (behind : Option PciDev)
      → match_function config sizes vendor_id device_id device_type dev behind ≡ some t
      → bits t ≢ 0
      → (t ≡ dev) × Answers dev
  unfolding match_function has_type has_ids bits_of
  match_function-Answers dev t none e ne = absurd cc
  match_function-Answers dev t (some x) e ne = elim (Bool-cases (has_type dev)) [
    | inr wrong ↦
        let none_found : some dev_zero ≡ some t = (rw wrong at e) in
        absurd (ne (sym (ap bits_of none_found)))
    | inl type ↦ elim (Bool-cases (has_ids dev)) [
      | inr wrong ↦
          let none_found : some dev_zero ≡ some t = (rw (type, wrong) at e) in
          absurd (ne (sym (ap bits_of none_found)))
      | inl ids ↦
          let found : some dev ≡ some t = (rw (type, ids) at e) in (cc, tests-Answers dev type ids)
    ]
  ]

  pub Answers-match_function :
      (dev t : PciDev) (behind : Option PciDev)
      → Answers dev
      → match_function config sizes vendor_id device_id device_type dev behind ≡ some t
      → t ≡ dev
  unfolding match_function has_type has_ids
  Answers-match_function dev t none a e = absurd cc
  Answers-match_function dev t (some x) a e =
      let (type, ids) = Answers-tests dev a in
      let found : some dev ≡ some t = (rw (type, ids) at e) in cc

  -- A function of a device on the bus.
  pub record OnBus (bus : ℕ) (t : PciDev) : Type 0 where
    pub device : ℕ
    pub function : ℕ
    pub device_small : device < 32
    pub place : t ≡ dev_at bus device function
    pub answers : Answers t

  module _ (scan : ℕ → Option PciDev) (bus : ℕ) (t : PciDev) where
    scan_function-OnBus :
        (device function : ℕ)
        → device < 32
        → pci_scan_function config sizes vendor_id device_id device_type scan bus device function
          ≡ some t
        → bits t ≢ 0
        → OnBus bus t
    unfolding pci_scan_function
    scan_function-OnBus device function h e ne =
        let (place, a) = match_function-Answers (dev_at bus device function) t _ e ne in
        record {
          device = device;
          function = function;
          device_small = h;
          place = place;
          answers = subst Answers (sym place) a;
        }

    scan_functions-OnBus :
        (rounds device function : ℕ)
        → device < 32
        → scan_functions config sizes vendor_id device_id device_type scan rounds bus device
            function
          ≡ some t
        → bits t ≢ 0
        → OnBus bus t
    unfolding scan_functions bits_of
    scan_functions-OnBus zero device function h e ne = absurd (ne (sym (ap bits_of e)))
    scan_functions-OnBus (suc rounds) device function h e ne =
        elim (Bool-cases (pci_read config sizes (dev_at bus device 0) pci_vendor_id == pci_none)) [
          | inl absent ↦ scan_functions-OnBus rounds device (function + 1) h (rw absent at e) ne
          | inr present ↦ elim (found_or-found _ _ t (rw present at e) ne) [
            | inl here ↦ scan_function-OnBus device function h here ne
            | inr later ↦ scan_functions-OnBus rounds device (function + 1) h later ne
          ]
        ]

    scan_device-OnBus :
        (device : ℕ)
        → device < 32
        → pci_scan_device config sizes vendor_id device_id device_type scan bus device ≡ some t
        → bits t ≢ 0
        → OnBus bus t
    unfolding pci_scan_device bits_of
    scan_device-OnBus device h e ne =
        elim (Bool-cases (pci_read config sizes (dev_at bus device 0) pci_vendor_id == pci_none)) [
          | inl absent ↦
              let nothing : some dev_zero ≡ some t = (rw absent at e) in
              absurd (ne (sym (ap bits_of nothing)))
          | inr present ↦ elim (found_or-found _ _ t (rw present at e) ne) [
            | inl here ↦ scan_function-OnBus device 0 h here ne
            | inr later ↦ elim (Bool-cases (pci_reach_end config sizes (dev_at bus device 0))) [
              | inl end ↦
                  let nothing : some dev_zero ≡ some t = (rw end at later) in
                  absurd (ne (sym (ap bits_of nothing)))
              | inr more ↦ scan_functions-OnBus 31 device 1 h (rw more at later) ne
            ]
          ]
        ]

    pub scan_devices-OnBus :
        (rounds device : ℕ)
        → device + rounds ≤ 32
        → scan_devices config sizes vendor_id device_id device_type scan rounds bus device ≡ some t
        → bits t ≢ 0
        → OnBus bus t
    unfolding scan_devices bits_of
    scan_devices-OnBus zero device h e ne = absurd (ne (sym (ap bits_of e)))
    scan_devices-OnBus (suc rounds) device h e ne = elim (found_or-found _ _ t e ne) [
      | inl here ↦ scan_device-OnBus device (omega arith) here ne
      | inr later ↦ scan_devices-OnBus rounds (device + 1) (omega arith) later ne
    ]

  -- What a search of a bus answers with, if it is not empty, is a function of a device on that bus
  -- itself, with the numbers and the type that were searched for. What is behind a bridge is never
  -- the answer, though the search goes there.
  pub pci_scan_bus-OnBus :
      (fuel bus : ℕ) (t : PciDev)
      → pci_scan_bus config sizes vendor_id device_id device_type fuel bus ≡ some t
      → bits t ≢ 0
      → OnBus bus t
  unfolding pci_scan_bus
  pci_scan_bus-OnBus zero bus t e ne = absurd cc
  pci_scan_bus-OnBus (suc fuel) bus t e ne =
      scan_devices-OnBus (pci_scan_bus config sizes vendor_id device_id device_type fuel) bus t 32 0
        (omega arith) e ne
