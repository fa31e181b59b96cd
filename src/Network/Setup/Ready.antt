-- ===== src/Network/Setup/Ready.antt =====
-- `rtl8139_init` leaves a card with which packets can be sent.
use unos.Base.{
  u8, ℕ, ◌+◌, ◌-◌, ◌^◌, ◌<◌, ◌≤◌, ◌≡◌, ◌⊎◌, inl, inr, refl, arith, List, ◌∷◌, ◌∙◌, ap, some, Option,
}
use unos.Strings.{memset}
use unos.Strings.Bytes.{memset_lem}
use unos.Malloc.Owners.{Owned, IsUsed}
use unos.Malloc.Served.{Allocated, malloc-Allocated}
use unos.Malloc.Writes.{IsUsed-owner, IsUsed-outer}
use unos.Pci.{pci_read, PciDev, pci_get_device}
use unos.Pic.{enable_irq}
use unos.Network.{Nic, after_malloc, read_mac_addr}
use unos.Network.Frames.{Apart}
use unos.Network.Setup.{
  rtl8139_init, with_device, after_reset, wait_reset, init_card, start_card, set_bases,
  enable_bus_mastering, reset_card,
}

-- A card that has its buffer, and begins with the first pair of registers.
pub record IsReady (s : Nic) (os : List Owned) (r : Option Nic) : Type 0 where
  pub after : Nic
  pub result : r ≡ some after
  pub used : IsUsed after.mm ((after.rx_buffer, 9708) ∷ os)
  pub first : after.tx_cur ≡ 0
  pub same : after.mac_addr ≡ s.mac_addr

read_mac_addr_outside :
    (a b j : ℕ) (s : Nic)
    → (j < s.mac_addr) ⊎ (s.mac_addr + 6 ≤ j)
    → (read_mac_addr a b s).mm.memory j ≡ s.mm.memory j
unfolding read_mac_addr
read_mac_addr_outside a b j s (inl h) = ground arith
read_mac_addr_outside a b j s (inr h) = ground arith

module _ (config sizes : ℕ → ℕ) (fuel : ℕ) (answer inb : ℕ → ℕ) (mac_part1 mac_part2 reads : ℕ)
    (dev : PciDev) (s : Nic) (os : List Owned)
    (found : pci_get_device config sizes 0x10EC 0x8139 (2 ^ 32 - 1) fuel ≡ some dev)
    (reset : wait_reset fuel 0 answer ≡ some reads) (u : IsUsed s.mm os)
    (room : s.mm.last_alloc + 9716 < s.mm.heap_end)
    (global : Apart s.mac_addr 6 s.mm.heap_begin (s.mm.heap_end - s.mm.heap_begin)) where
  got : Allocated s.mm os 9708
  got = malloc-Allocated s.mm os 9708 u (omega arith) (omega arith)

  abbrev before : Nic
  before = reset_card (enable_bus_mastering config sizes dev (set_bases config sizes dev s))

  reached :
      rtl8139_init config sizes fuel answer inb mac_part1 mac_part2 s
      ≡ init_card config sizes dev inb mac_part1 mac_part2 before
  unfolding rtl8139_init with_device after_reset
  reached = rw (found, reset) refl

  -- the card started, and its line enabled
  started : Nic
  unfolding start_card
  started =
      let s1 = start_card got.p (record before { mm = got.after }) in
      record s1 { ports = enable_irq inb (u8 (32 + pci_read config sizes dev 0x3C)) s1.ports }

  started_result :
      init_card config sizes dev inb mac_part1 mac_part2 before
      ≡ some (read_mac_addr mac_part1 mac_part2 started)
  unfolding init_card after_malloc started start_card reset_card enable_bus_mastering set_bases
  started_result =
      ap
        (λ o. after_malloc o (λ rx_buffer mm.
          let s1 = start_card rx_buffer (record before { mm = mm }) in
          some (
            read_mac_addr mac_part1 mac_part2 (record s1 {
              ports = enable_irq inb (u8 (32 + pci_read config sizes dev 0x3C)) s1.ports;
            }))))
        got.result

  started_used : IsUsed started.mm ((got.p, 9708) ∷ os)
  unfolding started start_card
  started_used =
      IsUsed-owner got.after (memset got.p 0 9708 got.after.memory) got.p 9708 os
        (λ j h. ground (arith, memset_lem got.p 0 9708 got.after.memory j, h)) got.used

  -- Where the search of the bus finds the card, the reset ends within the fuel, the heap has room for the
  -- buffer and the six bytes of the card's address lie outside the heap: the set-up succeeds, the card
  -- owns a buffer of 9708 bytes beside the other owners, and its first packet goes by the first pair of
  -- registers.
  pub rtl8139_init-IsReady :
      IsReady s os (rtl8139_init config sizes fuel answer inb mac_part1 mac_part2 s)
  unfolding started start_card reset_card enable_bus_mastering set_bases read_mac_addr
  rtl8139_init-IsReady = record {
    after = read_mac_addr mac_part1 mac_part2 started;
    result = reached ∙ started_result;
    used =
        IsUsed-outer started.mm (read_mac_addr mac_part1 mac_part2 started).mm.memory
          ((got.p, 9708) ∷ os)
          (λ j lo hi.
            read_mac_addr_outside mac_part1 mac_part2 j started
              (away j (omega (arith, got.start)) (omega (arith, got.end)) global))
          started_used;
    first = refl;
    same = refl;
  }
    where
      away :
          (j : ℕ)
          → s.mm.heap_begin ≤ j
          → j < s.mm.heap_end
          → Apart s.mac_addr 6 s.mm.heap_begin (s.mm.heap_end - s.mm.heap_begin)
          → (j < s.mac_addr) ⊎ (s.mac_addr + 6 ≤ j)
      away j lo hi (inl h) = inr (omega arith)
      away j lo hi (inr h) = inl (omega arith)
