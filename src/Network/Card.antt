-- ===== src/Network/Card.antt =====
-- `rtl8139_send_packet`: the copy that the card reads, and the registers that name it.
use unos.Base.{
  ℕ, ◌+◌, ◌-◌, ◌*◌, ◌%◌, ◌<◌, ◌≤◌, ◌≡◌, ◌⊎◌, inl, inr, refl, arith, List, ◌∷◌, ◌∙◌, ap, some,
  Option, u16, u32,
}
use unos.Memory.{Memory}
use unos.Strings.{memcpy}
use unos.Strings.Bytes.{memcpy_lem}
use unos.Malloc.Owners.{Owned, IsUsed}
use unos.Malloc.Served.{Allocated, malloc-Allocated, Allocated-clear, Allocated-same, IsKept}
use unos.Malloc.Writes.{IsUsed-owner}
use unos.Network.{Nic, after_malloc, transfer, rtl8139_send_packet, phys}

-- A copy of a range of memory that is apart from it.
module _ (p q n : ℕ) (m : Memory) (apart : (p ≤ q) ⊎ (q + n ≤ p)) where
  pub memcpy-copied : (i : ℕ) → i < n → memcpy p q n m (p + i) ≡ m (q + i)
  memcpy-copied i h =
      let at : p + i - p + q ≡ q + i = omega arith in
      memcpy_lem p q n m (p + i) apart ∙ ground (arith, ap m at)

  pub memcpy-outside : (j : ℕ) → (j < p) ⊎ (p + n ≤ j) → memcpy p q n m j ≡ m j
  memcpy-outside j h = ground (arith, memcpy_lem p q n m j apart, h)

-- What is sent: a copy in a block of its own, in the registers the physical address of the block and its
-- length, and the number of the next pair of registers.
pub record IsSent (s : Nic) (os : List Owned) (bytes len : ℕ) (r : Option Nic) : Type 0 where
  pub after : Nic
  pub result : r ≡ some after
  pub got : Allocated s.mm os len
  pub used : IsUsed after.mm ((got.p, len) ∷ os)
  pub copied : (i : ℕ) → i < len → after.mm.memory (got.p + i) ≡ s.mm.memory (bytes + i)
  pub outside : (j : ℕ) → (j + 8 < got.p) ⊎ (got.p + len ≤ j) → after.mm.memory j ≡ s.mm.memory j
  pub writes :
      after.ports.writes
      ≡ (u16 (s.io_base + (0x10 + 4 * s.tx_cur)), u32 len)
        ∷ (u16 (s.io_base + (0x20 + 4 * s.tx_cur)), u32 (phys got.p (record s { mm = got.after })))
        ∷ s.ports.writes
  pub next : after.tx_cur ≡ (s.tx_cur + 1) % 4

module _ (s : Nic) (os : List Owned) (bytes len : ℕ) (u : IsUsed s.mm os) (some_bytes : 0 < len)
    (room : s.mm.last_alloc + len + 8 < s.mm.heap_end) (kept : IsKept s.mm os bytes len)
    (descriptor : s.tx_cur < 4) where
  got : Allocated s.mm os len
  got = malloc-Allocated s.mm os len u some_bytes room

  apart : (got.p ≤ bytes) ⊎ (bytes + len ≤ got.p)
  apart = elim (Allocated-clear s.mm os len u some_bytes room got bytes len kept) [
    | inl lo ↦ inr (omega arith)
    | inr hi ↦ inl (omega arith)
  ]

  -- A packet of `len` bytes, at least one, that no allocation touches, with room in the heap: the call
  -- succeeds. The card is told the physical address and the length of a new block, at the pair of
  -- registers that `tx_cur` numbers, and the pairs are taken in turn; the block holds the packet, is
  -- not freed, and beside it no memory is changed.
  pub rtl8139_send_packet-IsSent : IsSent s os bytes len (rtl8139_send_packet bytes len s)
  unfolding rtl8139_send_packet after_malloc transfer
  rtl8139_send_packet-IsSent =
      let after = transfer bytes len got.p (record s { mm = got.after }) in
      record {
        after = after;
        result =
            ap (λ o. after_malloc o (λ p mm. some (transfer bytes len p (record s { mm = mm }))))
              got.result;
        got = got;
        used =
            IsUsed-owner got.after after.mm.memory got.p len os
              (memcpy-outside got.p bytes len got.after.memory apart) got.used;
        copied = λ i h.
            memcpy-copied got.p bytes len got.after.memory apart i h
            ∙ Allocated-same s.mm os len u some_bytes room got bytes len i kept h;
        outside = λ j h.
            memcpy-outside got.p bytes len got.after.memory apart j (wide j h) ∙ got.outside j h;
        writes = refl;
        next = ground arith;
      }
    where
      wide : (j : ℕ) → (j + 8 < got.p) ⊎ (got.p + len ≤ j) → (j < got.p) ⊎ (got.p + len ≤ j)
      wide j (inl lo) = inl (omega arith)
      wide j (inr hi) = inr hi
