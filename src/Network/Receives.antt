-- ===== src/Network/Receives.antt =====
-- `receive_packet`: the packet in the card's buffer, and the place of the next one.
use unos.Base.{
  ℕ, ◌+◌, ◌-◌, ◌*◌, ◌/◌, ◌%◌, ◌^◌, ◌<◌, ◌≤◌, ◌≡◌, ◌⊎◌, inl, inr, refl, arith, List, ◌∷◌, ◌∙◌, ap,
  some, Option, u16, u32, bit_and,
}
use unos.Base.Masks.{bit_and-ones, bit_and-shift}
use unos.Base.Take.{here}
use unos.Memory.{Memory, load16}
use unos.Strings.{memcpy}
use unos.Malloc.{malloc}
use unos.Malloc.Owners.{Owned, IsUsed}
use unos.Malloc.Runs.{give_back-IsUsed}
use unos.Malloc.Served.{Allocated, malloc-Allocated, Allocated-clear, Allocated-same, IsKept}
use unos.Malloc.Writes.{IsUsed-owner, free-status}
use unos.Network.{
  take_packet, Nic, after_malloc, next_packet_ptr, receive_packet, ethernet_handle_packet,
  frame_message,
}
use unos.Network.Card.{memcpy-copied, memcpy-outside}

-- a number made a multiple of 4, downwards
mask_lem : (w : ℕ) → w < 2 ^ 32 → bit_and w 0xffff_fffc ≡ w / 4 * 4
mask_lem w h = omega (arith, bit_and-shift w (2 ^ 30 - 1) 2, bit_and-ones (w / 2 ^ 2) 30)

-- From a place in the buffer, the length of a packet with which the next one begins at most one turn
-- further: the next place is a multiple of 4 not above 8192, and up to whole turns of 8192 bytes it is the
-- first multiple of 4 behind the packet's header of 4 bytes and its data.
pub next_packet_ptr_lem :
    (ptr packet_length : ℕ)
    → ptr ≤ 8192
    → packet_length + 7 < 8192
    → (next_packet_ptr ptr packet_length % 4 ≡ 0)
      × (next_packet_ptr ptr packet_length ≤ 8192)
      × (next_packet_ptr ptr packet_length % 8192 ≡ (ptr + packet_length + 7) / 4 * 4 % 8192)
unfolding next_packet_ptr
next_packet_ptr_lem ptr packet_length h k =
    let mask = mask_lem (u32 (ptr + packet_length + 4 + 3)) (omega arith) in
    (ground (arith, mask), ground (arith, mask), ground (arith, mask))

-- What is left of the turn is not always cut off: where a packet ends with the buffer the next place is
-- 8192, behind the buffer, and not 0.
pub next_packet_ptr_end :
    (ptr packet_length : ℕ)
    → ptr ≤ 8192
    → (ptr + packet_length + 7) / 4 ≡ 2048
    → next_packet_ptr ptr packet_length ≡ 8192
unfolding next_packet_ptr
next_packet_ptr_end ptr packet_length h k =
    let mask = mask_lem (u32 (ptr + packet_length + 4 + 3)) (omega arith) in ground (arith, mask)

load16_ext :
    (a b : ℕ) (m n : Memory)
    → n (b + 12) ≡ m (a + 12)
    → n (b + 13) ≡ m (a + 13)
    → load16 (b + 12) n ≡ load16 (a + 12) m
unfolding load16
load16_ext a b m n low high =
    let next : b + 12 + 1 ≡ b + 13 = omega arith in
    let next' : a + 12 + 1 ≡ a + 13 = omega arith in rw (next, next', low, high) refl

-- The state after a packet of `len` bytes at `at` is received.
pub record IsReceived (s : Nic) (os : List Owned) (at len : ℕ) (r : Option Nic) : Type 0 where
  pub after : Nic
  pub result : r ≡ some after
  pub got : Allocated s.mm os len
  pub used : IsUsed after.mm os
  pub given_back : after.mm.memory (got.p - 8) ≡ 0
  pub told :
      after.messages
      ≡ frame_message (load16 (at + 12) s.mm.memory) (len - 14) (got.p + 14) ∷ s.messages
  pub place : after.current_packet_ptr ≡ next_packet_ptr s.current_packet_ptr len
  pub writes :
      after.ports.writes
      ≡ (u16 (s.io_base + 0x38), u16 (u32 (next_packet_ptr s.current_packet_ptr len + 2 ^ 32 - 16)))
        ∷ s.ports.writes

module _ (s : Nic) (os : List Owned) (len : ℕ) (u : IsUsed s.mm os)
    (length : load16 (s.rx_buffer + s.current_packet_ptr + 2) s.mm.memory ≡ len) (least : 14 ≤ len)
    (short : len < 2 ^ 16) (room : s.mm.last_alloc + len + 8 < s.mm.heap_end)
    (kept : IsKept s.mm os (s.rx_buffer + s.current_packet_ptr + 4) len) where
  abbrev at : ℕ
  at = s.rx_buffer + s.current_packet_ptr + 4

  got : Allocated s.mm os len
  got = malloc-Allocated s.mm os len u (omega arith) room

  apart : (got.p ≤ at) ⊎ (at + len ≤ got.p)
  apart = elim (Allocated-clear s.mm os len u (omega arith) room got at len kept) [
    | inl lo ↦ inr (omega arith)
    | inr hi ↦ inl (omega arith)
  ]

  abbrev packet_bytes : Memory
  packet_bytes = memcpy got.p at len got.after.memory

  abbrev taken : Nic
  taken = take_packet at len got.p (record s { mm = got.after })

  taken_result : receive_packet s ≡ some taken
  unfolding receive_packet after_malloc
  taken_result =
      ap
        (λ l.
          after_malloc (malloc l s.mm)
            (λ packet mm. some (take_packet at l packet (record s { mm = mm }))))
        length
      ∙ ap
          (λ o.
            after_malloc o (λ packet mm. some (take_packet at len packet (record s { mm = mm }))))
          got.result

  packet_type : load16 (got.p + 12) packet_bytes ≡ load16 (at + 12) s.mm.memory
  packet_type =
      load16_ext at got.p s.mm.memory packet_bytes (byte 12 (omega arith)) (byte 13 (omega arith))
    where
      byte : (i : ℕ) → i < len → packet_bytes (got.p + i) ≡ s.mm.memory (at + i)
      byte i h =
          memcpy-copied got.p at len got.after.memory apart i h
          ∙ Allocated-same s.mm os len u (omega arith) room got at len i kept h

  -- A packet of 14 bytes or more lies behind its header of 4 bytes in the buffer, which no allocation
  -- touches, and the heap has room for a copy: the call succeeds. It reports the packet by the type in
  -- it and its place in the copy's block; that block is no longer owned, and its status byte is 0: it is
  -- free. The call goes on to the next place in the buffer, and tells the card the place 16 bytes below.
  pub receive_packet-IsReceived :
      IsReceived s os (s.rx_buffer + s.current_packet_ptr + 4) len (receive_packet s)
  unfolding take_packet ethernet_handle_packet
  receive_packet-IsReceived =
      let size : u32 (len + 2 ^ 32 - 14) ≡ len - 14 = omega arith in
      record {
        after = taken;
        result = taken_result;
        used =
            give_back-IsUsed (record got.after { memory = packet_bytes }) ((got.p, len) ∷ os) os
              (got.p, len) here
              (IsUsed-owner got.after packet_bytes got.p len os
                (memcpy-outside got.p at len got.after.memory apart) got.used);
        got = got;
        given_back =
            free-status got.p (record got.after { memory = packet_bytes })
              (omega (arith, got.within)) (omega (arith, got.within, u.heap.small));
        told =
            ap (λ t. frame_message t (u32 (len + 2 ^ 32 - 14)) (got.p + 14) ∷ s.messages)
              packet_type
            ∙ ap (λ l. frame_message (load16 (at + 12) s.mm.memory) l (got.p + 14) ∷ s.messages)
                size;
        place = refl;
        writes = refl;
      }
