-- ===== src/Network/Sends.antt =====
-- `ethernet_send_packet`, from the frame's memory to the card's registers.
use unos.Base.{
  ◌≢◌, ℕ, ◌+◌, ◌-◌, ◌*◌, ◌%◌, ◌<◌, ◌≤◌, ◌≡◌, ◌⊎◌, inl, inr, refl, arith, List, ◌∷◌, ◌∙◌, ap, some,
  Option, u16, u32,
}
use unos.Malloc.Runs.{give_back-IsUsed}
use unos.Base.Take.{there, here, here, there}
use unos.Memory.{Memory}
use unos.Malloc.{free}
use unos.Malloc.Owners.{Owned, IsUsed}
use unos.Malloc.Served.{
  Allocated-same, Allocated, malloc-Allocated, Allocated-clear, Allocated-same, Allocated-owner,
  IsKept,
}
use unos.Malloc.Writes.{free-same, free-status, IsUsed-owner, IsUsed-outer}
use unos.Network.{
  phys, Nic, after_malloc, fill_frame, free_frame, rtl8139_send_packet, ethernet_send_packet,
}
use unos.Network.Card.{IsSent, rtl8139_send_packet-IsSent}
use unos.Network.Frames.{
  IsFrame, Apart, copied, filled, filled-IsFrame, filled-frame_only, copied-same,
}

-- The state after a frame is sent: the block in which it was made, the state `full` with the frame in it,
-- and the block with the copy that the card reads.
pub record IsFramed (s : Nic) (os : List Owned) (src dst bytes len protocol : ℕ) (r : Option Nic)
    : Type 0 where
  pub after : Nic
  pub result : r ≡ some after
  pub made : Allocated s.mm os (14 + len)
  pub full : Nic
  pub full_rest : full ≡ record s { mm = record made.after { memory = full.mm.memory } }
  pub full_outside :
      (j : ℕ)
      → (j < made.p) ⊎ (made.p + (14 + len) ≤ j)
      → (j < src) ⊎ (src + 6 ≤ j)
      → full.mm.memory j ≡ made.after.memory j
  pub got : Allocated full.mm ((made.p, 14 + len) ∷ os) (14 + len)
  pub used : IsUsed after.mm ((got.p, 14 + len) ∷ os)
  pub given_back : after.mm.memory (made.p - 8) ≡ 0
  pub frame : IsFrame s.mm.memory after.mm.memory got.p dst s.mac_addr bytes len protocol
  pub told :
      after.ports.writes
      ≡ (u16 (s.io_base + (0x10 + 4 * s.tx_cur)), u32 (14 + len))
        ∷ (
          u16 (s.io_base + (0x20 + 4 * s.tx_cur)),
          u32 (phys got.p (record full { mm = got.after })),
        )
        ∷ s.ports.writes
  pub next : after.tx_cur ≡ (s.tx_cur + 1) % 4

module _ (s : Nic) (os : List Owned) (src dst bytes len protocol : ℕ) (u : IsUsed s.mm os)
    (room : s.mm.last_alloc + 2 * (14 + len) + 20 < s.mm.heap_end)
    (local : Apart src 6 s.mm.heap_begin (s.mm.heap_end - s.mm.heap_begin))
    (local_mac : Apart src 6 s.mac_addr 6) (local_dst : Apart dst 6 src 6)
    (local_bytes : Apart bytes len src 6) (mac_kept : IsKept s.mm os s.mac_addr 6)
    (dst_kept : IsKept s.mm os dst 6) (bytes_kept : IsKept s.mm os bytes len)
    (descriptor : s.tx_cur < 4) where
  got : Allocated s.mm os (14 + len)
  got = malloc-Allocated s.mm os (14 + len) u (omega arith) (omega arith)

  clear : (a k : ℕ) → IsKept s.mm os a k → Apart a k got.p (14 + len)
  clear a k kept =
      elim (Allocated-clear s.mm os (14 + len) u (omega arith) (omega arith) got a k kept) [
        | inl lo ↦ inl (omega arith)
        | inr hi ↦ inr hi
      ]

  src_frame : Apart src 6 got.p (14 + len)
  src_frame = elim local [
    | inl lo ↦ inl (omega (arith, got.within))
    | inr hi ↦ inr (omega (arith, got.within))
  ]

  abbrev framed : Nic
  framed = fill_frame got.p src dst bytes len protocol (record s { mm = got.after })

  abbrev frame_bytes : Memory
  frame_bytes =
      filled got.after.memory got.p src dst s.mac_addr bytes len protocol local_mac local_dst
        local_bytes src_frame (clear dst 6 dst_kept) (clear bytes len bytes_kept)

  -- the memory with the local array
  abbrev start_bytes : Memory
  start_bytes =
      copied got.after.memory got.p src dst s.mac_addr bytes len protocol local_mac local_dst
        local_bytes src_frame (clear dst 6 dst_kept) (clear bytes len bytes_kept)

  before_frame : (j : ℕ) → (j < src) ⊎ (src + 6 ≤ j) → start_bytes j ≡ got.after.memory j
  before_frame =
      copied-same got.after.memory got.p src dst s.mac_addr bytes len protocol local_mac local_dst
        local_bytes src_frame (clear dst 6 dst_kept) (clear bytes len bytes_kept)

  framed_used : IsUsed framed.mm ((got.p, 14 + len) ∷ os)
  unfolding fill_frame
  framed_used =
      IsUsed-owner (record got.after { memory = start_bytes }) frame_bytes got.p (14 + len) os
        (filled-frame_only got.after.memory got.p src dst s.mac_addr bytes len protocol local_mac
          local_dst local_bytes src_frame (clear dst 6 dst_kept) (clear bytes len bytes_kept))
        (IsUsed-outer got.after start_bytes ((got.p, 14 + len) ∷ os)
          (λ j lo hi.
            before_frame j (out j (omega (arith, got.start)) (omega (arith, got.end)) local))
          got.used)
    where
      out :
          (j : ℕ)
          → s.mm.heap_begin ≤ j
          → j < s.mm.heap_end
          → Apart src 6 s.mm.heap_begin (s.mm.heap_end - s.mm.heap_begin)
          → (j < src) ⊎ (src + 6 ≤ j)
      out j lo hi (inl h) = inr (omega arith)
      out j lo hi (inr h) = inl (omega arith)

  framed_lem : framed ≡ record s { mm = record got.after { memory = frame_bytes } }
  unfolding fill_frame
  framed_lem = refl

  framed_room : framed.mm.last_alloc + (14 + len) + 8 < framed.mm.heap_end
  unfolding fill_frame
  framed_room = omega (arith, got.top, got.end, room)

  sent :
      IsSent framed
        ((got.p, 14 + len) ∷ os)
        got.p
        (14 + len)
        (rtl8139_send_packet got.p (14 + len) framed)
  unfolding fill_frame
  sent =
      rtl8139_send_packet-IsSent framed ((got.p, 14 + len) ∷ os) got.p (14 + len) framed_used
        (omega arith) framed_room (inr (inr (os, here))) descriptor

  abbrev finished : Nic
  finished = record sent.after { mm = free got.p sent.after.mm }

  finished_result : ethernet_send_packet src dst bytes len protocol s ≡ some finished
  unfolding ethernet_send_packet after_malloc free_frame
  finished_result =
      ap
        (λ o. after_malloc o (λ frame mm. free_frame frame (
          rtl8139_send_packet frame (14 + len)
            (fill_frame frame src dst bytes len protocol (record s { mm = mm })))))
        got.result
      ∙ ap (free_frame got.p) sent.result

  finished_bytes :
      (k : ℕ) → k < 14 + len → finished.mm.memory (sent.got.p + k) ≡ frame_bytes (got.p + k)
  finished_bytes k h =
      free-same got.p (sent.got.p + k) sent.after.mm (omega (arith, got.within))
        (omega (arith, got.within, u.heap.small))
        (other (
          Allocated-owner framed.mm ((got.p, 14 + len) ∷ os) (14 + len) framed_used (omega arith)
            framed_room sent.got got.p (14 + len) here))
      ∙ sent.copied k h
      ∙ ap (λ g. g.mm.memory (got.p + k)) framed_lem
    where
      other :
          (got.p + (14 + len) + 8 ≤ sent.got.p) ⊎ (sent.got.p + (14 + len) + 12 ≤ got.p)
          → sent.got.p + k + 8 ≢ got.p
      other (inl lo) e = omega arith
      other (inr hi) e = omega arith

  same : (a k i : ℕ) → IsKept s.mm os a k → i < k → got.after.memory (a + i) ≡ s.mm.memory (a + i)
  same a k i kept h =
      Allocated-same s.mm os (14 + len) u (omega arith) (omega arith) got a k i kept h

  finished-IsFrame :
      IsFrame s.mm.memory finished.mm.memory sent.got.p dst s.mac_addr bytes len protocol
  finished-IsFrame =
      let fr =
        filled-IsFrame got.after.memory got.p src dst s.mac_addr bytes len protocol local_mac
          local_dst local_bytes src_frame (clear dst 6 dst_kept) (clear bytes len bytes_kept) in
      record {
        receiver =
            λ i h. finished_bytes i (omega arith) ∙ fr.receiver i h ∙ same dst 6 i dst_kept h;
        sender = λ i h. at 6 i (omega arith) ∙ fr.sender i h ∙ same s.mac_addr 6 i mac_kept h;
        protocol_high = finished_bytes 12 (omega arith) ∙ fr.protocol_high;
        protocol_low = finished_bytes 13 (omega arith) ∙ fr.protocol_low;
        payload = λ i h. at 14 i (omega arith) ∙ fr.payload i h ∙ same bytes len i bytes_kept h;
      }
    where
      at :
          (o i : ℕ)
          → o + i < 14 + len
          → finished.mm.memory (sent.got.p + o + i) ≡ frame_bytes (got.p + o + i)
      at o i h =
          let e : sent.got.p + o + i ≡ sent.got.p + (o + i) = omega arith in
          let e' : got.p + (o + i) ≡ got.p + o + i = omega arith in
          ap finished.mm.memory e ∙ finished_bytes (o + i) h ∙ ap frame_bytes e'

  -- A frame of `len` bytes of data. The heap has room for the frame and its copy; the local array of 6
  -- bytes is outside the heap and apart from the addresses and the data; no allocation touches those.
  -- Then the call succeeds. It makes the frame in a block, and beside that block and the local array
  -- leaves the memory to the second allocation as the first left it. The card is told, at the pair of
  -- registers that is next, the physical address of the second block and the length 14 + len. That block
  -- holds the receiver's address, the sender's, the protocol with the higher byte first, and the data,
  -- and is not freed. The first one is no longer owned, and its status byte is 0: it is free.
  pub ethernet_send_packet-IsFramed :
      IsFramed s os src dst bytes len protocol (ethernet_send_packet src dst bytes len protocol s)
  unfolding fill_frame
  ethernet_send_packet-IsFramed = record {
    after = finished;
    result = finished_result;
    made = got;
    full = framed;
    full_rest = refl;
    full_outside = λ j frame array.
        filled-frame_only got.after.memory got.p src dst s.mac_addr bytes len protocol local_mac
          local_dst local_bytes src_frame (clear dst 6 dst_kept) (clear bytes len bytes_kept) j
          frame
        ∙ before_frame j array;
    got = sent.got;
    used =
        give_back-IsUsed sent.after.mm ((sent.got.p, 14 + len) ∷ (got.p, 14 + len) ∷ os)
          ((sent.got.p, 14 + len) ∷ os) (got.p, 14 + len) (there here) sent.used;
    given_back =
        free-status got.p sent.after.mm (omega (arith, got.within))
          (omega (arith, got.within, u.heap.small));
    frame = finished-IsFrame;
    told = sent.writes;
    next = sent.next;
  }
