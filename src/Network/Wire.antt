-- ===== src/Network/Wire.antt =====
-- What the other side of the wire sees: the card's address, and a frame's type.
use unos.Base.{
  ℕ, ◌+◌, ◌*◌, ◌/◌, ◌%◌, ◌^◌, ◌<◌, ◌≤◌, ◌≡◌, ◌⊎◌, inl, inr, refl, arith, ◌∙◌, sym, ap, ◌==◌,
  if◌then◌else◌,
}
use unos.Memory.{Memory, load16, load32}
use unos.Strings.{memcpy}
use unos.NetworkUtils.{ntohs}
use unos.NetworkUtils.Orders.{ntohs_lem}
use unos.Network.{
  Nic, frame_message, read_mac_addr, get_mac_addr, arp_packet, ip_packet, unsupported,
}
use unos.Network.Card.{memcpy-copied}
use unos.Network.Frames.{IsFrame, Apart}

-- A frame of a protocol below 2 ^ 16 is taken for an ARP packet, an IP packet or an unsupported one by
-- that protocol, wherever it lies.
pub frame_message-IsFrame :
    (m n : Memory) (f dst mac bytes len protocol data_len at : ℕ)
    → protocol < 2 ^ 16
    → IsFrame m n f dst mac bytes len protocol
    → frame_message (load16 (f + 12) n) data_len at ≡ (
        if protocol == 0x0806
        then arp_packet data_len at
        else if protocol == 0x0800
        then ip_packet data_len at
        else unsupported (protocol % 256 * 256 + protocol / 256))
unfolding frame_message load16
frame_message-IsFrame m n f dst mac bytes len protocol data_len at h fr =
    let next : f + 12 + 1 ≡ f + 13 = omega arith in
    let word : n (f + 12) + 256 * n (f + 12 + 1) ≡ protocol % 256 * 256 + protocol / 256 =
      omega (arith, ap n next, fr.protocol_high, fr.protocol_low) in
    let read : ntohs (protocol % 256 * 256 + protocol / 256) ≡ protocol =
      omega (arith, ntohs_lem (protocol % 256 * 256 + protocol / 256)) in
    rw (word, read) refl

-- The six bytes that the card's registers held are what `get_mac_addr` copies.
pub get_mac_addr-read_mac_addr :
    (mac_part1 mac_part2 a : ℕ) (s : Nic)
    → mac_part1 < 2 ^ 32
    → mac_part2 < 2 ^ 16
    → Apart a 6 s.mac_addr 6
    → (load32 a (get_mac_addr a (read_mac_addr mac_part1 mac_part2 s)).mm.memory ≡ mac_part1)
      × (load16 (a + 4) (get_mac_addr a (read_mac_addr mac_part1 mac_part2 s)).mm.memory
          ≡ mac_part2)
unfolding get_mac_addr read_mac_addr load32 load16
get_mac_addr-read_mac_addr mac_part1 mac_part2 a s low small apart =
    let m = (read_mac_addr mac_part1 mac_part2 s).mm.memory in
    let below : (a ≤ s.mac_addr) ⊎ (s.mac_addr + 6 ≤ a) = elim apart [
      | inl lo ↦ inl (omega arith)
      | inr hi ↦ inr hi
    ] in
    let b = memcpy-copied a s.mac_addr 6 m below in
    let first : a + 0 ≡ a = omega arith in
    let from : s.mac_addr + 0 ≡ s.mac_addr = omega arith in
    let b0 : memcpy a s.mac_addr 6 m a ≡ m s.mac_addr =
      ap (memcpy a s.mac_addr 6 m) (sym first) ∙ b 0 (omega arith) ∙ ap m from in
    (
      ground (arith, b0, b 1 (omega arith), b 2 (omega arith), b 3 (omega arith)),
      ground (arith, b 4 (omega arith), b 5 (omega arith)),
    )
