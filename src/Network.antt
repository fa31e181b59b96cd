-- ===== src/Network.antt =====
-- kernel/drivers/rtl8139.c, the network card, and kernel/network/ethernet.c, the frames that go
-- through it.
--
-- The two files share the state below. Where `malloc` stops the machine the result is `none`; that its
-- walk never runs out of fuel is shown with Malloc. The address of the array `mac_addr` is a field, that
-- of a local array an argument, and so is what a port answers. A line that `printf` writes is a message.
pub mod Card
pub mod Frames
pub mod Sends
pub mod Receives
pub mod Wire
pub mod Setup
mod Tests
use unos.Base.{
  ℕ, zero, suc, ◌+◌, ◌-◌, ◌*◌, ◌/◌, ◌%◌, ◌^◌, Option, none, some, List, ◌∷◌, bit_and, bit_or, leb,
  ltb, ◌==◌, if◌then◌else◌, u8, u16, u32, update,
}
use unos.Memory.{Memory, load16, store16}
use unos.Malloc.{Mm, Outcome, returned, panic, out_of_fuel, malloc, free}
use unos.Strings.{memcpy, memset}
use unos.Vmm.{Vmm, virt2phys}
use unos.Ports.{Ports, outb, outw, outl}
use unos.NetworkUtils.{htons, ntohs}

pub data Message : Type 0 where
  packet_sent : Message
  arp_packet : (data_len at : ℕ) → Message
  ip_packet : (data_len at : ℕ) → Message
  unsupported : (type : ℕ) → Message

pub record Nic : Type 0 where
  pub mm : Mm
  pub vmm : Vmm
  pub ports : Ports
  pub messages : List Message
  pub bar_type : ℕ
  pub io_base : ℕ
  pub mem_base : ℕ
  pub mac_addr : ℕ
  pub rx_buffer : ℕ
  pub tx_cur : ℕ
  pub current_packet_ptr : ℕ

abbrev pub rx_buf_size : ℕ
rx_buf_size = 8192

abbrev pub capr : ℕ
capr = 0x38

abbrev pub rok : ℕ
rok = 1

abbrev pub tok : ℕ
tok = 4

-- `TSAD_array` and `TSD_array`
abbrev pub tsad_array : ℕ → ℕ
tsad_array i = 0x20 + 4 * i

abbrev pub tsd_array : ℕ → ℕ
tsd_array i = 0x10 + 4 * i

-- `sizeof(ethernet_frame_t)`, and its fields
abbrev pub sizeof_frame : ℕ
sizeof_frame = 14

abbrev pub dst_mac_addr_at : ℕ → ℕ
dst_mac_addr_at frame = frame

abbrev pub src_mac_addr_at : ℕ → ℕ
src_mac_addr_at frame = frame + 6

abbrev pub type_at : ℕ → ℕ
type_at frame = frame + 12

abbrev pub ethernet_type_arp : ℕ
ethernet_type_arp = 0x0806

abbrev pub ethernet_type_ip : ℕ
ethernet_type_ip = 0x0800

abbrev pub with_memory : Memory → Nic → Nic
with_memory m s = record s { mm = record s.mm { memory = m } }

-- what follows a call of `malloc`
pub after_malloc : Outcome → (ℕ → Mm → Option Nic) → Option Nic
after_malloc (returned p mm) next = next p mm
after_malloc panic next = none
after_malloc out_of_fuel next = none

abbrev pub phys : ℕ → Nic → ℕ
phys addr s = virt2phys s.vmm.cur_dir addr (record s.vmm { memory = s.mm.memory })

pub read_mac_addr : (mac_part1 mac_part2 : ℕ) → Nic → Nic
read_mac_addr mac_part1 mac_part2 s =
    let a = s.mac_addr in
    let m4 =
      update
        (update (update (update s.mm.memory a (u8 mac_part1)) (a + 1) (u8 (mac_part1 / 2 ^ 8)))
          (a + 2) (u8 (mac_part1 / 2 ^ 16)))
        (a + 3) (u8 (mac_part1 / 2 ^ 24)) in
    with_memory (update (update m4 (a + 4) (u8 mac_part2)) (a + 5) (u8 (mac_part2 / 2 ^ 8))) s

pub get_mac_addr : (src_mac_addr : ℕ) → Nic → Nic
get_mac_addr src_mac_addr s = with_memory (memcpy src_mac_addr s.mac_addr 6 s.mm.memory) s

-- the rest of `rtl8139_send_packet`, with the memory that it got
pub transfer : (bytes len transfer_data : ℕ) → Nic → Nic
unfolding outl
transfer bytes len transfer_data s =
    let phys_addr = phys transfer_data s in
    let m = memcpy transfer_data bytes len s.mm.memory in
    let p1 = outl (s.io_base + tsad_array s.tx_cur) phys_addr s.ports in
    let p2 = outl (s.io_base + tsd_array s.tx_cur) len p1 in
    record s {
      mm = record s.mm { memory = m };
      ports = p2;
      tx_cur = if ltb 3 (s.tx_cur + 1) then 0 else s.tx_cur + 1;
    }

pub rtl8139_send_packet : (bytes len : ℕ) → Nic → Option Nic
unfolding after_malloc transfer
rtl8139_send_packet bytes len s =
    after_malloc (malloc len s.mm) (λ p mm. some (transfer bytes len p (record s { mm = mm })))

-- the fields and the data of a frame, in the order of the source
pub fill_frame : (frame src_mac_addr dst_mac_addr bytes len protocol : ℕ) → Nic → Nic
unfolding get_mac_addr
fill_frame frame src_mac_addr dst_mac_addr bytes len protocol s =
    let s1 = get_mac_addr src_mac_addr s in
    let m1 = memcpy (src_mac_addr_at frame) src_mac_addr 6 s1.mm.memory in
    let m2 = memcpy (dst_mac_addr_at frame) dst_mac_addr 6 m1 in
    let m3 = memcpy (frame + sizeof_frame) bytes len m2 in
    with_memory (store16 (type_at frame) (htons protocol) m3) s1

pub free_frame : (frame : ℕ) → Option Nic → Option Nic
free_frame frame none = none
free_frame frame (some s) = some (record s { mm = free frame s.mm })

-- The state after the call; the value returned is `len`, which is not negative.
pub ethernet_send_packet : (src_mac_addr dst_mac_addr bytes len protocol : ℕ) → Nic → Option Nic
unfolding after_malloc fill_frame free_frame rtl8139_send_packet
ethernet_send_packet src_mac_addr dst_mac_addr bytes len protocol s =
    after_malloc (malloc (sizeof_frame + len) s.mm) (λ frame mm. free_frame frame (
      rtl8139_send_packet frame (sizeof_frame + len)
        (fill_frame frame src_mac_addr dst_mac_addr bytes len protocol (record s { mm = mm }))))

pub frame_message : (type data_len at : ℕ) → Message
frame_message type data_len at =
    if ntohs type == ethernet_type_arp
    then arp_packet data_len at
    else if ntohs type == ethernet_type_ip
    then ip_packet data_len at
    else unsupported type

-- `len` is an `int`, kept modulo 2 ^ 32
pub ethernet_handle_packet : (packet len : ℕ) → Nic → Nic
unfolding frame_message
ethernet_handle_packet packet len s = record s {
  messages =
      frame_message (load16 (type_at packet) s.mm.memory) (u32 (len + 2 ^ 32 - sizeof_frame))
        (packet + sizeof_frame)
      ∷ s.messages;
  mm = free packet s.mm;
}

-- the place of the next packet in the buffer
pub next_packet_ptr : (ptr packet_length : ℕ) → ℕ
next_packet_ptr ptr packet_length =
    let next = bit_and (u32 (ptr + packet_length + 4 + 3)) 0xffff_fffc in
    if ltb rx_buf_size next then next - rx_buf_size else next

-- `receive_packet` with the memory that it got for the packet at `at`
pub take_packet : (at packet_length packet : ℕ) → Nic → Nic
unfolding ethernet_handle_packet next_packet_ptr outw
take_packet at packet_length packet s =
    let m = memcpy packet at packet_length s.mm.memory in
    let s1 = ethernet_handle_packet packet packet_length (with_memory m s) in
    let next = next_packet_ptr s.current_packet_ptr packet_length in
    record s1 {
      current_packet_ptr = next;
      ports = outw (s.io_base + capr) (u32 (next + 2 ^ 32 - 0x10)) s1.ports;
    }

pub receive_packet : Nic → Option Nic
unfolding after_malloc take_packet
receive_packet s =
    let t = s.rx_buffer + s.current_packet_ptr in
    let packet_length = load16 (t + 2) s.mm.memory in
    after_malloc (malloc packet_length s.mm)
      (λ packet mm. some (take_packet (t + 4) packet_length packet (record s { mm = mm })))

pub acknowledge : Option Nic → Option Nic
unfolding outw
acknowledge none = none
acknowledge (some s) = some (record s { ports = outw (s.io_base + 0x3E) 0x5 s.ports })

-- `status` is what the card's status register answers
pub rtl8139_handler : (status : ℕ) → Nic → Option Nic
unfolding receive_packet acknowledge
rtl8139_handler status s =
    let s1 =
      if bit_and status tok == 0 then s else record s { messages = packet_sent ∷ s.messages } in
    acknowledge (if bit_and status rok == 0 then some s1 else receive_packet s1)
