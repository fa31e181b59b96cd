-- ===== src/Network/Tests.antt =====
-- A card with an empty heap from 4096 to 65536.
use unos.Base.{◌%◌, ℕ, ◌≤◌, ◌≡◌, inl, inr, refl, arith, [], some, ◌==◌, if◌then◌else◌}
use unos.Memory.{Memory, load16}
use unos.Vmm.{Vmm}
use unos.Malloc.{Mm}
use unos.Malloc.Owners.{IsUsed}
use unos.Pci.{dev_at}
use unos.Pci.Samples.{card, sizes, card-get}
use unos.Network.{
  Nic, rtl8139_send_packet, ethernet_send_packet, receive_packet, frame_message, next_packet_ptr,
  arp_packet,
}
use unos.Network.Card.{IsSent, rtl8139_send_packet-IsSent}
use unos.Network.Frames.{IsFrame}
use unos.Network.Sends.{IsFramed, ethernet_send_packet-IsFramed}
use unos.Network.Receives.{IsReceived, receive_packet-IsReceived, next_packet_ptr_lem}
use unos.Network.Wire.{frame_message-IsFrame}
use unos.Network.Setup.{rtl8139_init, wait_reset}
use unos.Network.Setup.Ready.{IsReady, rtl8139_init-IsReady}

-- the packet in the buffer has 60 bytes, and its type is 0x0806
abbrev bytes : Memory
bytes j = if j == 100002 then 60 else if j == 100016 then 8 else if j == 100017 then 6 else 0

abbrev heap : Mm
heap = record {
  memory = bytes;
  last_alloc = 4096;
  heap_end = 65536;
  heap_begin = 4096;
  pheap_begin = 65536;
  pheap_end = 196608;
  pheap_desc = 0;
  memory_used = 0;
}

abbrev paging : Vmm
paging = record {
  memory = bytes;
  pmm = record { memory_size = 0; used_blocks = 0; max_blocks = 0; memory_map = λ i. 0 };
  cur_dir = 0;
  cr3 = 0;
  cr0 = 0;
}

abbrev nic : Nic
nic = record {
  mm = heap;
  vmm = paging;
  ports = record { writes = [] };
  messages = [];
  bar_type = 1;
  io_base = 0xc000;
  mem_base = 0xc000;
  mac_addr = 200;
  rx_buffer = 100000;
  tx_cur = 3;
  current_packet_ptr = 0;
}

abbrev unused : IsUsed heap []
unused = record {
  blocks = [];
  heap = record { chain = refl; room = omega arith; small = omega arith };
  hold = tt;
  disjoint = tt;
}

rtl8139_send_packet-IsSent_example : IsSent nic [] 300 60 (rtl8139_send_packet 300 60 nic)
rtl8139_send_packet-IsSent_example =
    rtl8139_send_packet-IsSent nic [] 300 60 unused (omega arith) (omega arith) (inl (omega arith))
      (omega arith)

ethernet_send_packet-IsFramed_example :
    IsFramed nic [] 500 400 300 46 0x0806 (ethernet_send_packet 500 400 300 46 0x0806 nic)
ethernet_send_packet-IsFramed_example =
    ethernet_send_packet-IsFramed nic [] 500 400 300 46 0x0806 unused (omega arith)
      (inl (omega arith)) (inr (omega arith)) (inl (omega arith)) (inl (omega arith))
      (inl (omega arith)) (inl (omega arith)) (inl (omega arith)) (omega arith)

packet-length : load16 100002 bytes ≡ 60
unfolding load16
packet-length = refl

receive_packet-IsReceived_example : IsReceived nic [] 100004 60 (receive_packet nic)
receive_packet-IsReceived_example =
    receive_packet-IsReceived nic [] 60 unused packet-length (omega arith) (omega arith)
      (omega arith) (inr (inl (omega arith)))

-- from 8156 on, a packet of 60 bytes goes over the end of the buffer
next_packet_ptr_lem_example :
    (next_packet_ptr 8156 60 % 4 ≡ 0)
    × (next_packet_ptr 8156 60 ≤ 8192)
    × (next_packet_ptr 8156 60 % 8192 ≡ 28)
next_packet_ptr_lem_example = next_packet_ptr_lem 8156 60 (omega arith) (omega arith)

-- a frame at 100004, with its data at 100018
packet-IsFrame : IsFrame bytes bytes 100004 100004 100010 100018 46 0x0806
packet-IsFrame = record {
  receiver = λ i h. refl;
  sender = λ i h. refl;
  protocol_high = refl;
  protocol_low = refl;
  payload = λ i h. refl;
}

frame_message-IsFrame_example : frame_message (load16 100016 bytes) 46 100018 ≡ arp_packet 46 100018
frame_message-IsFrame_example =
    frame_message-IsFrame bytes bytes 100004 100004 100010 100018 46 0x0806 46 100018 (omega arith)
      packet-IsFrame

-- the second read of the register shows the end of the reset
abbrev answers : ℕ → ℕ
answers k = if k == 0 then 0x10 else 0

reset-read : wait_reset 3 0 answers ≡ some 2
unfolding wait_reset
reset-read = refl

rtl8139_init-IsReady_example :
    IsReady nic [] (rtl8139_init card sizes 3 answers (λ p. 0xff) 0x12005452 0x5634 nic)
rtl8139_init-IsReady_example =
    rtl8139_init-IsReady card sizes 3 answers (λ p. 0xff) 0x12005452 0x5634 2 (dev_at 0 1 0) nic []
      card-get reset-read unused (omega arith) (inl (omega arith))
