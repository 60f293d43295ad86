-- ===== src/NetworkInterface/Tests.antt =====
-- The network interface at concrete inputs, with a simple format for its messages.
use os_stream_socket.Base.{
  Fault, ok, err, ◌>>=◌, OnReturn, ℕ, ◌≡◌, refl, List, [], ◌∷◌, true, false, Option, none, some,
  lookup, arith,
}
use os_stream_socket.Frames.{
  EthernetAddress, EthernetFrame, ArpMessage, default_arp, Ipv4Header, Ipv4Datagram, Formats,
  same_address,
}
use os_stream_socket.NetworkInterface.{
  NetworkInterface, new, enqueue, make_arp, arp_request, is_for, send_datagram, recv_frame, tick,
}
use os_stream_socket.NetworkInterface.Expiry.{tick_expires}
use os_stream_socket.NetworkInterface.Learn.{Learns, recv_frame-Learns, released_by, frames_of}
use os_stream_socket.NetworkInterface.Exchange.{IsAddressed, arp_exchange}
use os_stream_socket.Frames.Wire.{wire_formats}
use os_stream_socket.Frames.Ipv4
use os_stream_socket.Serializer
use os_stream_socket.NetworkInterface.Send.{second_datagram_lost, requests_repeat, send-reply}
use os_stream_socket.NetworkInterface.Entries.{IsInterface}
use os_stream_socket.NetworkInterface.Invariant.{
  sends, receives, takes, ticks, run, run-IsInterface,
}

abbrev read_arp : List (List ℕ) → Option ArpMessage
read_arp (sender ∷ target ∷ (opcode ∷ sender_ip ∷ target_ip ∷ []) ∷ []) =
    some (make_arp opcode sender sender_ip target target_ip)
read_arp other = none

-- Lists of numbers that are read back as they were written.
abbrev simple : Formats
simple = record {
  serialize_datagram = λ d. ok d.payload;
  parse_datagram = λ bytes. ok none;
  serialize_arp = λ m.
      m.sender_ethernet_address
      ∷ m.target_ethernet_address
      ∷ (m.opcode ∷ m.sender_ip_address ∷ m.target_ip_address ∷ [])
      ∷ [];
  parse_arp = λ bytes. ok (read_arp bytes);
  compute_checksum = λ h. ok h;
}

abbrev mac_a : EthernetAddress
mac_a = 2 ∷ 0 ∷ 0 ∷ 0 ∷ 0 ∷ 1 ∷ []

abbrev mac_b : EthernetAddress
mac_b = 2 ∷ 0 ∷ 0 ∷ 0 ∷ 0 ∷ 2 ∷ []

abbrev header : Ipv4Header
header = record {
  ver = 4;
  hlen = 5;
  tos = 0;
  len = 21;
  id = 0;
  df = true;
  mf = false;
  offset = 0;
  ttl = 128;
  proto = 6;
  cksum = 0;
  src = 1;
  dst = 2;
}

abbrev datagram : ℕ → Ipv4Datagram
datagram byte = record { header = header; payload = (byte ∷ []) ∷ [] }

abbrev fresh : NetworkInterface
fresh = record {
  ethernet_address = mac_a;
  ip_address = 1;
  maybe_send_queue = [];
  ip_addr_to_ethernet_datagram_queue = [];
  ip_addr_to_ethernet_addr = [];
}

-- One address was asked for a while ago, another is known for 29 seconds.
abbrev busy : NetworkInterface
busy = record fresh {
  ip_addr_to_ethernet_datagram_queue = (7, record { dgrams = datagram 1 ∷ []; age = 6000 }) ∷ [];
  ip_addr_to_ethernet_addr = (2, record { mac = mac_b; age = 29000 }) ∷ [];
}

abbrev answer : ArpMessage
answer = record {
  hardware_type = 1;
  protocol_type = 0x800;
  hardware_address_size = 6;
  protocol_address_size = 4;
  opcode = 2;
  sender_ethernet_address = mac_b;
  sender_ip_address = 2;
  target_ethernet_address = mac_a;
  target_ip_address = 1;
}

abbrev answer_frame : EthernetFrame
answer_frame = record {
  header = record { dst = mac_a; src = mac_b; type = 0x806 };
  payload = simple.serialize_arp answer;
}

answer_read : simple.parse_arp answer_frame.payload ≡ ok (some answer)
unfolding make_arp default_arp
answer_read = refl

tick_expires_example : lookup 2 (tick 1000 busy).ip_addr_to_ethernet_addr ≡ none
tick_expires_example = tick_expires 1000 2 busy (refl, tt)

recv_frame-Learns_example :
    ((frames : List EthernetFrame)
      → released_by simple answer fresh ≡ ok frames
      → (i' : NetworkInterface) × (recv_frame simple answer_frame fresh ≡ ok (none, i'))
        × Learns simple answer frames fresh i')
    × ((fault : Fault)
        → released_by simple answer fresh ≡ err fault
        → recv_frame simple answer_frame fresh ≡ err fault)
unfolding is_for same_address
recv_frame-Learns_example = recv_frame-Learns simple answer_frame answer fresh refl refl answer_read

second_datagram_lost_example :
    (send_datagram simple (datagram 1) 9 busy >>= send_datagram simple (datagram 2) 9)
    ≡ send_datagram simple (datagram 1) 9 busy
second_datagram_lost_example =
    second_datagram_lost simple 9 busy (datagram 1) (datagram 2) refl refl

requests_repeat_example :
    (send_datagram simple (datagram 2) 7 busy >>= send_datagram simple (datagram 3) 7)
    ≡ ok (enqueue (arp_request simple 7 busy ∷ arp_request simple 7 busy ∷ []) busy)
requests_repeat_example =
    requests_repeat simple 7 busy (datagram 2) (datagram 3)
      (record { dgrams = datagram 1 ∷ []; age = 6000 }) refl refl (omega arith)

-- A frame with a datagram's payload from the first address to the second.
abbrev sent_frame : ℕ → EthernetFrame
sent_frame byte = record {
  header = record { dst = mac_b; src = mac_a; type = 0x800 };
  payload = (byte ∷ []) ∷ [];
}

send-reply_example :
    (s : NetworkInterface) × (i : NetworkInterface) × (send_datagram simple (datagram 1) 2 fresh
      ≡ ok s)
    × (recv_frame simple answer_frame s ≡ ok (none, i))
    × (i.maybe_send_queue ≡ arp_request simple 2 fresh ∷ sent_frame 1 ∷ [])
    × (send_datagram simple (datagram 2) 2 i ≡ ok (enqueue (sent_frame 2 ∷ []) i))
unfolding is_for same_address
send-reply_example =
    send-reply simple fresh (datagram 1) (datagram 2) ((1 ∷ []) ∷ []) ((2 ∷ []) ∷ []) answer_frame
      answer refl refl refl refl answer_read refl refl

run-IsInterface_example : OnReturn IsInterface (
    run simple (new mac_a 1) (
      sends (datagram 1) 2
      ∷ receives answer_frame
      ∷ takes
      ∷ ticks 30000
      ∷ sends (datagram 2) 2
      ∷ []))
run-IsInterface_example =
    run-IsInterface simple mac_a 1 (
      sends (datagram 1) 2
      ∷ receives answer_frame
      ∷ takes
      ∷ ticks 30000
      ∷ sends (datagram 2) 2
      ∷ [])

-- Another interface on the same link.
abbrev neighbour : NetworkInterface
neighbour = record fresh { ethernet_address = mac_b; ip_address = 2 }

fresh-IsAddressed : IsAddressed fresh
fresh-IsAddressed = record {
  ethernet = record { six = refl; bytes = omega arith };
  ip = omega arith;
}

neighbour-IsAddressed : IsAddressed neighbour
neighbour-IsAddressed = record {
  ethernet = record { six = refl; bytes = omega arith };
  ip = omega arith;
}

-- The bytes of the datagram with byte 9.
abbrev written : List (List ℕ)
written =
    (0x45 ∷ 0 ∷ 0 ∷ 21 ∷ 0 ∷ 0 ∷ 0x40 ∷ 0 ∷ 128 ∷ 6 ∷ 0 ∷ 0 ∷ 0 ∷ 0 ∷ 0 ∷ 1 ∷ 0 ∷ 0 ∷ 0 ∷ 2 ∷ [])
    ∷ (9 ∷ [])
    ∷ []
    ∷ []

is_written : wire_formats.serialize_datagram (datagram 9) ≡ ok written
unfolding wire_formats Ipv4.serialize_buffers Ipv4.serialize_header Serializer.finished
    Serializer.push_buffers Serializer.integer Serializer.new
is_written = refl

arp_exchange_example :
    (reply : EthernetFrame) × ((j : NetworkInterface) × (recv_frame wire_formats
          (arp_request wire_formats 2 fresh)
          neighbour
        ≡ ok (none, j))
      × (j.maybe_send_queue ≡ reply ∷ []))
    × (s : NetworkInterface) × (i : NetworkInterface) × (send_datagram wire_formats
          (datagram 9)
          2
          fresh
        ≡ ok s)
    × (recv_frame wire_formats reply s ≡ ok (none, i))
    × (i.maybe_send_queue
        ≡ arp_request wire_formats 2 fresh
          ∷ record { header = record { dst = mac_b; src = mac_a; type = 0x800 }; payload = written }
          ∷ [])
unfolding frames_of
arp_exchange_example =
    arp_exchange fresh neighbour fresh-IsAddressed neighbour-IsAddressed (datagram 9) written []
      refl refl is_written refl
