-- ===== src/Frames/Tests.antt =====
-- The formats at concrete messages.
use os_stream_socket.Base.{◌≡◌, refl, [], ◌∷◌, true, false, ok, some, ◌>>=◌, arith}
use os_stream_socket.Serializer
use os_stream_socket.Checksum
use os_stream_socket.Frames.{EthernetAddress, EthernetFrame, ArpMessage, Ipv4Header}
use os_stream_socket.Frames.Arp
use os_stream_socket.Frames.Arp.RoundTrip.{IsAddress, IsArp, parse-serialize_arp}
use os_stream_socket.Frames.Ethernet
use os_stream_socket.Frames.Ethernet.RoundTrip.{parse-serialize_frame}
use os_stream_socket.Frames.Ipv4
use os_stream_socket.Frames.Ipv4.RoundTrip.{parse-serialize_ipv4}

abbrev mac : EthernetAddress
mac = 2 ∷ 0 ∷ 0 ∷ 0 ∷ 0 ∷ 1 ∷ []

mac-IsAddress : IsAddress mac
mac-IsAddress = record { six = refl; bytes = omega arith }

-- A request for 10.0.0.2.
abbrev request : ArpMessage
request = record {
  hardware_type = 1;
  protocol_type = 0x800;
  hardware_address_size = 6;
  protocol_address_size = 4;
  opcode = 1;
  sender_ethernet_address = mac;
  sender_ip_address = 0x0a000001;
  target_ethernet_address = 0 ∷ 0 ∷ 0 ∷ 0 ∷ 0 ∷ 0 ∷ [];
  target_ip_address = 0x0a000002;
}

request-IsArp : IsArp request
unfolding Arp.supported
request-IsArp = record {
  allowed = refl;
  sender = mac-IsAddress;
  sender_ip = omega arith;
  target = record { six = refl; bytes = omega arith };
  target_ip = omega arith;
}

parse-serialize_arp_example :
    (Arp.serialize_buffers request >>= Arp.parse_buffers) ≡ ok (some request)
parse-serialize_arp_example = parse-serialize_arp request request-IsArp

abbrev frame : EthernetFrame
frame = record {
  header = record { dst = mac; src = mac; type = 0x800 };
  payload = (1 ∷ 2 ∷ []) ∷ (3 ∷ []) ∷ [];
}

parse-serialize_frame_example :
    Ethernet.parse_buffers (Ethernet.serialize_buffers frame)
    ≡ ok (some (record { header = frame.header; payload = (1 ∷ 2 ∷ []) ∷ [] ∷ (3 ∷ []) ∷ [] ∷ [] }))
unfolding Ethernet.RoundTrip.wire Ipv4.RoundTrip.wire
parse-serialize_frame_example =
    parse-serialize_frame frame
      (record { dst = mac-IsAddress; src = mac-IsAddress; type = omega arith }) (omega arith)

-- Two bytes from 10.0.0.1 to 10.0.0.2.
abbrev header : Ipv4Header
header = record {
  ver = 4;
  hlen = 5;
  tos = 0;
  len = 22;
  id = 0;
  df = true;
  mf = false;
  offset = 0;
  ttl = 128;
  proto = 6;
  cksum = 0;
  src = 0x0a000001;
  dst = 0x0a000002;
}

abbrev sealed_header : Ipv4Header
sealed_header = record header { cksum = 59103 }

sealed_header-sealed : Ipv4.compute_checksum sealed_header ≡ ok sealed_header
unfolding Ipv4.compute_checksum Ipv4.serialize_header Ipv4.fields Ipv4.first_byte Ipv4.fo_val
    Serializer.new Serializer.integer Serializer.finished Serializer.flush Checksum.value
    Checksum.fold Checksum.add_all Checksum.add Checksum.add_byte Checksum.new
sealed_header-sealed = refl

parse-serialize_ipv4_example :
    (Ipv4.serialize_buffers (record { header = sealed_header; payload = (5 ∷ 6 ∷ []) ∷ [] })
      >>= Ipv4.parse_buffers)
    ≡ ok (some (record { header = sealed_header; payload = (5 ∷ 6 ∷ []) ∷ [] ∷ [] }))
unfolding Ethernet.RoundTrip.wire Ipv4.RoundTrip.wire
parse-serialize_ipv4_example =
    parse-serialize_ipv4 (record { header = sealed_header; payload = (5 ∷ 6 ∷ []) ∷ [] })
      (record {
        ver = refl;
        hlen = refl;
        tos = omega arith;
        len = omega arith;
        id = omega arith;
        offset = omega arith;
        ttl = omega arith;
        proto = omega arith;
        cksum = omega arith;
        src = omega arith;
        dst = omega arith;
        sealed = sealed_header-sealed;
      })
      (omega arith)
