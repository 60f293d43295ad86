-- ===== src/Router/Tests.antt =====
-- The router at concrete inputs.
use os_stream_socket.Base.{◌≡◌, refl, List, [], ◌∷◌, ok, false, none, some}
use os_stream_socket.Base.{true}
use os_stream_socket.Router.{
  Router, RouteRecord, route_record, nothing_found, found, matches, choose, pos, negsuc, to_int,
  is_minus_one,
}
use os_stream_socket.Frames.{Formats, Ipv4Datagram}
use os_stream_socket.NetworkInterface

-- 10.0.0.0/8 to the first interface, 10.1.0.0/16 to the second, and everything to the third.
abbrev table : List RouteRecord
unfolding route_record
table =
    route_record 0x0a000000 8 none 0
    ∷ route_record 0x0a010000 16 (some 5) 1
    ∷ route_record 0 0 none 2
    ∷ []

chosen : (choose 0x0a010203 table nothing_found).interface_num ≡ pos 1
unfolding table choose nothing_found found matches route_record to_int
chosen = refl

unrouted : is_minus_one (choose 7 [] nothing_found).interface_num ≡ is_minus_one (negsuc 0)
unfolding choose nothing_found
unrouted = refl

-- A prefix whose bits behind the prefix length are not clear matches no destination.
low_bits_set : matches 0x801e0101 (route_record 0x801e4cff 16 none 0) ≡ false
unfolding matches route_record
low_bits_set = refl

abbrev simple : Formats
simple = record {
  serialize_datagram = λ d. ok d.payload;
  parse_datagram = λ bytes. ok none;
  serialize_arp = λ m. [];
  parse_arp = λ bytes. ok none;
  compute_checksum = λ h. ok h;
}

abbrev datagram : Ipv4Datagram
datagram = record {
  header = record {
    ver = 4;
    hlen = 5;
    tos = 0;
    len = 20;
    id = 0;
    df = true;
    mf = false;
    offset = 0;
    ttl = 64;
    proto = 6;
    cksum = 0;
    src = 1;
    dst = 0x0a010203;
  };
  payload = [];
}

-- One interface, and one entry that matches everything.
abbrev one_way : Router
one_way = record {
  interfaces =
      record { interface = NetworkInterface.new (2 ∷ 0 ∷ 0 ∷ 0 ∷ 0 ∷ 1 ∷ []) 1; datagrams_in = [] }
      ∷ [];
  route_table =
      record { mask = 0; route_prefix = 0; prefix_length = 0; next_hop = some 9; interface_num = 0 }
      ∷ [];
}
