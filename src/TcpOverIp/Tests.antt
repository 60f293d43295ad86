-- ===== src/TcpOverIp/Tests.antt =====
-- Two adapters, and one that listens.
use os_stream_socket.Base.{◌≡◌, refl, ap, [], ◌∷◌, Bool, ok, some, none, true, false, arith, ◌>>=◌}
use os_stream_socket.Checksum
use os_stream_socket.TcpSegment
use os_stream_socket.TcpSegment.{
  TcpSegment, serialize_buffers, parse_buffers, flags, raw_ackno, flag_bit, has_ackno,
}
use os_stream_socket.TcpSegment.RoundTrip.{IsSegment, IsSealed, parse-serialize_segment}
use os_stream_socket.Frames.{Ipv4Datagram}
use os_stream_socket.Frames.Ipv4
use os_stream_socket.TcpOverIp.{
  Address, FdAdapterBase, wrap_tcp_in_ip, unwrap_tcp_in_ip, is_wanted, take_segment, connect,
  from_peer, answer,
}
use os_stream_socket.TcpOverIp.Wrap.{IsAddress, Carries}
use os_stream_socket.TcpOverIp.RoundTrip.{
  IsPeer, unwrap_tcp_in_ip-wrap_tcp_in_ip, unwrap_tcp_in_ip-wrap_tcp_in_ip_syn,
}
use os_stream_socket.TcpOverIp.Filter.{IsFromPeer, IsKeptOrOpened, unwrap-IsFromPeer}

abbrev client_address : Address
client_address = record { ipv4_numeric = 0x0a000001; port = 7000 }

abbrev server_address : Address
server_address = record { ipv4_numeric = 0x0a000002; port = 80 }

abbrev adapter : Address → Address → Bool → FdAdapterBase
adapter source destination listen = record {
  cfg = record { source = source; destination = destination; loss_rate_dn = 0; loss_rate_up = 0 };
  listen = listen;
}

abbrev client : FdAdapterBase
client = adapter client_address server_address false

abbrev server : FdAdapterBase
server = adapter server_address client_address false

abbrev listener : FdAdapterBase
listener =
    adapter (record { ipv4_numeric = 0; port = 80 }) (record { ipv4_numeric = 0; port = 0 }) true

-- The SYN.
abbrev opening : TcpSegment
opening = record {
  sender_message = record {
    seqno = record { raw_value = 5 };
    syn = true;
    payload = 1 ∷ 2 ∷ 3 ∷ [];
    fin = false;
  };
  receiver_message = record { ackno = none; window_size = 100 };
  reset = false;
  udinfo = record { src_port = 0; dst_port = 0; cksum = 0 };
}

opening-IsSegment : IsSegment opening
opening-IsSegment = record {
  src_port = omega arith;
  dst_port = omega arith;
  cksum = omega arith;
  seqno = omega arith;
  ackno = tt;
  window_size = omega arith;
  payload = omega arith;
  short = omega arith;
}

client_address-IsAddress : IsAddress client_address
client_address-IsAddress = record { number = omega arith; port = omega arith }

server_address-IsAddress : IsAddress server_address
server_address-IsAddress = record { number = omega arith; port = omega arith }

unwrap_tcp_in_ip-wrap_tcp_in_ip_example :
    (sent : TcpSegment) × (d d' : Ipv4Datagram) × (wrap_tcp_in_ip opening client ≡ ok (sent, d))
    × ((Ipv4.serialize_buffers d >>= Ipv4.parse_buffers) ≡ ok (some d'))
    × (unwrap_tcp_in_ip d' server ≡ ok (some sent, server))
    × Carries opening client sent d
unwrap_tcp_in_ip-wrap_tcp_in_ip_example =
    unwrap_tcp_in_ip-wrap_tcp_in_ip opening client server opening-IsSegment client_address-IsAddress
      server_address-IsAddress (record { connected = refl; source = refl; destination = refl })

unwrap_tcp_in_ip-wrap_tcp_in_ip_syn_example :
    (sent : TcpSegment) × (d d' : Ipv4Datagram) × (b' : FdAdapterBase) × (wrap_tcp_in_ip opening
        client
      ≡ ok (sent, d))
    × ((Ipv4.serialize_buffers d >>= Ipv4.parse_buffers) ≡ ok (some d'))
    × (unwrap_tcp_in_ip d' listener ≡ ok (some sent, b'))
    × IsPeer client b'
    × IsPeer b' client
unwrap_tcp_in_ip-wrap_tcp_in_ip_syn_example =
    unwrap_tcp_in_ip-wrap_tcp_in_ip_syn opening client listener opening-IsSegment
      client_address-IsAddress server_address-IsAddress (record { listening = refl; port = refl })
      refl refl

-- The SYN as it arrives.
abbrev arrived : TcpSegment
arrived = record opening { udinfo = record { src_port = 7000; dst_port = 80; cksum = 31690 } }

abbrev datagram : Ipv4Datagram
datagram = record {
  header = record {
    ver = 4;
    hlen = 5;
    tos = 0;
    len = 43;
    id = 0;
    df = true;
    mf = false;
    offset = 0;
    ttl = 128;
    proto = 6;
    cksum = 0;
    src = 0x0a000001;
    dst = 0x0a000002;
  };
  payload = serialize_buffers arrived;
}

arrived-IsSegment : IsSegment arrived
arrived-IsSegment = record {
  src_port = omega arith;
  dst_port = omega arith;
  cksum = omega arith;
  seqno = omega arith;
  ackno = tt;
  window_size = omega arith;
  payload = omega arith;
  short = omega arith;
}

datagram_read :
    parse_buffers (Ipv4.pseudo_checksum datagram.header) datagram.payload ≡ ok (some arrived)
unfolding IsSealed TcpSegment.RoundTrip.wire flags raw_ackno flag_bit has_ackno Checksum.value
    Checksum.fold Checksum.add Checksum.add_byte Checksum.new Ipv4.pseudo_checksum
    Ipv4.payload_length
datagram_read = parse-serialize_segment arrived 5152 arrived-IsSegment refl

unwrap_arrived : unwrap_tcp_in_ip datagram listener ≡ ok (some arrived, server)
unfolding unwrap_tcp_in_ip is_wanted take_segment connect from_peer answer
unwrap_arrived = ap (λ o. o >>= λ s. ok (take_segment s datagram.header listener)) datagram_read

unwrap-IsFromPeer_example :
    IsFromPeer datagram.header arrived server
    × IsKeptOrOpened datagram.header arrived listener server
unwrap-IsFromPeer_example = unwrap-IsFromPeer datagram arrived listener server unwrap_arrived
