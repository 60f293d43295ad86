-- ===== src/TcpSegment/Tests.antt =====
-- A segment with a FIN and two bytes.
use os_stream_socket.Base.{◌≡◌, refl, [], ◌∷◌, ok, some, true, false, arith}
use os_stream_socket.Checksum
use os_stream_socket.TcpSegment.{
  TcpSegment, serialize_buffers, parse_buffers, flags, raw_ackno, flag_bit, has_ackno,
}
use os_stream_socket.TcpSegment.RoundTrip.{IsSegment, IsSealed, wire, parse-serialize_segment}

abbrev last_two : TcpSegment
last_two = record {
  sender_message = record {
    seqno = record { raw_value = 5 };
    syn = false;
    payload = 104 ∷ 105 ∷ [];
    fin = true;
  };
  receiver_message = record { ackno = some (record { raw_value = 9 }); window_size = 100 };
  reset = false;
  udinfo = record { src_port = 7; dst_port = 80; cksum = 18096 };
}

last_two-IsSegment : IsSegment last_two
last_two-IsSegment = record {
  src_port = omega arith;
  dst_port = omega arith;
  cksum = omega arith;
  seqno = omega arith;
  ackno = omega arith;
  window_size = omega arith;
  payload = omega arith;
  short = omega arith;
}

parse-serialize_segment_example : parse_buffers 12 (serialize_buffers last_two) ≡ ok (some last_two)
unfolding IsSealed wire flags raw_ackno flag_bit has_ackno Checksum.value Checksum.fold Checksum.add
    Checksum.add_byte Checksum.new
parse-serialize_segment_example = parse-serialize_segment last_two 12 last_two-IsSegment refl
