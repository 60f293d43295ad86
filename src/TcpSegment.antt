-- ===== src/TcpSegment.antt =====
-- TCP segments and their form in bytes: util/tcp_segment.hh, util/tcp_segment.cc, util/udinfo.hh.
-- Flags are single bits of one byte, written as quotients and remainders.
pub mod RoundTrip
pub mod Seal
mod Tests
use os_stream_socket.Base.{
  ℕ, ◌+◌, ◌*◌, ◌/◌, ◌%◌, ◌^◌, List, [], Bool, true, false, ◌==◌, ltb, if◌then◌else◌, Option, none,
  some, sub32, Outcome, ok, ◌>>=◌,
}
use os_stream_socket.WrappingIntegers.{Wrap32}
use os_stream_socket.TcpMessages.{TcpSenderMessage, TcpReceiverMessage, default_message}
use os_stream_socket.Parser.{Parser, set_error, integer, skip_prefix, remaining_string}
use os_stream_socket.Parser
use os_stream_socket.Serializer.{Serializer, push_buffer, finished}
use os_stream_socket.Serializer
use os_stream_socket.Checksum

pub record UserDatagramInfo : Type 0 where
  pub src_port : ℕ
  pub dst_port : ℕ
  pub cksum : ℕ

pub record TcpSegment : Type 0 where
  pub sender_message : TcpSenderMessage
  pub receiver_message : TcpReceiverMessage
  pub reset : Bool
  pub udinfo : UserDatagramInfo

unfoldable pub default_segment : TcpSegment
unfolding default_message
default_segment = record {
  sender_message = default_message;
  receiver_message = record { ackno = none; window_size = 0 };
  reset = false;
  udinfo = record { src_port = 0; dst_port = 0; cksum = 0 };
}

abbrev pub tcp_header_min_len : ℕ
tcp_header_min_len = 5

unfoldable pub raw_ackno : Option Wrap32 → ℕ
raw_ackno none = 0
raw_ackno (some ackno) = ackno.raw_value

unfoldable pub flag_bit : ℕ → Bool → ℕ
flag_bit weight flag = if flag then weight else 0

unfoldable pub has_ackno : Option Wrap32 → Bool
has_ackno none = false
has_ackno (some ackno) = true

unfoldable pub flags : TcpSegment → ℕ
unfolding flag_bit has_ackno
flags seg =
    flag_bit 16 (has_ackno seg.receiver_message.ackno)
    + flag_bit 4 seg.reset
    + flag_bit 2 seg.sender_message.syn
    + flag_bit 1 seg.sender_message.fin

unfoldable pub fields : TcpSegment → Serializer → Serializer
unfolding raw_ackno flags
fields seg s =
    let s₁ =
      Serializer.integer 4 seg.sender_message.seqno.raw_value
        (Serializer.integer 2 seg.udinfo.dst_port (Serializer.integer 2 seg.udinfo.src_port s)) in
    let s₂ = Serializer.integer 1 (flags seg) (
      Serializer.integer 1 (tcp_header_min_len * 2 ^ 4)
        (Serializer.integer 4 (raw_ackno seg.receiver_message.ackno) s₁)) in
    Serializer.integer 2 0 (
      Serializer.integer 2 seg.udinfo.cksum
        (Serializer.integer 2 seg.receiver_message.window_size s₂))

unfoldable pub serialize : TcpSegment → Serializer → Serializer
unfolding fields
serialize seg s = push_buffer seg.sender_message.payload (fields seg s)

-- `serialize( seg )`
unfoldable pub serialize_buffers : TcpSegment → List (List ℕ)
unfolding serialize
serialize_buffers seg = finished (serialize seg Serializer.new)

unfoldable pub with_cksum : TcpSegment → ℕ → TcpSegment
with_cksum seg cksum = record seg { udinfo = record (seg.udinfo) { cksum = cksum } }

unfoldable pub compute_checksum : ℕ → TcpSegment → Outcome TcpSegment
unfolding with_cksum
compute_checksum pseudo seg =
    Checksum.value (Checksum.add_all (serialize_buffers (with_cksum seg 0)) (Checksum.new pseudo))
    >>= λ cksum. ok (with_cksum seg cksum)

-- The segment that the fields of a header make.
unfoldable pub segment_of :
    (src_port dst_port seqno ackno octet window_size cksum : ℕ) → List ℕ → TcpSegment
segment_of src_port dst_port seqno ackno octet window_size cksum payload = record {
  sender_message = record {
    seqno = record { raw_value = seqno };
    syn = octet / 2 % 2 == 1;
    payload = payload;
    fin = octet % 2 == 1;
  };
  receiver_message = record {
    ackno = (if octet / 16 % 2 == 1 then some (record { raw_value = ackno }) else none);
    window_size = window_size;
  };
  reset = octet / 4 % 2 == 1;
  udinfo = record { src_port = src_port; dst_port = dst_port; cksum = cksum };
}

-- The fields of the header and the payload behind its options.
unfoldable pub parse_fields : TcpSegment → Parser → Outcome (TcpSegment × Parser)
parse_fields seg p = integer 2 seg.udinfo.src_port p >>= λ (src_port, p₁).
    integer 2 seg.udinfo.dst_port p₁ >>= λ (dst_port, p₂). integer 4 0 p₂ >>= λ (seqno, p₃).
    integer 4 seqno p₃ >>= λ (ackno, p₄). integer 1 0 p₄ >>= λ (offset, p₅).
    integer 1 offset p₅ >>= λ (octet, p₆).
    integer 2 seg.receiver_message.window_size p₆ >>= λ (window_size, p₇).
    integer 2 seg.udinfo.cksum p₇ >>= λ (cksum, p₈). integer 2 0 p₈ >>= λ (urgent, p₉).
    (let p' = if ltb (offset / 2 ^ 4) tcp_header_min_len then set_error p₉ else p₉ in
      skip_prefix (sub32 (offset / 2 ^ 4 * 4) (tcp_header_min_len * 4)) p' >>= λ p₁₀.
      remaining_string p₁₀ >>= λ payload.
      ok (segment_of src_port dst_port seqno ackno octet window_size cksum payload, p₁₀))

unfoldable pub parse_if : Bool → TcpSegment → Parser → Outcome (TcpSegment × Parser)
unfolding parse_fields
parse_if true seg p = parse_fields seg p
parse_if false seg p = ok (seg, set_error p)

-- The checksum over all that is left comes first.
unfoldable pub parse : ℕ → TcpSegment → Parser → Outcome (TcpSegment × Parser)
unfolding parse_if
parse pseudo seg p = remaining_string p >>= λ all_remaining.
    Checksum.value (Checksum.add all_remaining (Checksum.new pseudo)) >>= λ cksum.
    parse_if (cksum == 0) seg p

-- `parse( seg, buffers, pseudo )` of a new segment: nothing, if the parser has an error in the end.
unfoldable pub parse_buffers : ℕ → List (List ℕ) → Outcome (Option TcpSegment)
unfolding default_segment parse
parse_buffers pseudo buffers = parse pseudo default_segment (Parser.new buffers) >>= λ (seg, p).
    ok (if p.error then none else some seg)
