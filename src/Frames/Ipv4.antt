-- ===== src/Frames/Ipv4.antt =====
-- Reading and writing IPv4 headers and datagrams: util/ipv4_header.cc, util/ipv4_datagram.hh. Shifts
-- and masks of single fields are written as products, quotients and remainders.
pub mod RoundTrip
pub mod Seal
use os_stream_socket.Base.{
  ℕ, ◌+◌, ◌-◌, ◌*◌, ◌/◌, ◌%◌, ◌^◌, List, [], Bool, true, false, not, ◌||◌, ◌==◌, ltb, if◌then◌else◌,
  Option, none, some, add32, sub64, Outcome, ok, err, runtime_error, ◌>>=◌,
}
use os_stream_socket.Parser.{Parser, set_error, integer, skip_prefix, all_remaining}
use os_stream_socket.Parser
use os_stream_socket.Serializer.{Serializer, push_buffers, finished}
use os_stream_socket.Serializer
use os_stream_socket.Checksum
use os_stream_socket.Frames.{Ipv4Header, Ipv4Datagram}

-- A header with the fields' defaults.
unfoldable pub default_header : Ipv4Header
default_header = record {
  ver = 4;
  hlen = 5;
  tos = 0;
  len = 0;
  id = 0;
  df = true;
  mf = false;
  offset = 0;
  ttl = 128;
  proto = 6;
  cksum = 0;
  src = 0;
  dst = 0;
}

abbrev pub proto_tcp : ℕ
proto_tcp = 6

-- The version and the header length in one byte, and the flags and the offset in two.
unfoldable pub first_byte : Ipv4Header → ℕ
first_byte h = (h.ver * 2 ^ 4 + h.hlen % 2 ^ 4) % 2 ^ 8

unfoldable pub fo_val : Ipv4Header → ℕ
fo_val h = (if h.df then 0x4000 else 0) + (if h.mf then 0x2000 else 0) + h.offset % 0x2000

unfoldable pub fields : Ipv4Header → Serializer → Serializer
unfolding first_byte fo_val
fields h s =
    let s₁ = Serializer.integer 2 h.id (
      Serializer.integer 2 h.len
        (Serializer.integer 1 h.tos (Serializer.integer 1 (first_byte h) s))) in
    let s₂ =
      Serializer.integer 1 h.proto
        (Serializer.integer 1 h.ttl (Serializer.integer 2 (fo_val h) s₁)) in
    Serializer.integer 4 h.dst (Serializer.integer 4 h.src (Serializer.integer 2 h.cksum s₂))

unfoldable pub serialize_header : Ipv4Header → Serializer → Outcome Serializer
unfolding fields
serialize_header h s = if h.ver == 4 then ok (fields h s) else err runtime_error

unfoldable pub payload_length : Ipv4Header → ℕ
payload_length h = (h.len + 2 ^ 32 - 4 * h.hlen) % 2 ^ 32 % 2 ^ 16

unfoldable pub pseudo_checksum : Ipv4Header → ℕ
unfolding payload_length
pseudo_checksum h =
    let addresses = add32 (h.src / 2 ^ 16 + h.src % 2 ^ 16) (h.dst / 2 ^ 16 + h.dst % 2 ^ 16) in
    add32 (add32 addresses h.proto) (payload_length h)

unfoldable pub compute_checksum : Ipv4Header → Outcome Ipv4Header
unfolding serialize_header
compute_checksum h = serialize_header (record h { cksum = 0 }) Serializer.new >>= λ s.
    Checksum.value (Checksum.add_all (finished s) (Checksum.new 0)) >>= λ cksum.
    ok (record h { cksum = cksum })

-- The options are skipped and the checksum is verified, unless there is an error already.
unfoldable pub verify : Bool → Ipv4Header → Parser → Outcome (Ipv4Header × Parser)
unfolding compute_checksum
verify true h p = ok (h, p)
verify false h p = skip_prefix (h.hlen * 4 - 20) p >>= λ p'.
    compute_checksum h >>= λ h'. ok (h', if h'.cksum == h.cksum then p' else set_error p')

unfoldable pub check_fields : Ipv4Header → Parser → Parser
check_fields h p = if not (h.ver == 4) || ltb h.hlen 5 then set_error p else p

-- The fields of the first byte and of the flags.
unfoldable pub unpack : ℕ → ℕ → Ipv4Header → Ipv4Header
unpack first fo h = record h {
  ver = first / 2 ^ 4;
  hlen = first % 2 ^ 4;
  df = fo / 0x4000 % 2 == 1;
  mf = fo / 0x2000 % 2 == 1;
  offset = fo % 0x2000;
}

unfoldable pub parse_header : Ipv4Header → Parser → Outcome (Ipv4Header × Parser)
unfolding verify check_fields
parse_header h p = integer 1 0 p >>= λ (first, p₁). integer 1 h.tos p₁ >>= λ (tos, p₂).
    integer 2 h.len p₂ >>= λ (len, p₃). integer 2 h.id p₃ >>= λ (id, p₄).
    integer 2 0 p₄ >>= λ (fo, p₅). integer 1 h.ttl p₅ >>= λ (ttl, p₆).
    integer 1 h.proto p₆ >>= λ (proto, p₇). integer 2 h.cksum p₇ >>= λ (cksum, p₈).
    integer 4 h.src p₈ >>= λ (src, p₉). integer 4 h.dst p₉ >>= λ (dst, p₁₀).
    (let h' = unpack first fo (record h {
      tos = tos;
      len = len;
      id = id;
      ttl = ttl;
      proto = proto;
      cksum = cksum;
      src = src;
      dst = dst;
    }) in
      verify (check_fields h' p₁₀).error h' (check_fields h' p₁₀))

unfoldable pub parse_datagram : Ipv4Datagram → Parser → Outcome (Ipv4Datagram × Parser)
parse_datagram d p = parse_header d.header p >>= λ (header, p₁).
    all_remaining p₁ >>= λ payload. ok (record { header = header; payload = payload }, p₁)

unfoldable pub serialize_datagram : Ipv4Datagram → Serializer → Outcome Serializer
serialize_datagram d s = serialize_header d.header s >>= λ s'. ok (push_buffers d.payload s')

-- `parse( dgram, buffers )` of a new datagram: nothing, if the parser has an error in the end.
unfoldable pub parse_buffers : List (List ℕ) → Outcome (Option Ipv4Datagram)
unfolding default_header parse_datagram
parse_buffers buffers =
    parse_datagram (record { header = default_header; payload = [] }) (Parser.new buffers)
    >>= λ (d, p). ok (if p.error then none else some d)

-- `serialize( dgram )`
unfoldable pub serialize_buffers : Ipv4Datagram → Outcome (List (List ℕ))
unfolding serialize_datagram
serialize_buffers d = serialize_datagram d Serializer.new >>= λ s. ok (finished s)
