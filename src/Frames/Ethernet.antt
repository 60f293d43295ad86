-- ===== src/Frames/Ethernet.antt =====
-- Reading and writing Ethernet headers and frames: util/ethernet_header.cc, util/ethernet_frame.hh.
pub mod RoundTrip
use os_stream_socket.Base.{
  ℕ, List, [], Bool, true, false, Option, none, some, replicate, if◌then◌else◌, Outcome, ok, ◌>>=◌,
}
use os_stream_socket.Parser.{Parser, integer, integers, all_remaining}
use os_stream_socket.Parser
use os_stream_socket.Serializer.{Serializer, push_buffers, finished}
use os_stream_socket.Serializer
use os_stream_socket.Frames.{EthernetHeader, EthernetFrame}

unfoldable pub parse_header : EthernetHeader → Parser → Outcome (EthernetHeader × Parser)
parse_header h p = integers h.dst p >>= λ (dst, p₁). integers h.src p₁ >>= λ (src, p₂).
    integer 2 h.type p₂ >>= λ (type, p₃). ok (record { dst = dst; src = src; type = type }, p₃)

unfoldable pub serialize_header : EthernetHeader → Serializer → Serializer
serialize_header h s =
    Serializer.integer 2 h.type (Serializer.integers h.src (Serializer.integers h.dst s))

unfoldable pub parse_frame : EthernetFrame → Parser → Outcome (EthernetFrame × Parser)
unfolding parse_header
parse_frame f p = parse_header f.header p >>= λ (header, p₁).
    all_remaining p₁ >>= λ payload. ok (record { header = header; payload = payload }, p₁)

unfoldable pub serialize_frame : EthernetFrame → Serializer → Serializer
unfolding serialize_header
serialize_frame f s = push_buffers f.payload (serialize_header f.header s)

unfoldable pub empty_frame : EthernetFrame
empty_frame = record {
  header = record { dst = replicate 6 0; src = replicate 6 0; type = 0 };
  payload = [];
}

-- `parse( frame, buffers )` of a new frame: nothing, if the parser has an error in the end.
unfoldable pub parse_buffers : List (List ℕ) → Outcome (Option EthernetFrame)
unfolding empty_frame parse_frame
parse_buffers buffers =
    parse_frame empty_frame (Parser.new buffers) >>= λ (f, p). ok (if p.error then none else some f)

-- `serialize( frame )`
unfoldable pub serialize_buffers : EthernetFrame → List (List ℕ)
unfolding serialize_frame
serialize_buffers f = finished (serialize_frame f Serializer.new)
