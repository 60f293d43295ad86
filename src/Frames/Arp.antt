-- ===== src/Frames/Arp.antt =====
-- Reading and writing ARP messages: util/arp_message.cc.
pub mod RoundTrip
use os_stream_socket.Base.{
  ℕ, List, Bool, true, false, ◌&&◌, ◌||◌, ◌==◌, Option, none, some, if◌then◌else◌, Outcome, ok, err,
  runtime_error, ◌>>=◌,
}
use os_stream_socket.Parser.{Parser, set_error, integer, integers}
use os_stream_socket.Parser
use os_stream_socket.Serializer.{Serializer, finished}
use os_stream_socket.Serializer
use os_stream_socket.Frames.{
  ArpMessage, default_arp, type_ethernet, type_ipv4, opcode_request, opcode_reply,
}

unfoldable pub supported : ArpMessage → Bool
supported m =
    (m.hardware_type == type_ethernet)
    && (m.protocol_type == type_ipv4)
    && (m.hardware_address_size == 6)
    && (m.protocol_address_size == 4)
    && ((m.opcode == opcode_request) || (m.opcode == opcode_reply))

-- The addresses are read only if the fields before them are supported.
unfoldable pub parse_addresses : Bool → ArpMessage → Parser → Outcome (ArpMessage × Parser)
parse_addresses false m p = ok (m, set_error p)
parse_addresses true m p = integers m.sender_ethernet_address p >>= λ (sender_mac, p₁).
    integer 4 m.sender_ip_address p₁ >>= λ (sender_ip, p₂).
    integers m.target_ethernet_address p₂ >>= λ (target_mac, p₃).
    integer 4 m.target_ip_address p₃ >>= λ (target_ip, p₄). ok (
      record m {
        sender_ethernet_address = sender_mac;
        sender_ip_address = sender_ip;
        target_ethernet_address = target_mac;
        target_ip_address = target_ip;
      },
      p₄,
    )

unfoldable pub parse : ArpMessage → Parser → Outcome (ArpMessage × Parser)
unfolding supported parse_addresses
parse m p = integer 2 m.hardware_type p >>= λ (hardware_type, p₁).
    integer 2 m.protocol_type p₁ >>= λ (protocol_type, p₂).
    integer 1 m.hardware_address_size p₂ >>= λ (hardware_size, p₃).
    integer 1 m.protocol_address_size p₃ >>= λ (protocol_size, p₄).
    integer 2 m.opcode p₄ >>= λ (opcode, p₅).
    (let m' = record m {
      hardware_type = hardware_type;
      protocol_type = protocol_type;
      hardware_address_size = hardware_size;
      protocol_address_size = protocol_size;
      opcode = opcode;
    } in
      parse_addresses (supported m') m' p₅)

unfoldable pub fields : ArpMessage → Serializer → Serializer
fields m s =
    let s₁ = Serializer.integer 1 m.protocol_address_size (
      Serializer.integer 1 m.hardware_address_size
        (Serializer.integer 2 m.protocol_type (Serializer.integer 2 m.hardware_type s))) in
    let s₂ =
      Serializer.integer 4 m.sender_ip_address
        (Serializer.integers m.sender_ethernet_address (Serializer.integer 2 m.opcode s₁)) in
    Serializer.integer 4 m.target_ip_address (Serializer.integers m.target_ethernet_address s₂)

unfoldable pub serialize : ArpMessage → Serializer → Outcome Serializer
unfolding supported fields
serialize m s = if supported m then ok (fields m s) else err runtime_error

-- `parse( msg, buffers )` of a new message: nothing, if the parser has an error in the end.
unfoldable pub parse_buffers : List (List ℕ) → Outcome (Option ArpMessage)
unfolding default_arp
parse_buffers buffers =
    parse default_arp (Parser.new buffers) >>= λ (m, p). ok (if p.error then none else some m)

-- `serialize( msg )`
unfoldable pub serialize_buffers : ArpMessage → Outcome (List (List ℕ))
serialize_buffers m = serialize m Serializer.new >>= λ s. ok (finished s)
