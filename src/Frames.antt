-- ===== src/Frames.antt =====
-- The messages of the link and internet layers: util/ethernet_header.hh, util/ethernet_frame.hh,
-- util/arp_message.hh, util/ipv4_header.hh and util/ipv4_datagram.hh. A `Buffer` is the list of its
-- bytes. `Formats` is what the layers above use of the readers and writers of these messages.
pub mod Arp
pub mod Ethernet
pub mod Ipv4
pub mod Wire
mod Tests
use os_stream_socket.Base.{
  ℕ, List, [], ◌∷◌, Bool, true, false, ◌&&◌, Option, ◌==◌, replicate, Outcome,
}

-- Six bytes.
abbrev pub EthernetAddress : Type 0
EthernetAddress = List ℕ

abbrev pub ethernet_broadcast : EthernetAddress
ethernet_broadcast = replicate 6 0xff

-- The comparison of two arrays of bytes.
unfoldable pub same_address : EthernetAddress → EthernetAddress → Bool
same_address [] [] = true
same_address [] (y ∷ ys) = false
same_address (x ∷ xs) [] = false
same_address (x ∷ xs) (y ∷ ys) = (x == y) && same_address xs ys

abbrev pub type_ipv4 : ℕ
type_ipv4 = 0x800

abbrev pub type_arp : ℕ
type_arp = 0x806

pub record EthernetHeader : Type 0 where
  pub dst : EthernetAddress
  pub src : EthernetAddress
  pub type : ℕ

pub record EthernetFrame : Type 0 where
  pub header : EthernetHeader
  pub payload : List (List ℕ)

abbrev pub type_ethernet : ℕ
type_ethernet = 1

abbrev pub opcode_request : ℕ
opcode_request = 1

abbrev pub opcode_reply : ℕ
opcode_reply = 2

pub record ArpMessage : Type 0 where
  pub hardware_type : ℕ
  pub protocol_type : ℕ
  pub hardware_address_size : ℕ
  pub protocol_address_size : ℕ
  pub opcode : ℕ
  pub sender_ethernet_address : EthernetAddress
  pub sender_ip_address : ℕ
  pub target_ethernet_address : EthernetAddress
  pub target_ip_address : ℕ

-- A message with the fields' defaults.
unfoldable pub default_arp : ArpMessage
default_arp = record {
  hardware_type = type_ethernet;
  protocol_type = type_ipv4;
  hardware_address_size = 6;
  protocol_address_size = 4;
  opcode = 0;
  sender_ethernet_address = replicate 6 0;
  sender_ip_address = 0;
  target_ethernet_address = replicate 6 0;
  target_ip_address = 0;
}

pub record Ipv4Header : Type 0 where
  pub ver : ℕ
  pub hlen : ℕ
  pub tos : ℕ
  pub len : ℕ
  pub id : ℕ
  pub df : Bool
  pub mf : Bool
  pub offset : ℕ
  pub ttl : ℕ
  pub proto : ℕ
  pub cksum : ℕ
  pub src : ℕ
  pub dst : ℕ

pub record Ipv4Datagram : Type 0 where
  pub header : Ipv4Header
  pub payload : List (List ℕ)

pub record Formats : Type 0 where
  pub serialize_datagram : Ipv4Datagram → Outcome (List (List ℕ))
  pub parse_datagram : List (List ℕ) → Outcome (Option Ipv4Datagram)
  pub serialize_arp : ArpMessage → List (List ℕ)
  pub parse_arp : List (List ℕ) → Outcome (Option ArpMessage)
  pub compute_checksum : Ipv4Header → Outcome Ipv4Header
