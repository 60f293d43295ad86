-- ===== src/NetworkInterface.antt =====
-- The network interface of src/network_interface.hh and src/network_interface.cc. A `map` is the
-- list of its entries, with ages in milliseconds of 32 bits; a `queue` is a list, its front first.
-- An `Address` is its number, which `ipv4_numeric` returns. What throws is an error result; the state that
-- a throw leaves behind is not kept.
pub mod Expiry
pub mod Exchange
pub mod Learn
pub mod Send
pub mod Entries
pub mod Invariant
mod Tests
use os_stream_socket.Base.{
  ℕ, ◌+◌, ◌%◌, ◌^◌, List, [], ◌∷◌, ◌++◌, map, Bool, true, false, ◌&&◌, ◌||◌, Option, none, some,
  leb, ◌==◌, if◌then◌else◌, lookup, assign, erase, replicate, Outcome, ok, ◌>>=◌,
}
use os_stream_socket.Frames.{
  EthernetAddress, ethernet_broadcast, same_address, type_ipv4, type_arp, EthernetHeader,
  EthernetFrame, opcode_request, opcode_reply, ArpMessage, default_arp, Ipv4Datagram, Formats,
}

-- The pair of an address that was learned and the age of the entry.
pub record Learned : Type 0 where
  pub mac : EthernetAddress
  pub age : ℕ

-- The pair of the datagrams that wait for an address and the age of the first request for it.
pub record Waiting : Type 0 where
  pub dgrams : List Ipv4Datagram
  pub age : ℕ

pub record NetworkInterface : Type 0 where
  pub ethernet_address : EthernetAddress
  pub ip_address : ℕ
  pub maybe_send_queue : List EthernetFrame
  pub ip_addr_to_ethernet_datagram_queue : List (ℕ × Waiting)
  pub ip_addr_to_ethernet_addr : List (ℕ × Learned)

unfoldable pub new : EthernetAddress → ℕ → NetworkInterface
new ethernet_address ip_address = record {
  ethernet_address = ethernet_address;
  ip_address = ip_address;
  maybe_send_queue = [];
  ip_addr_to_ethernet_datagram_queue = [];
  ip_addr_to_ethernet_addr = [];
}

unfoldable pub make_frame : EthernetAddress → EthernetAddress → ℕ → List (List ℕ) → EthernetFrame
make_frame src dst type payload = record {
  header = record { dst = dst; src = src; type = type };
  payload = payload;
}

unfoldable pub make_arp : ℕ → EthernetAddress → ℕ → EthernetAddress → ℕ → ArpMessage
unfolding default_arp
make_arp opcode sender_ethernet sender_ip target_ethernet target_ip = record default_arp {
  opcode = opcode;
  sender_ethernet_address = sender_ethernet;
  sender_ip_address = sender_ip;
  target_ethernet_address = target_ethernet;
  target_ip_address = target_ip;
}

-- `maybe_send_queue.push( frame )`
unfoldable pub enqueue : List EthernetFrame → NetworkInterface → NetworkInterface
enqueue frames i = record i { maybe_send_queue = i.maybe_send_queue ++ frames }

-- An age that grows, in 32 bits.
unfoldable pub older : ℕ → ℕ → ℕ
older ms age = (age + ms) % 2 ^ 32

unfoldable pub maybe_send : NetworkInterface → Option EthernetFrame × NetworkInterface
maybe_send i = elim i.maybe_send_queue [
  | [] ↦ (none, i)
  | frame ∷ rest ↦ (some frame, record i { maybe_send_queue = rest })
]

-- The first loop of `tick`: the entries with their new ages, and the addresses that expire.
unfoldable pub age_addresses : ℕ → List (ℕ × Learned) → List (ℕ × Learned) × List ℕ
unfolding older
age_addresses ms [] = ([], [])
age_addresses ms ((ip, e) ∷ m) =
    let (aged, expired) = age_addresses ms m in
    let age = older ms e.age in
    ((ip, record e { age = age }) ∷ aged, if leb 30000 age then ip ∷ expired else expired)

-- The second loop.
unfoldable pub age_queues : ℕ → List (ℕ × Waiting) → List (ℕ × Waiting)
unfolding older
age_queues ms [] = []
age_queues ms ((ip, q) ∷ m) = (ip, record q { age = older ms q.age }) ∷ age_queues ms m

-- The last loop.
unfoldable pub erase_all : List ℕ → List (ℕ × Learned) → List (ℕ × Learned)
erase_all [] m = m
erase_all (ip ∷ ips) m = erase_all ips (erase ip m)

unfoldable pub tick : ℕ → NetworkInterface → NetworkInterface
tick ms_since_last_tick i =
    let (aged, expired) = age_addresses ms_since_last_tick i.ip_addr_to_ethernet_addr in
    record i {
      ip_addr_to_ethernet_addr = erase_all expired aged;
      ip_addr_to_ethernet_datagram_queue =
          age_queues ms_since_last_tick i.ip_addr_to_ethernet_datagram_queue;
    }

-- Is the frame for this interface?
unfoldable pub is_for : EthernetFrame → NetworkInterface → Bool
is_for frame i =
    same_address frame.header.dst ethernet_broadcast
    || same_address frame.header.dst i.ethernet_address

module _ (f : Formats) where
  unfoldable pub arp_request : ℕ → NetworkInterface → EthernetFrame
  unfolding make_frame make_arp
  arp_request next_hop_ip i = make_frame i.ethernet_address ethernet_broadcast type_arp (
      f.serialize_arp
        (make_arp opcode_request i.ethernet_address i.ip_address (replicate 6 0) next_hop_ip))

  unfoldable pub ipv4_frame :
      Ipv4Datagram → EthernetAddress → NetworkInterface → Outcome EthernetFrame
  unfolding make_frame
  ipv4_frame dgram mac i = f.serialize_datagram dgram >>= λ payload.
      ok (make_frame i.ethernet_address mac type_ipv4 payload)

  -- `map_ip_addr_to_ethernet_datagram_queue` returns a copy: the datagram that the code pushes to it
  -- goes nowhere.
  unfoldable pub send_found :
      Ipv4Datagram
      → ℕ
      → Option Learned
      → Option Waiting
      → NetworkInterface
      → Outcome NetworkInterface
  unfolding enqueue ipv4_frame arp_request
  send_found dgram next_hop_ip (some e) q i =
      ipv4_frame dgram e.mac i >>= λ frame. ok (enqueue (frame ∷ []) i)
  send_found dgram next_hop_ip none (some q) i =
      ok (if leb 5000 q.age then enqueue (arp_request next_hop_ip i ∷ []) i else i)
  send_found dgram next_hop_ip none none i = ok (
      enqueue (arp_request next_hop_ip i ∷ []) (record i {
        ip_addr_to_ethernet_datagram_queue =
            assign next_hop_ip (record { dgrams = dgram ∷ []; age = 0 })
              i.ip_addr_to_ethernet_datagram_queue;
      }))

  unfoldable pub send_datagram : Ipv4Datagram → ℕ → NetworkInterface → Outcome NetworkInterface
  send_datagram dgram next_hop_ip i =
      send_found dgram next_hop_ip (lookup next_hop_ip i.ip_addr_to_ethernet_addr)
        (lookup next_hop_ip i.ip_addr_to_ethernet_datagram_queue) i

  -- The loop that sends what waits for an address.
  unfoldable pub flush :
      List Ipv4Datagram → EthernetAddress → NetworkInterface → Outcome NetworkInterface
  unfolding enqueue ipv4_frame
  flush [] mac i = ok i
  flush (dgram ∷ dgrams) mac i =
      ipv4_frame dgram mac i >>= λ frame. flush dgrams mac (enqueue (frame ∷ []) i)

  unfoldable pub release :
      Option Waiting → EthernetAddress → NetworkInterface → Outcome NetworkInterface
  release none mac i = ok i
  release (some q) mac i = flush q.dgrams mac i

  unfoldable pub update_maps : ℕ → EthernetAddress → NetworkInterface → Outcome NetworkInterface
  update_maps ip_addr mac i =
      release (lookup ip_addr i.ip_addr_to_ethernet_datagram_queue) mac (record i {
        ip_addr_to_ethernet_addr =
            assign ip_addr (record { mac = mac; age = 0 }) i.ip_addr_to_ethernet_addr;
      })
      >>= λ flushed. ok (record flushed {
        ip_addr_to_ethernet_datagram_queue =
            erase ip_addr flushed.ip_addr_to_ethernet_datagram_queue;
      })

  unfoldable pub arp_reply : ArpMessage → NetworkInterface → EthernetFrame
  unfolding make_frame make_arp
  arp_reply m i = make_frame i.ethernet_address m.sender_ethernet_address type_arp (
      f.serialize_arp (
        make_arp opcode_reply i.ethernet_address i.ip_address m.sender_ethernet_address
          m.sender_ip_address))

  unfoldable pub recv_arp : ArpMessage → NetworkInterface → Outcome NetworkInterface
  unfolding enqueue
  recv_arp m i = update_maps m.sender_ip_address m.sender_ethernet_address i >>= λ i'. ok (
      if (m.opcode == opcode_request) && (m.target_ip_address == i.ip_address)
      then enqueue (arp_reply m i' ∷ []) i'
      else i')

  -- An ARP message that has been parsed, or not.
  unfoldable pub heard_arp : Option ArpMessage → NetworkInterface → Outcome NetworkInterface
  heard_arp none i = ok i
  heard_arp (some m) i = recv_arp m i

  unfoldable pub recv_frame :
      EthernetFrame → NetworkInterface → Outcome (Option Ipv4Datagram × NetworkInterface)
  recv_frame frame i =
      if is_for frame i
      then (if frame.header.type == type_ipv4
          then (f.parse_datagram frame.payload >>= λ dgram. ok (dgram, i))
          else (f.parse_arp frame.payload >>= λ m. heard_arp m i >>= λ i'. ok (none, i')))
      else ok (none, i)
