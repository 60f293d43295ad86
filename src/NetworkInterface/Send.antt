-- ===== src/NetworkInterface/Send.antt =====
-- What `send_datagram` does, alone and followed by the answer that it waits for.
use os_stream_socket.Base.{
  List, Outcome, ok, ◌>>=◌, ℕ, ◌≡◌, ◌≤◌, refl, ap, ◌∙◌, [], ◌∷◌, ◌++◌, append_assoc, true, false,
  none, some, leb, ◌==◌, if◌then◌else◌, lookup, assign, lookup-assign_self, arith,
}
use os_stream_socket.Frames.{
  EthernetAddress, EthernetHeader, EthernetFrame, ArpMessage, Ipv4Datagram, Formats, type_ipv4,
}
use os_stream_socket.NetworkInterface.{
  make_frame, NetworkInterface, Learned, Waiting, enqueue, ipv4_frame, arp_request, arp_reply,
  send_found, send_datagram, is_for, recv_frame,
}
use os_stream_socket.NetworkInterface.Learn.{recv_frame-Learns, replies, released_by, frames_of}

module _ (f : Formats) (ip : ℕ) (i : NetworkInterface) where
  pub send_known :
      (d : Ipv4Datagram) (e : Learned)
      → lookup ip i.ip_addr_to_ethernet_addr ≡ some e
      → send_datagram f d ip i ≡ (ipv4_frame f d e.mac i >>= λ frame. ok (enqueue (frame ∷ []) i))
  unfolding send_datagram send_found
  send_known d e known =
      ap (λ o. send_found f d ip o (lookup ip i.ip_addr_to_ethernet_datagram_queue) i) known

  pub send_pending :
      (d : Ipv4Datagram) (q : Waiting)
      → lookup ip i.ip_addr_to_ethernet_addr ≡ none
      → lookup ip i.ip_addr_to_ethernet_datagram_queue ≡ some q
      → send_datagram f d ip i
        ≡ ok (if leb 5000 q.age then enqueue (arp_request f ip i ∷ []) i else i)
  unfolding send_datagram send_found
  send_pending d q unknown pending =
      ap (λ o. send_found f d ip o (lookup ip i.ip_addr_to_ethernet_datagram_queue) i) unknown
      ∙ ap (λ o. send_found f d ip none o i) pending

  -- The first datagram for an address waits in a queue of its own.
  abbrev pub asked : Ipv4Datagram → NetworkInterface
  asked d = record i {
    maybe_send_queue = i.maybe_send_queue ++ arp_request f ip i ∷ [];
    ip_addr_to_ethernet_datagram_queue =
        assign ip (record { dgrams = d ∷ []; age = 0 }) i.ip_addr_to_ethernet_datagram_queue;
  }

  pub send_first :
      (d : Ipv4Datagram)
      → lookup ip i.ip_addr_to_ethernet_addr ≡ none
      → lookup ip i.ip_addr_to_ethernet_datagram_queue ≡ none
      → send_datagram f d ip i ≡ ok (asked d)
  unfolding send_datagram send_found enqueue arp_request
  send_first d unknown idle =
      ap (λ o. send_found f d ip o (lookup ip i.ip_addr_to_ethernet_datagram_queue) i) unknown
      ∙ ap (λ o. send_found f d ip none o i) idle

-- A second datagram for an address that was neither known nor asked for before the first one
-- leaves the interface as the first one left it: it is neither sent nor kept.
pub second_datagram_lost :
    (f : Formats) (ip : ℕ) (i : NetworkInterface) (d d' : Ipv4Datagram)
    → lookup ip i.ip_addr_to_ethernet_addr ≡ none
    → lookup ip i.ip_addr_to_ethernet_datagram_queue ≡ none
    → (send_datagram f d ip i >>= send_datagram f d' ip) ≡ send_datagram f d ip i
second_datagram_lost f ip i d d' unknown idle = rw (send_first f ip i d unknown idle) (
    send_pending f ip (asked f ip i d) d' _ unknown (
      lookup-assign_self ip (record { dgrams = d ∷ []; age = 0 })
        i.ip_addr_to_ethernet_datagram_queue))

-- Once the first request for an address that is not known is 5 seconds old, two datagrams for it
-- send two requests at once, since the time of the last request is not kept.
pub requests_repeat :
    (f : Formats) (ip : ℕ) (i : NetworkInterface) (d d' : Ipv4Datagram) (q : Waiting)
    → lookup ip i.ip_addr_to_ethernet_addr ≡ none
    → lookup ip i.ip_addr_to_ethernet_datagram_queue ≡ some q
    → 5000 ≤ q.age
    → (send_datagram f d ip i >>= send_datagram f d' ip)
      ≡ ok (enqueue (arp_request f ip i ∷ arp_request f ip i ∷ []) i)
unfolding enqueue arp_request
requests_repeat f ip i d d' q unknown pending old =
    let late : leb 5000 q.age ≡ true = ground arith in
    let once : send_datagram f d ip i ≡ ok (enqueue (arp_request f ip i ∷ []) i) =
      rw (send_pending f ip i d q unknown pending, late) refl in
    rw once (
      rw (send_pending f ip (enqueue (arp_request f ip i ∷ []) i) d' q unknown pending, late)
        (ap {B = Outcome NetworkInterface} (λ frames. ok (record i { maybe_send_queue = frames }))
          (append_assoc i.maybe_send_queue (arp_request f ip i ∷ []) (arp_request f ip i ∷ []))))

-- The one datagram that waits.
released_by-one :
    (f : Formats) (m : ArpMessage) (d : Ipv4Datagram) (payload : List (List ℕ))
    (i : NetworkInterface)
    → lookup m.sender_ip_address i.ip_addr_to_ethernet_datagram_queue
      ≡ some (record { dgrams = d ∷ []; age = 0 })
    → f.serialize_datagram d ≡ ok payload
    → released_by f m i
      ≡ ok (
          record {
            header = record {
              dst = m.sender_ethernet_address;
              src = i.ethernet_address;
              type = 0x800;
            };
            payload = payload;
          }
          ∷ [])
unfolding frames_of
released_by-one f m d payload i pending written = rw (pending, written) refl

-- A datagram that `serialize` accepts, for an address that is known.
send_known_frame :
    (f : Formats) (ip : ℕ) (i : NetworkInterface) (d : Ipv4Datagram) (payload : List (List ℕ))
    (mac src : EthernetAddress)
    → lookup ip i.ip_addr_to_ethernet_addr ≡ some (record { mac = mac; age = 0 })
    → i.ethernet_address ≡ src
    → f.serialize_datagram d ≡ ok payload
    → send_datagram f d ip i
      ≡ ok (
          enqueue
            (record { header = record { dst = mac; src = src; type = 0x800 }; payload = payload }
              ∷ [])
            i)
unfolding ipv4_frame make_frame
send_known_frame f ip i d payload mac src known same written =
    send_known f ip i d (record { mac = mac; age = 0 }) known
    ∙ ap
        (λ o. (o >>= λ p. ok (make_frame i.ethernet_address mac type_ipv4 p)) >>= λ frame.
          ok (enqueue (frame ∷ []) i))
        written
    ∙ ap
        (λ a. ok (
          enqueue
            (record { header = record { dst = mac; src = a; type = 0x800 }; payload = payload }
              ∷ [])
            i))
        same

-- A datagram for an address that is neither known nor asked for waits for it: when a frame for the
-- interface then brings an ARP message from that address, and `serialize` accepts the datagram,
-- neither call throws, and the interface has sent, in this order, one request, the datagram in a
-- frame of type 0x800 from its own Ethernet address to the one in the message, and a reply if the
-- message asks for this interface; and a next datagram for that address that `serialize` accepts
-- is sent to that Ethernet address at once.
pub send-reply :
    (f : Formats) (i : NetworkInterface) (d d' : Ipv4Datagram) (payload payload' : List (List ℕ))
    (frame : EthernetFrame) (m : ArpMessage)
    → lookup m.sender_ip_address i.ip_addr_to_ethernet_addr ≡ none
    → lookup m.sender_ip_address i.ip_addr_to_ethernet_datagram_queue ≡ none
    → is_for frame i ≡ true
    → (frame.header.type == type_ipv4) ≡ false
    → f.parse_arp frame.payload ≡ ok (some m)
    → f.serialize_datagram d ≡ ok payload
    → f.serialize_datagram d' ≡ ok payload'
    → let header : EthernetHeader = record {
      dst = m.sender_ethernet_address;
      src = i.ethernet_address;
      type = 0x800;
    } in
      (s : NetworkInterface) × (i' : NetworkInterface) × (send_datagram f d m.sender_ip_address i
        ≡ ok s)
      × (recv_frame f frame s ≡ ok (none, i'))
      × (i'.maybe_send_queue
          ≡ i.maybe_send_queue
            ++ arp_request f m.sender_ip_address i ∷ []
            ++ record { header = header; payload = payload } ∷ []
            ++ replies f m i)
      × (send_datagram f d' m.sender_ip_address i'
          ≡ ok (enqueue (record { header = header; payload = payload' } ∷ []) i'))
unfolding is_for arp_request arp_reply
send-reply f i d d' payload payload' frame m unknown idle mine arp parsed written written' =
    let ip = m.sender_ip_address in
    let s = asked f ip i d in
    let (i', heard, learns) = (recv_frame-Learns f frame m s mine arp parsed).0 _ (
      released_by-one f m d payload s
        (lookup-assign_self ip (record { dgrams = d ∷ []; age = 0 })
          i.ip_addr_to_ethernet_datagram_queue)
        written) in
    (
      s,
      i',
      send_first f ip i d unknown idle,
      heard,
      learns.sent,
      send_known_frame f ip i' d' payload' m.sender_ethernet_address i.ethernet_address
          learns.mapped learns.same_ethernet written',
    )
