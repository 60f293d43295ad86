-- ===== src/NetworkInterface/Learn.antt =====
-- What an ARP message does: the mapping it brings, the datagrams it releases, and the reply.
use os_stream_socket.Base.{
  bind_assoc, bind_ext, Fault, Outcome, ok, err, ◌>>=◌, ℕ, ◌≡◌, ◌≢◌, refl, sym, ap, ◌∙◌, List, [],
  ◌∷◌, ◌++◌, append_assoc, append-nil, Bool, true, false, ◌&&◌, Option, none, some, ◌==◌,
  if◌then◌else◌, lookup, assign, erase, lookup-assign_self, lookup-assign_ne, lookup-erase_self,
  lookup-erase_ne,
}
use os_stream_socket.Frames.{
  EthernetAddress, EthernetFrame, ArpMessage, Ipv4Datagram, Formats, type_ipv4, opcode_request,
}
use os_stream_socket.NetworkInterface.{
  make_frame, heard_arp, NetworkInterface, Waiting, enqueue, ipv4_frame, flush, release,
  update_maps, arp_reply, recv_arp, is_for, recv_frame,
}

-- The datagrams that wait for an address.
abbrev pub waiting : Option Waiting → List Ipv4Datagram
waiting none = []
waiting (some q) = q.dgrams

-- The frames that carry datagrams from one Ethernet address to another, if none of them throws.
unfoldable pub frames_of :
    Formats → EthernetAddress → EthernetAddress → List Ipv4Datagram → Outcome (List EthernetFrame)
frames_of f src mac [] = ok []
frames_of f src mac (d ∷ ds) = f.serialize_datagram d >>= λ payload.
    frames_of f src mac ds >>= λ frames.
    ok (
      record { header = record { dst = mac; src = src; type = 0x800 }; payload = payload } ∷ frames)

-- What a message from an address does to an interface that takes it.
pub record Learns (f : Formats) (m : ArpMessage) (frames : List EthernetFrame)
    (i i' : NetworkInterface) : Type 0 where
  pub mapped :
      lookup m.sender_ip_address i'.ip_addr_to_ethernet_addr
      ≡ some (record { mac = m.sender_ethernet_address; age = 0 })
  pub other_mapped :
      (ip : ℕ)
      → ip ≢ m.sender_ip_address
      → lookup ip i'.ip_addr_to_ethernet_addr ≡ lookup ip i.ip_addr_to_ethernet_addr
  pub released : lookup m.sender_ip_address i'.ip_addr_to_ethernet_datagram_queue ≡ none
  pub other_waiting :
      (ip : ℕ)
      → ip ≢ m.sender_ip_address
      → lookup ip i'.ip_addr_to_ethernet_datagram_queue
        ≡ lookup ip i.ip_addr_to_ethernet_datagram_queue
  pub same_ethernet : i'.ethernet_address ≡ i.ethernet_address
  pub same_ip : i'.ip_address ≡ i.ip_address
  pub sent :
      i'.maybe_send_queue
      ≡ i.maybe_send_queue
        ++ frames
        ++ (if (m.opcode == opcode_request) && (m.target_ip_address == i.ip_address)
            then arp_reply f m i ∷ []
            else [])

module _ (f : Formats) where
  enqueue-enqueue :
      (x : EthernetFrame) (i : NetworkInterface) (o : Outcome (List EthernetFrame))
      → (o >>= λ frames. ok (enqueue frames (enqueue (x ∷ []) i)))
        ≡ ((o >>= λ frames. ok (x ∷ frames)) >>= λ frames. ok (enqueue frames i))
  unfolding enqueue
  enqueue-enqueue x i (err fault) = refl
  enqueue-enqueue x i (ok frames) =
      ap (λ q. ok (record i { maybe_send_queue = q }))
        (append_assoc i.maybe_send_queue (x ∷ []) frames)

  flush_lem :
      (dgrams : List Ipv4Datagram) (mac : EthernetAddress) (i : NetworkInterface)
      → flush f dgrams mac i
        ≡ (frames_of f i.ethernet_address mac dgrams >>= λ frames. ok (enqueue frames i))
  unfolding flush enqueue ipv4_frame make_frame frames_of
  flush_lem [] mac i =
      ap (λ q. ok (record i { maybe_send_queue = q })) (sym (append-nil i.maybe_send_queue))
  flush_lem (d ∷ ds) mac i =
      let src = i.ethernet_address in
      let frame : List (List ℕ) → EthernetFrame = λ payload. record {
        header = record { dst = mac; src = src; type = 0x800 };
        payload = payload;
      } in
      bind_assoc (f.serialize_datagram d) (λ payload. ok (frame payload))
        (λ x. flush f ds mac (enqueue (x ∷ []) i))
      ∙ bind_ext (f.serialize_datagram d)
          (λ payload. flush f ds mac (enqueue (frame payload ∷ []) i))
          (λ payload.
            (frames_of f src mac ds >>= λ frames. ok (frame payload ∷ frames)) >>= λ frames.
            ok (enqueue frames i))
          (λ payload.
            flush_lem ds mac (enqueue (frame payload ∷ []) i)
            ∙ enqueue-enqueue (frame payload) i (frames_of f src mac ds))
      ∙ sym (
          bind_assoc (f.serialize_datagram d)
            (λ payload. frames_of f src mac ds >>= λ frames. ok (frame payload ∷ frames))
            (λ frames. ok (enqueue frames i)))

  release_lem :
      (o : Option Waiting) (mac : EthernetAddress) (i : NetworkInterface)
      → release f o mac i
        ≡ (frames_of f i.ethernet_address mac (waiting o) >>= λ frames. ok (enqueue frames i))
  unfolding release flush frames_of
  release_lem none mac i = flush_lem [] mac i
  release_lem (some q) mac i = flush_lem q.dgrams mac i

  -- The state after the maps are updated.
  abbrev pub updated : ArpMessage → List EthernetFrame → NetworkInterface → NetworkInterface
  updated m frames i = record i {
    ip_addr_to_ethernet_addr =
        assign m.sender_ip_address (record { mac = m.sender_ethernet_address; age = 0 })
          i.ip_addr_to_ethernet_addr;
    ip_addr_to_ethernet_datagram_queue =
        erase m.sender_ip_address i.ip_addr_to_ethernet_datagram_queue;
    maybe_send_queue = i.maybe_send_queue ++ frames;
  }

  -- The frames that a message from an address releases.
  abbrev pub released_by : ArpMessage → NetworkInterface → Outcome (List EthernetFrame)
  released_by m i =
      frames_of f i.ethernet_address m.sender_ethernet_address
        (waiting (lookup m.sender_ip_address i.ip_addr_to_ethernet_datagram_queue))

  update_maps_lem :
      (m : ArpMessage) (i : NetworkInterface)
      → update_maps f m.sender_ip_address m.sender_ethernet_address i
        ≡ (released_by m i >>= λ frames. ok (updated m frames i))
  unfolding update_maps enqueue
  update_maps_lem m i =
      let ip = m.sender_ip_address in
      let done : NetworkInterface → Outcome NetworkInterface = λ s. ok (record s {
        ip_addr_to_ethernet_datagram_queue = erase ip s.ip_addr_to_ethernet_datagram_queue;
      }) in
      let mapped : NetworkInterface = record i {
        ip_addr_to_ethernet_addr =
            assign ip (record { mac = m.sender_ethernet_address; age = 0 })
              i.ip_addr_to_ethernet_addr;
      } in
      ap (λ o. o >>= done)
        (release_lem (lookup ip i.ip_addr_to_ethernet_datagram_queue) m.sender_ethernet_address
          mapped)
      ∙ bind_assoc (released_by m i) (λ frames. ok (enqueue frames mapped)) done

  abbrev pub replies : ArpMessage → NetworkInterface → List EthernetFrame
  replies m i =
      if (m.opcode == opcode_request) && (m.target_ip_address == i.ip_address)
      then arp_reply f m i ∷ []
      else []

  answer :
      (b : Bool) (frame : EthernetFrame) (i : NetworkInterface)
      → (if b then enqueue (frame ∷ []) i else i) ≡ enqueue (if b then frame ∷ [] else []) i
  unfolding enqueue
  answer true frame i = refl
  answer false frame i =
      ap (λ q. record i { maybe_send_queue = q }) (sym (append-nil i.maybe_send_queue))

  -- The state that a message leaves.
  abbrev pub learned : ArpMessage → List EthernetFrame → NetworkInterface → NetworkInterface
  learned m frames i = record (updated m frames i) {
    maybe_send_queue = (i.maybe_send_queue ++ frames) ++ replies m i;
  }

  pub recv_arp_lem :
      (m : ArpMessage) (i : NetworkInterface)
      → recv_arp f m i ≡ (released_by m i >>= λ frames. ok (learned m frames i))
  unfolding recv_arp arp_reply enqueue
  recv_arp_lem m i =
      let asks = (m.opcode == opcode_request) && (m.target_ip_address == i.ip_address) in
      let done : NetworkInterface → Outcome NetworkInterface =
        λ s. ok (if asks then enqueue (arp_reply f m s ∷ []) s else s) in
      ap (λ o. o >>= done) (update_maps_lem m i)
      ∙ bind_assoc (released_by m i) (λ frames. ok (updated m frames i)) done
      ∙ bind_ext (released_by m i) (λ frames. done (updated m frames i))
          (λ frames. ok (learned m frames i))
          (λ frames. ap (λ s. ok s) (answer asks (arp_reply f m i) (updated m frames i)))

  learned-Learns :
      (m : ArpMessage) (frames : List EthernetFrame) (i : NetworkInterface)
      → Learns f m frames i (learned m frames i)
  learned-Learns m frames i = record {
    mapped = lookup-assign_self m.sender_ip_address _ i.ip_addr_to_ethernet_addr;
    other_mapped = λ ip h. lookup-assign_ne m.sender_ip_address ip _ i.ip_addr_to_ethernet_addr h;
    released = lookup-erase_self m.sender_ip_address i.ip_addr_to_ethernet_datagram_queue;
    other_waiting =
        λ ip h. lookup-erase_ne m.sender_ip_address ip i.ip_addr_to_ethernet_datagram_queue h;
    same_ethernet = refl;
    same_ip = refl;
    sent = refl;
  }

  -- A frame for the interface with an ARP message.
  recv_frame_arp :
      (frame : EthernetFrame) (m : ArpMessage) (i : NetworkInterface)
      → is_for frame i ≡ true
      → (frame.header.type == type_ipv4) ≡ false
      → f.parse_arp frame.payload ≡ ok (some m)
      → recv_frame f frame i ≡ (recv_arp f m i >>= λ i'. ok (none, i'))
  unfolding recv_frame heard_arp
  recv_frame_arp frame m i mine arp parsed = rw (mine, arp, parsed) refl

  -- A frame for the interface with an ARP message returns, if `serialize` accepts the datagrams
  -- that wait for the sender's address, and returns no datagram; if it throws for one of them, the
  -- call throws the same. When it returns, the sender's address is mapped to its Ethernet address
  -- with age 0 and nothing waits for it any more; the entries of all other addresses are
  -- unchanged; and the frames sent are those of the datagrams that waited for it, in order and of
  -- type 0x800 from the interface's Ethernet address to the sender's, and then a reply if the
  -- message is a request for this interface's address.
  pub recv_frame-Learns :
      (frame : EthernetFrame) (m : ArpMessage) (i : NetworkInterface)
      → is_for frame i ≡ true
      → (frame.header.type == type_ipv4) ≡ false
      → f.parse_arp frame.payload ≡ ok (some m)
      → ((frames : List EthernetFrame)
          → released_by m i ≡ ok frames
          → (i' : NetworkInterface) × (recv_frame f frame i ≡ ok (none, i'))
            × Learns f m frames i i')
        × ((fault : Fault) → released_by m i ≡ err fault → recv_frame f frame i ≡ err fault)
  recv_frame-Learns frame m i mine arp parsed = (
    (λ frames e. (
      learned m frames i,
      recv_frame_arp frame m i mine arp parsed
          ∙ ap (λ o. o >>= λ i'. ok (none, i'))
              (recv_arp_lem m i ∙ ap (λ o. o >>= λ frames. ok (learned m frames i)) e),
      learned-Learns m frames i,
    )),
    (λ fault e.
        recv_frame_arp frame m i mine arp parsed
        ∙ ap (λ o. o >>= λ i'. ok (none, i'))
            (recv_arp_lem m i ∙ ap (λ o. o >>= λ frames. ok (learned m frames i)) e)),
  )
