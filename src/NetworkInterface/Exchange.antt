-- ===== src/NetworkInterface/Exchange.antt =====
-- Two interfaces on one link, over the bytes of their messages.
use os_stream_socket.Base.{
  ◌⊎◌, inl, inr, ℕ, List, ok, ◌^◌, ◌<◌, ◌≡◌, refl, ap, ◌∙◌, [], ◌∷◌, ◌++◌, append_assoc, append-nil,
  true, none, ◌==◌, if◌then◌else◌, lookup, replicate, arith,
}
use os_stream_socket.Frames.{
  EthernetHeader, EthernetAddress, EthernetFrame, ArpMessage, Ipv4Datagram, same_address,
  opcode_request, opcode_reply, default_arp,
}
use os_stream_socket.Frames.Arp
use os_stream_socket.Frames.Arp.RoundTrip.{IsAddress, IsArp}
use os_stream_socket.Frames.Wire.{wire_formats, parse_arp-serialize_arp}
use os_stream_socket.NetworkInterface.{
  NetworkInterface, make_frame, make_arp, arp_request, arp_reply, send_datagram, is_for, recv_frame,
}
use os_stream_socket.NetworkInterface.Learn.{recv_frame-Learns, waiting, frames_of}
use os_stream_socket.NetworkInterface.Send.{send-reply}

-- Its addresses are within their sizes.
pub record IsAddressed (i : NetworkInterface) : Type 0 where
  pub ethernet : IsAddress i.ethernet_address
  pub ip : i.ip_address < 2 ^ 32

same_address_self : (xs : EthernetAddress) → same_address xs xs ≡ true
unfolding same_address
same_address_self [] = refl
same_address_self (x ∷ xs) = let e : (x == x) ≡ true = ground arith in rw e (same_address_self xs)

-- The messages that an interface makes are supported, so that serializing them does not throw.
serialize_buffers-make_arp :
    (opcode : ℕ) (sender : EthernetAddress) (sender_ip : ℕ) (target : EthernetAddress)
    (target_ip : ℕ)
    → (opcode ≡ opcode_request) ⊎ (opcode ≡ opcode_reply)
    → let m = make_arp opcode sender sender_ip target target_ip in
      Arp.serialize_buffers m ≡ ok (wire_formats.serialize_arp m)
unfolding make_arp default_arp Arp.serialize_buffers Arp.serialize Arp.supported wire_formats
serialize_buffers-make_arp opcode sender sender_ip target target_ip (inl h) = rw h refl
serialize_buffers-make_arp opcode sender sender_ip target target_ip (inr h) = rw h refl

module _ (i j : NetworkInterface) (v : IsAddressed i) (w : IsAddressed j) where
  -- The two messages.
  asked : ArpMessage
  asked = make_arp opcode_request i.ethernet_address i.ip_address (replicate 6 0) j.ip_address

  answered : ArpMessage
  answered = make_arp opcode_reply j.ethernet_address j.ip_address i.ethernet_address i.ip_address

  asked-IsArp : IsArp asked
  unfolding asked make_arp default_arp Arp.supported
  asked-IsArp = record {
    allowed = refl;
    sender = v.ethernet;
    sender_ip = v.ip;
    target = record { six = refl; bytes = omega arith };
    target_ip = w.ip;
  }

  answered-IsArp : IsArp answered
  unfolding answered make_arp default_arp Arp.supported
  answered-IsArp = record {
    allowed = refl;
    sender = w.ethernet;
    sender_ip = w.ip;
    target = v.ethernet;
    target_ip = v.ip;
  }

  -- The reply that the second interface makes.
  abbrev reply : EthernetFrame
  reply = arp_reply wire_formats asked j

  request_heard :
      (frames : List EthernetFrame)
      → frames_of wire_formats j.ethernet_address i.ethernet_address
          (waiting (lookup i.ip_address j.ip_addr_to_ethernet_datagram_queue))
        ≡ ok frames
      → (j' : NetworkInterface) × (recv_frame wire_formats
            (arp_request wire_formats j.ip_address i)
            j
          ≡ ok (none, j'))
        × (j'.maybe_send_queue ≡ j.maybe_send_queue ++ frames ++ reply ∷ [])
  unfolding arp_request make_frame is_for same_address asked make_arp
  request_heard frames accepted =
      let (j', heard, learns) =
        (recv_frame-Learns wire_formats (arp_request wire_formats j.ip_address i) asked j refl refl
            (parse_arp-serialize_arp asked asked-IsArp)).0
          frames accepted in
      let mine : (j.ip_address == j.ip_address) ≡ true = ground arith in
      (
        j',
        heard,
        learns.sent ∙ ap (λ b. j.maybe_send_queue ++ frames ++ (if b then reply ∷ [] else [])) mine,
      )

  reply_for : is_for reply i ≡ true
  unfolding is_for arp_reply make_frame asked make_arp
  reply_for = let e = same_address_self i.ethernet_address in ground (arith, e)

  -- Of two interfaces with addresses within their sizes, over the bytes of their messages: if the
  -- first neither knows nor has asked for the second's address, and `serialize` accepts the
  -- datagrams, then no call throws; the second answers the request that the first's
  -- `send_datagram` makes with one reply, behind the datagrams that waited for the first, each in
  -- a frame to the first's Ethernet address; and if the first receives that reply, it has sent the
  -- request and then the datagram, in a frame of type 0x800 from its own to the second's Ethernet
  -- address.
  pub arp_exchange :
      (d : Ipv4Datagram) (payload : List (List ℕ)) (frames : List EthernetFrame)
      → lookup j.ip_address i.ip_addr_to_ethernet_addr ≡ none
      → lookup j.ip_address i.ip_addr_to_ethernet_datagram_queue ≡ none
      → wire_formats.serialize_datagram d ≡ ok payload
      → frames_of wire_formats j.ethernet_address i.ethernet_address
          (waiting (lookup i.ip_address j.ip_addr_to_ethernet_datagram_queue))
        ≡ ok frames
      → let request = arp_request wire_formats j.ip_address i in
        let header : EthernetHeader = record {
          dst = j.ethernet_address;
          src = i.ethernet_address;
          type = 0x800;
        } in
        (reply : EthernetFrame) × ((j' : NetworkInterface) × (recv_frame wire_formats request j
            ≡ ok (none, j'))
          × (j'.maybe_send_queue ≡ j.maybe_send_queue ++ frames ++ reply ∷ []))
        × (s : NetworkInterface) × (i' : NetworkInterface) × (send_datagram wire_formats d
              j.ip_address i
            ≡ ok s)
        × (recv_frame wire_formats reply s ≡ ok (none, i'))
        × (i'.maybe_send_queue
            ≡ i.maybe_send_queue ++ request ∷ record { header = header; payload = payload } ∷ [])
  unfolding arp_reply make_frame asked answered make_arp
  arp_exchange d payload frames unknown idle written accepted =
      let (s, i', sends, hears, sent, next) =
        send-reply wire_formats i d d payload payload reply answered unknown idle reply_for refl
          (parse_arp-serialize_arp answered answered-IsArp) written written in
      let ask = arp_request wire_formats j.ip_address i in
      let frame : EthernetFrame = record {
        header = record { dst = j.ethernet_address; src = i.ethernet_address; type = 0x800 };
        payload = payload;
      } in
      (
        reply,
        request_heard frames accepted,
        s,
        i',
        sends,
        hears,
        sent
            ∙ append-nil (i.maybe_send_queue ++ ask ∷ [] ++ frame ∷ [])
            ∙ append_assoc i.maybe_send_queue (ask ∷ []) (frame ∷ []),
      )
