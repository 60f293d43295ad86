-- ===== src/NetworkInterface/Invariant.antt =====
-- Every operation of an interface that returns keeps its invariant.
use os_stream_socket.Base.{
  Outcome, ok, ◌>>=◌, OnReturn, bind-OnReturn, OnReturn-true, ℕ, ◌≡◌, refl, List, [], ◌∷◌, Option,
  none, some, leb, ◌==◌, lookup, lookup-assign_self, lookup-assign_ne, lookup-erase_self,
  lookup-erase_ne, assign-IsMap, erase-IsMap, Bool-cases, Option-cases, ==→eq, inl, inr, List-cases,
}
use os_stream_socket.Frames.{
  EthernetAddress, EthernetFrame, Ipv4Datagram, Formats, ArpMessage, type_ipv4,
}
use os_stream_socket.NetworkInterface.{
  ipv4_frame, heard_arp, NetworkInterface, new, enqueue, tick, maybe_send, send_datagram, recv_arp,
  recv_frame, is_for,
}
use os_stream_socket.NetworkInterface.Learn.{recv_arp_lem, learned, released_by}
use os_stream_socket.NetworkInterface.Send.{send_known, send_pending, send_first}
use os_stream_socket.NetworkInterface.Entries.{
  IsInterface, new-IsInterface, learned-IsEntry, asked-IsEntry, same-IsEntry, not_same,
  tick-IsInterface,
}

module _ (f : Formats) where
  send_datagram-IsInterface :
      (d : Ipv4Datagram) (ip : ℕ) (i : NetworkInterface)
      → IsInterface i
      → OnReturn IsInterface (send_datagram f d ip i)
  unfolding enqueue
  send_datagram-IsInterface d ip i v = elim (Option-cases (lookup ip i.ip_addr_to_ethernet_addr)) [
    | inr (e, known) ↦ rw (send_known f ip i d e known) (
        bind-OnReturn (λ frame. Unit {0}) IsInterface (ipv4_frame f d e.mac i)
          (λ frame. ok (enqueue (frame ∷ []) i)) (OnReturn-true (ipv4_frame f d e.mac i))
          (λ frame h. record { addresses = v.addresses; queues = v.queues; entries = v.entries }))
    | inl unknown ↦ elim (Option-cases (lookup ip i.ip_addr_to_ethernet_datagram_queue)) [
      | inr (q, pending) ↦
          rw (send_pending f ip i d q unknown pending) (elim (Bool-cases (leb 5000 q.age)) [
            | inl late ↦
                rw late (record { addresses = v.addresses; queues = v.queues; entries = v.entries })
            | inr early ↦ rw early v
          ])
      | inl idle ↦ rw (send_first f ip i d unknown idle) (record {
        addresses = v.addresses;
        queues = assign-IsMap ip _ i.ip_addr_to_ethernet_datagram_queue v.queues;
        entries = λ k. elim (Bool-cases (k == ip)) [
          | inl h ↦
              let gone : lookup k i.ip_addr_to_ethernet_addr ≡ none = rw (==→eq k ip h) unknown in
              same-IsEntry gone refl (asked-IsEntry _)
          | inr h ↦
              same-IsEntry refl
                (lookup-assign_ne ip k _ i.ip_addr_to_ethernet_datagram_queue (not_same k ip h))
                (v.entries k)
        ];
      })
    ]
  ]

  learned-IsInterface :
      (m : ArpMessage) (frames : List EthernetFrame) (i : NetworkInterface)
      → IsInterface i
      → IsInterface (learned f m frames i)
  learned-IsInterface m frames i v = record {
    addresses = assign-IsMap m.sender_ip_address _ i.ip_addr_to_ethernet_addr v.addresses;
    queues = erase-IsMap m.sender_ip_address i.ip_addr_to_ethernet_datagram_queue v.queues;
    entries = λ k. elim (Bool-cases (k == m.sender_ip_address)) [
      | inl h ↦ rw (==→eq k m.sender_ip_address h) (
          same-IsEntry (lookup-assign_self m.sender_ip_address _ i.ip_addr_to_ethernet_addr)
            (lookup-erase_self m.sender_ip_address i.ip_addr_to_ethernet_datagram_queue)
            (learned-IsEntry m.sender_ethernet_address))
      | inr h ↦
          let other = not_same k m.sender_ip_address h in
          same-IsEntry (lookup-assign_ne m.sender_ip_address k _ i.ip_addr_to_ethernet_addr other)
            (lookup-erase_ne m.sender_ip_address k i.ip_addr_to_ethernet_datagram_queue other)
            (v.entries k)
    ];
  }

  recv_arp-IsInterface :
      (m : ArpMessage) (i : NetworkInterface)
      → IsInterface i
      → OnReturn IsInterface (recv_arp f m i)
  recv_arp-IsInterface m i v = rw (recv_arp_lem f m i) (
      bind-OnReturn (λ frames. Unit {0}) IsInterface (released_by f m i)
        (λ frames. ok (learned f m frames i)) (OnReturn-true (released_by f m i))
        (λ frames h. learned-IsInterface m frames i v))

  heard_arp-IsInterface :
      (o : Option ArpMessage) (i : NetworkInterface)
      → IsInterface i
      → OnReturn IsInterface (heard_arp f o i)
  unfolding heard_arp
  heard_arp-IsInterface none i v = v
  heard_arp-IsInterface (some m) i v = recv_arp-IsInterface m i v

  recv_frame-IsInterface :
      (frame : EthernetFrame) (i : NetworkInterface)
      → IsInterface i
      → OnReturn (λ x. IsInterface x.1) (recv_frame f frame i)
  unfolding recv_frame
  recv_frame-IsInterface frame i v = elim (Bool-cases (is_for frame i)) [
    | inr other ↦ rw other v
    | inl mine ↦ elim (Bool-cases (frame.header.type == type_ipv4)) [
      | inl ipv4 ↦
          rw (mine, ipv4)
            (bind-OnReturn (λ d. Unit {0}) (λ x. IsInterface x.1) (f.parse_datagram frame.payload)
              (λ d. ok (d, i)) (OnReturn-true (f.parse_datagram frame.payload)) (λ d h. v))
      | inr arp ↦
          rw (mine, arp)
            (bind-OnReturn (λ m. Unit {0}) (λ x. IsInterface x.1) (f.parse_arp frame.payload)
              (λ m. heard_arp f m i >>= λ i'. ok (none, i'))
              (OnReturn-true (f.parse_arp frame.payload))
              (λ m h.
                bind-OnReturn IsInterface (λ x. IsInterface x.1) (heard_arp f m i)
                  (λ i'. ok (none, i')) (heard_arp-IsInterface m i v) (λ i' w. w)))
    ]
  ]

maybe_send-IsInterface : (i : NetworkInterface) → IsInterface i → IsInterface (maybe_send i).1
unfolding maybe_send
maybe_send-IsInterface i v = elim (List-cases i.maybe_send_queue) [
  | inl e ↦ rw e (record { addresses = v.addresses; queues = v.queues; entries = v.entries })
  | inr (frame, rest, e) ↦
      rw e (record { addresses = v.addresses; queues = v.queues; entries = v.entries })
]

-- The calls that an interface can get.
pub data Op : Type 0 where
  sends : Ipv4Datagram → ℕ → Op
  receives : EthernetFrame → Op
  takes : Op
  ticks : ℕ → Op

abbrev pub step : Formats → NetworkInterface → Op → Outcome NetworkInterface
step f i (sends d ip) = send_datagram f d ip i
step f i (receives frame) = recv_frame f frame i >>= λ (received, i'). ok i'
step f i takes = ok (maybe_send i).1
step f i (ticks ms) = ok (tick ms i)

-- Up to the first call that throws.
abbrev pub run : Formats → NetworkInterface → List Op → Outcome NetworkInterface
run f i [] = ok i
run f i (op ∷ ops) = step f i op >>= λ i'. run f i' ops

step-IsInterface :
    (f : Formats) (op : Op) (i : NetworkInterface)
    → IsInterface i
    → OnReturn IsInterface (step f i op)
step-IsInterface f (sends d ip) i v = send_datagram-IsInterface f d ip i v
step-IsInterface f (receives frame) i v =
    bind-OnReturn (λ x. IsInterface x.1) IsInterface (recv_frame f frame i)
      (λ (received, i'). ok i') (recv_frame-IsInterface f frame i v) (λ x w. w)
step-IsInterface f takes i v = maybe_send-IsInterface i v
step-IsInterface f (ticks ms) i v = tick-IsInterface ms i v

from-IsInterface :
    (f : Formats) (ops : List Op) (i : NetworkInterface)
    → IsInterface i
    → OnReturn IsInterface (run f i ops)
from-IsInterface f [] i v = v
from-IsInterface f (op ∷ ops) i v =
    bind-OnReturn IsInterface IsInterface (step f i op) (λ i'. run f i' ops)
      (step-IsInterface f op i v) (λ i' w. from-IsInterface f ops i' w)

-- After any calls on a new interface of which none throws, with any formats of the messages, no
-- address has two entries in a map, no datagram waits for an address that is known, and the 32-bit
-- age of what is known of an address is below 30000 ms. Of calls of which one throws nothing is
-- stated.
pub run-IsInterface :
    (f : Formats) (mac : EthernetAddress) (ip : ℕ) (ops : List Op)
    → OnReturn IsInterface (run f (new mac ip) ops)
run-IsInterface f mac ip ops = from-IsInterface f ops (new mac ip) (new-IsInterface mac ip)
