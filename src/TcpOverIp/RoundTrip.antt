-- ===== src/TcpOverIp/RoundTrip.antt =====
-- What one adapter wraps, its peer unwraps, by way of the bytes of the datagram.
use os_stream_socket.Base.{
  ◌+◌, ◌≡◌, refl, sym, ap, ap₂, ◌∙◌, [], ◌∷◌, append-nil, true, false, ◌==◌, flatten, length,
  length-append, some, ok, ◌>>=◌, arith,
}
use os_stream_socket.TcpSegment.{TcpSegment, with_cksum}
use os_stream_socket.TcpSegment
use os_stream_socket.TcpSegment.RoundTrip.{IsSegment, IsSealed, wire}
use os_stream_socket.Frames.{Ipv4Datagram}
use os_stream_socket.Frames.Ipv4.{default_header, pseudo_checksum}
use os_stream_socket.Frames.Ipv4
use os_stream_socket.Frames.Ipv4.RoundTrip.{IsHeader, length-wire, parse-serialize_ipv4}
use os_stream_socket.Serializer.RoundTrip.{framed, flatten-framed}
use os_stream_socket.Frames.Ethernet.RoundTrip.{carried, behind}
use os_stream_socket.TcpOverIp.{
  Address, FdAdapterBase, answer, connect, from_peer, take_segment, is_wanted, unwrap_tcp_in_ip,
  wrap_tcp_in_ip,
}
use os_stream_socket.TcpOverIp.Wrap.{IsAddress, Carries, wrap-Carries}

-- The other end of the same connection.
pub record IsPeer (a b : FdAdapterBase) : Type 0 where
  pub connected : b.listen ≡ false
  pub source : b.cfg.source ≡ a.cfg.destination
  pub destination : b.cfg.destination ≡ a.cfg.source

-- One that waits for a connection to the port.
pub record IsListener (a b : FdAdapterBase) : Type 0 where
  pub listening : b.listen ≡ true
  pub port : b.cfg.source.port ≡ a.cfg.destination.port

-- The datagram as it comes out of its bytes.
abbrev pub received : TcpSegment → Ipv4Datagram → Ipv4Datagram
received sent d = record { header = d.header; payload = carried d.payload }

module _ (seg : TcpSegment) (a : FdAdapterBase) (sent : TcpSegment) (d : Ipv4Datagram)
    (c : Carries seg a sent d) where
  rest_read :
      flatten (framed [] (sent.sender_message.payload ∷ [] ∷ [])) ≡ sent.sender_message.payload
  rest_read =
      flatten-framed [] (sent.sender_message.payload ∷ [] ∷ [])
      ∙ append-nil sent.sender_message.payload

  behind_size : length (flatten (behind d.payload)) ≡ 20 + length sent.sender_message.payload
  behind_size =
      let rest = flatten (framed [] (sent.sender_message.payload ∷ [] ∷ [])) in
      omega (
        arith,
        ap (λ bs. length (flatten (behind bs))) c.payload,
        length-append (wire sent) rest,
        TcpSegment.RoundTrip.length-wire sent,
        ap length rest_read,
      )

  segment_read :
      TcpSegment.parse_buffers (pseudo_checksum d.header) (carried d.payload) ≡ ok (some sent)
  segment_read =
      let more : (length (flatten (behind d.payload)) == 0) ≡ false = ground (arith, behind_size) in
      rw more (
        ap (λ bs. TcpSegment.parse_buffers (pseudo_checksum d.header) (behind bs)) c.payload
        ∙ TcpSegment.RoundTrip.parse_lem sent (framed [] (sent.sender_message.payload ∷ [] ∷ []))
            (pseudo_checksum d.header) c.segment rest_read c.sealed)

  pub datagram_read :
      (Ipv4.serialize_buffers d >>= Ipv4.parse_buffers) ≡ ok (some (received sent d))
  datagram_read = parse-serialize_ipv4 d c.header (
      omega (
        arith,
        length-append (Ipv4.RoundTrip.wire d.header) (flatten (behind d.payload)),
        length-wire d.header,
        behind_size,
        c.segment.short,
      ))

  peer_wanted : (b : FdAdapterBase) → IsPeer a b → is_wanted d.header b ≡ true
  unfolding is_wanted
  peer_wanted b p =
      let dst : d.header.dst ≡ b.cfg.source.ipv4_numeric =
        c.dst ∙ sym (ap (λ x. x.ipv4_numeric) p.source) in
      let src : d.header.src ≡ b.cfg.destination.ipv4_numeric =
        c.src ∙ sym (ap (λ x. x.ipv4_numeric) p.destination) in
      ground (arith, p.connected, dst, src, c.proto)

  peer_taken :
      (b : FdAdapterBase) → IsPeer a b → take_segment (some sent) d.header b ≡ (some sent, b)
  unfolding take_segment connect from_peer
  peer_taken b p =
      let dst_port : (sent.udinfo.dst_port == b.cfg.source.port) ≡ true =
        ground (arith, c.dst_port, ap (λ x. x.port) p.source) in
      let src_port : (sent.udinfo.src_port == b.cfg.destination.port) ≡ true =
        ground (arith, c.src_port, ap (λ x. x.port) p.destination) in
      simp (p.connected, dst_port, src_port)

  unwrap_wanted :
      (b : FdAdapterBase)
      → is_wanted d.header b ≡ true
      → unwrap_tcp_in_ip (received sent d) b ≡ ok (take_segment (some sent) d.header b)
  unfolding unwrap_tcp_in_ip
  unwrap_wanted b wanted =
      rw wanted (ap (λ o. o >>= λ s. ok (take_segment s d.header b)) segment_read)

  pub unwrap_peer :
      (b : FdAdapterBase) → IsPeer a b → unwrap_tcp_in_ip (received sent d) b ≡ ok (some sent, b)
  unwrap_peer b p = unwrap_wanted b (peer_wanted b p) ∙ ap ok (peer_taken b p)

  listener_taken :
      (b : FdAdapterBase)
      → IsListener a b
      → seg.sender_message.syn ≡ true
      → seg.reset ≡ false
      → take_segment (some sent) d.header b ≡ (some sent, answer sent d.header b)
  unfolding take_segment connect from_peer answer
  listener_taken b p syn reset =
      let dst_port : (sent.udinfo.dst_port == b.cfg.source.port) ≡ true =
        ground (arith, c.dst_port, p.port) in
      let src_port : (sent.udinfo.src_port == sent.udinfo.src_port) ≡ true = ground arith in
      let syn' = ap (λ m. m.syn) c.sender_message ∙ syn in
      let reset' = c.reset ∙ reset in simp (p.listening, dst_port, syn', reset', src_port)

  pub unwrap_listener :
      (b : FdAdapterBase)
      → IsListener a b
      → seg.sender_message.syn ≡ true
      → seg.reset ≡ false
      → unwrap_tcp_in_ip (received sent d) b ≡ ok (some sent, answer sent d.header b)
  unwrap_listener b p syn reset =
      unwrap_wanted b (unfold is_wanted in ground (arith, p.listening, c.proto))
      ∙ ap ok (listener_taken b p syn reset)

-- If the fields of a segment are within their sizes and its payload is shorter than 2 ^ 16 - 20,
-- and the addresses of an adapter too, then `wrap_tcp_in_ip` returns a datagram; serializing that
-- and parsing the bytes gives a datagram, which the adapter at the other end of the connection
-- unwraps to the segment that was sent, itself unchanged. The segment sent has the messages and
-- the flags of the one given and the adapter's ports, and both checksums are right.
pub unwrap_tcp_in_ip-wrap_tcp_in_ip :
    (seg : TcpSegment) (a b : FdAdapterBase)
    → IsSegment seg
    → IsAddress a.cfg.source
    → IsAddress a.cfg.destination
    → IsPeer a b
    → (sent : TcpSegment) × (d d' : Ipv4Datagram) × (wrap_tcp_in_ip seg a ≡ ok (sent, d))
      × ((Ipv4.serialize_buffers d >>= Ipv4.parse_buffers) ≡ ok (some d'))
      × (unwrap_tcp_in_ip d' b ≡ ok (some sent, b))
      × Carries seg a sent d
unwrap_tcp_in_ip-wrap_tcp_in_ip seg a b v s t p =
    let (sent, d, e, c) = wrap-Carries seg a v s t in
    (sent, d, received sent d, e, datagram_read seg a sent d c, unwrap_peer seg a sent d c b p, c)

-- A listening adapter that is bound to the port unwraps a segment with the SYN flag and without a
-- reset, if the segment and the addresses are as above, and becomes the other end of the sender's
-- connection: its addresses and ports are the sender's, exchanged, and it listens no more.
pub unwrap_tcp_in_ip-wrap_tcp_in_ip_syn :
    (seg : TcpSegment) (a b : FdAdapterBase)
    → IsSegment seg
    → IsAddress a.cfg.source
    → IsAddress a.cfg.destination
    → IsListener a b
    → seg.sender_message.syn ≡ true
    → seg.reset ≡ false
    → (sent : TcpSegment) × (d d' : Ipv4Datagram) × (b' : FdAdapterBase) × (wrap_tcp_in_ip seg a
        ≡ ok (sent, d))
      × ((Ipv4.serialize_buffers d >>= Ipv4.parse_buffers) ≡ ok (some d'))
      × (unwrap_tcp_in_ip d' b ≡ ok (some sent, b'))
      × IsPeer a b'
      × IsPeer b' (record a { listen = false })
unfolding answer
unwrap_tcp_in_ip-wrap_tcp_in_ip_syn seg a b v s t p syn reset =
    let (sent, d, e, c) = wrap-Carries seg a v s t in
    let source : Path Address (record { ipv4_numeric = d.header.dst; port = b.cfg.source.port })
        a.cfg.destination =
      ap₂ {C = Address} (λ n k. record { ipv4_numeric = n; port = k }) c.dst p.port in
    let destination : Path Address
        (record { ipv4_numeric = d.header.src; port = sent.udinfo.src_port }) a.cfg.source =
      ap₂ {C = Address} (λ n k. record { ipv4_numeric = n; port = k }) c.src c.src_port in
    (
      sent,
      d,
      received sent d,
      answer sent d.header b,
      e,
      datagram_read seg a sent d c,
      unwrap_listener seg a sent d c b p syn reset,
      record { connected = refl; source = source; destination = destination },
      record { connected = refl; source = sym destination; destination = sym source },
    )
