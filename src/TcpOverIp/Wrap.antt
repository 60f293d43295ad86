-- ===== src/TcpOverIp/Wrap.antt =====
-- What `wrap_tcp_in_ip` makes of a segment.
use os_stream_socket.Base.{◌^◌, ◌<◌, ◌≡◌, refl, sym, ap, subst, ◌∙◌, [], ◌∷◌, ok, ◌>>=◌, arith}
use os_stream_socket.TcpSegment.{TcpSegment, with_cksum}
use os_stream_socket.TcpSegment
use os_stream_socket.TcpSegment.RoundTrip.{IsSegment, IsSealed, wire}
use os_stream_socket.TcpSegment.Seal.{compute_checksum_segment}
use os_stream_socket.Frames.{Ipv4Header, Ipv4Datagram}
use os_stream_socket.Frames.Ipv4.{default_header, pseudo_checksum}
use os_stream_socket.Frames.Ipv4
use os_stream_socket.Frames.Ipv4.Seal.{compute_checksum_ipv4}
use os_stream_socket.Frames.Ipv4.RoundTrip.{IsHeader}
use os_stream_socket.TcpOverIp.{Address, FdAdapterBase, with_ports, header_for, wrap_tcp_in_ip}

pub record IsAddress (x : Address) : Type 0 where
  pub number : x.ipv4_numeric < 2 ^ 32
  pub port : x.port < 2 ^ 16

-- The datagram that carries a segment: `seg` as it was given, `sent` with its ports and its checksum.
pub record Carries (seg : TcpSegment) (a : FdAdapterBase) (sent : TcpSegment) (d : Ipv4Datagram)
    : Type 0 where
  pub sender_message : sent.sender_message ≡ seg.sender_message
  pub receiver_message : sent.receiver_message ≡ seg.receiver_message
  pub reset : sent.reset ≡ seg.reset
  pub src_port : sent.udinfo.src_port ≡ a.cfg.source.port
  pub dst_port : sent.udinfo.dst_port ≡ a.cfg.destination.port
  pub src : d.header.src ≡ a.cfg.source.ipv4_numeric
  pub dst : d.header.dst ≡ a.cfg.destination.ipv4_numeric
  pub proto : d.header.proto ≡ 6
  pub segment : IsSegment sent
  pub header : IsHeader d.header
  pub sealed : IsSealed (pseudo_checksum d.header) sent
  pub payload : d.payload ≡ wire sent ∷ sent.sender_message.payload ∷ [] ∷ []

pseudo_small :
    (seg : TcpSegment) (a : FdAdapterBase)
    → IsAddress a.cfg.source
    → IsAddress a.cfg.destination
    → pseudo_checksum (header_for seg a) < 2 ^ 20
unfolding pseudo_checksum header_for default_header
pseudo_small seg a s d = omega (arith, s.number, d.number)

with_ports-IsSegment :
    (seg : TcpSegment) (a : FdAdapterBase)
    → IsSegment seg
    → IsAddress a.cfg.source
    → IsAddress a.cfg.destination
    → IsSegment (with_ports seg a)
unfolding with_ports
with_ports-IsSegment seg a v s d = record {
  src_port = s.port;
  dst_port = d.port;
  cksum = v.cksum;
  seqno = v.seqno;
  ackno = v.ackno;
  window_size = v.window_size;
  payload = v.payload;
  short = v.short;
}

-- The header with its checksum.
made-IsHeader :
    (seg : TcpSegment) (a : FdAdapterBase) (h : Ipv4Header)
    → IsAddress a.cfg.source
    → IsAddress a.cfg.destination
    → Ipv4.compute_checksum h ≡ ok h
    → h.cksum < 2 ^ 16
    → record h { cksum = (header_for seg a).cksum } ≡ header_for seg a
    → IsHeader h
unfolding header_for default_header
made-IsHeader seg a h s t sealed small same = record {
  ver = ap (λ x. x.ver) same;
  hlen = ap (λ x. x.hlen) same;
  tos = omega (arith, ap (λ x. x.tos) same);
  len = omega (arith, ap (λ x. x.len) same);
  id = omega (arith, ap (λ x. x.id) same);
  offset = omega (arith, ap (λ x. x.offset) same);
  ttl = omega (arith, ap (λ x. x.ttl) same);
  proto = omega (arith, ap (λ x. x.proto) same);
  cksum = small;
  src = omega (arith, ap (λ x. x.src) same, s.number);
  dst = omega (arith, ap (λ x. x.dst) same, t.number);
  sealed = sealed;
}

same_pseudo :
    (h h' : Ipv4Header) → record h' { cksum = h.cksum } ≡ h → pseudo_checksum h ≡ pseudo_checksum h'
unfolding pseudo_checksum
same_pseudo h h' same = sym (ap pseudo_checksum same)

pub wrap-Carries :
    (seg : TcpSegment) (a : FdAdapterBase)
    → IsSegment seg
    → IsAddress a.cfg.source
    → IsAddress a.cfg.destination
    → (sent : TcpSegment) × (d : Ipv4Datagram) × (wrap_tcp_in_ip seg a ≡ ok (sent, d))
      × Carries seg a sent d
unfolding wrap_tcp_in_ip
wrap-Carries seg a v s t =
    let header = header_for seg a in
    let four : header.ver ≡ 4 = (unfold header_for default_header in refl) in
    let (cksum, computed, good, sealed) =
      compute_checksum_segment (with_ports seg a) (pseudo_checksum header)
        (with_ports-IsSegment seg a v s t) (pseudo_small seg a s t) in
    let (header', made, again, small, same) = compute_checksum_ipv4 header four in
    let sent = with_cksum (with_ports seg a) cksum in
    let d : Ipv4Datagram = record {
      header = header';
      payload = TcpSegment.serialize_buffers sent;
    } in
    (
      sent,
      d,
      ap
            (λ o. o >>= λ seg'. Ipv4.compute_checksum header >>= λ h.
              ok (seg', record { header = h; payload = TcpSegment.serialize_buffers seg' }))
            computed
          ∙ ap
              (λ o. o >>= λ h.
                ok (sent, record { header = h; payload = TcpSegment.serialize_buffers sent }))
              made,
      record {
        sender_message = (unfold with_cksum with_ports in refl);
        receiver_message = (unfold with_cksum with_ports in refl);
        reset = (unfold with_cksum with_ports in refl);
        src_port = (unfold with_cksum with_ports in refl);
        dst_port = (unfold with_cksum with_ports in refl);
        src = (unfold header_for in ap (λ h. h.src) same);
        dst = (unfold header_for in ap (λ h. h.dst) same);
        proto = (unfold header_for default_header in ap (λ h. h.proto) same);
        segment = good;
        header = made-IsHeader seg a header' s t again small same;
        sealed = subst (λ n. IsSealed n sent) (same_pseudo header header' same) sealed;
        payload = TcpSegment.RoundTrip.serialize_lem sent;
      },
    )
