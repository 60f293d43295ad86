-- ===== src/TcpOverIp/Filter.antt =====
-- Which segments the adapter lets through.
use os_stream_socket.Base.{
  ◌≡◌, refl, subst, true, false, ◌==◌, Option, none, some, Bool-cases, inl, inr, ◌⊎◌, Outcome, ok,
  err, ◌>>=◌, arith,
}
use os_stream_socket.TcpSegment.{TcpSegment}
use os_stream_socket.TcpSegment
use os_stream_socket.Frames.{Ipv4Header, Ipv4Datagram}
use os_stream_socket.Frames.Ipv4.{pseudo_checksum}
use os_stream_socket.TcpOverIp.{
  FdAdapterBase, answer, connect, from_peer, take_segment, is_wanted, unwrap_tcp_in_ip,
}

-- The addresses and ports of what came through are those of the connection.
pub record IsFromPeer (h : Ipv4Header) (seg : TcpSegment) (a : FdAdapterBase) : Type 0 where
  pub connected : a.listen ≡ false
  pub proto : h.proto ≡ 6
  pub dst : h.dst ≡ a.cfg.source.ipv4_numeric
  pub src : h.src ≡ a.cfg.destination.ipv4_numeric
  pub dst_port : seg.udinfo.dst_port ≡ a.cfg.source.port
  pub src_port : seg.udinfo.src_port ≡ a.cfg.destination.port

-- The adapter stays as it was, or it was listening, and a SYN opened the connection.
pub IsKeptOrOpened : Ipv4Header → TcpSegment → FdAdapterBase → FdAdapterBase → Type 0
IsKeptOrOpened h seg a a' =
    ((a.listen ≡ false) × (a' ≡ a))
    ⊎ ((a.listen ≡ true)
        × (seg.sender_message.syn ≡ true)
        × (seg.reset ≡ false)
        × (a' ≡ answer seg h a))

-- What is so of the result.
abbrev Passed : Ipv4Header → FdAdapterBase → Option TcpSegment × FdAdapterBase → Type 0
Passed h a (none, a') = a.listen ≡ false → a' ≡ a
Passed h a (some seg, a') = IsFromPeer h seg a' × IsKeptOrOpened h seg a a'

abbrev Passes : Ipv4Header → FdAdapterBase → Outcome (Option TcpSegment × FdAdapterBase) → Type 0
Passes h a (ok r) = Passed h a r
Passes h a (err e) = Unit

passed_open :
    (seg : TcpSegment) (h : Ipv4Header) (a : FdAdapterBase)
    → a.listen ≡ true
    → h.proto ≡ 6
    → seg.udinfo.dst_port ≡ a.cfg.source.port
    → seg.sender_message.syn ≡ true
    → seg.reset ≡ false
    → Passed h a (from_peer seg a (some (answer seg h a)))
unfolding from_peer IsKeptOrOpened answer
passed_open seg h a l proto dst syn reset =
    let same : (seg.udinfo.src_port == seg.udinfo.src_port) ≡ true = ground arith in
    rw same (
      record {
        connected = refl;
        proto = proto;
        dst = refl;
        src = refl;
        dst_port = dst;
        src_port = refl;
      },
      inr (l, syn, reset, refl),
    )

passed_kept :
    (seg : TcpSegment) (h : Ipv4Header) (a : FdAdapterBase)
    → a.listen ≡ false
    → is_wanted h a ≡ true
    → seg.udinfo.dst_port ≡ a.cfg.source.port
    → Passed h a (from_peer seg a (some a))
unfolding from_peer is_wanted IsKeptOrOpened
passed_kept seg h a l wanted dst =
    elim (Bool-cases (seg.udinfo.src_port == a.cfg.destination.port)) [
      | inl same ↦ rw same (
        record {
          connected = l;
          proto = ground (arith, wanted, l);
          dst = ground (arith, wanted, l);
          src = ground (arith, wanted, l);
          dst_port = dst;
          src_port = ground (arith, same);
        },
        inl (l, refl),
      )
      | inr other ↦ rw other (λ _. refl)
    ]

connect-cases :
    (seg : TcpSegment) (h : Ipv4Header) (a : FdAdapterBase)
    → ((a.listen ≡ false) × (connect seg h a ≡ some a))
      ⊎ ((a.listen ≡ true) × (connect seg h a ≡ none))
      ⊎ ((a.listen ≡ true)
          × (seg.sender_message.syn ≡ true)
          × (seg.reset ≡ false)
          × (connect seg h a ≡ some (answer seg h a)))
unfolding connect
connect-cases seg h a = elim (Bool-cases a.listen) [
  | inr shut ↦ inl (shut, simp shut)
  | inl l ↦ elim (Bool-cases seg.sender_message.syn) [
    | inr bare ↦ inr (inl (l, simp (l, bare)))
    | inl syn ↦ elim (Bool-cases seg.reset) [
      | inl reset ↦ inr (inl (l, simp (l, syn, reset)))
      | inr fine ↦ inr (inr (l, syn, fine, simp (l, syn, fine)))
    ]
  ]
]

passed_connect :
    (seg : TcpSegment) (h : Ipv4Header) (a : FdAdapterBase)
    → is_wanted h a ≡ true
    → seg.udinfo.dst_port ≡ a.cfg.source.port
    → Passed h a (from_peer seg a (connect seg h a))
unfolding from_peer
passed_connect seg h a wanted dst = elim (connect-cases seg h a) [
  | inl (l, e) ↦ rw e (passed_kept seg h a l wanted dst)
  | inr (inl (l, e)) ↦ rw e (λ _. refl)
  | inr (inr (l, syn, reset, e)) ↦
      rw e (passed_open seg h a l (unfold is_wanted in ground (arith, wanted, l)) dst syn reset)
]

passed :
    (seg : Option TcpSegment) (h : Ipv4Header) (a : FdAdapterBase)
    → is_wanted h a ≡ true
    → Passed h a (take_segment seg h a)
unfolding take_segment
passed none h a wanted = λ _. refl
passed (some seg) h a wanted = elim (Bool-cases (seg.udinfo.dst_port == a.cfg.source.port)) [
  | inl same ↦ rw same (passed_connect seg h a wanted (ground (arith, same)))
  | inr other ↦ rw other (λ _. refl)
]

unwrap-Passes : (d : Ipv4Datagram) (a : FdAdapterBase) → Passes d.header a (unwrap_tcp_in_ip d a)
unfolding unwrap_tcp_in_ip
unwrap-Passes d a = elim (Bool-cases (is_wanted d.header a)) [
  | inl wanted ↦
      rw wanted (read (TcpSegment.parse_buffers (pseudo_checksum d.header) d.payload) wanted)
  | inr other ↦ rw other (λ _. refl)
]
  where
    read :
        (o : Outcome (Option TcpSegment))
        → is_wanted d.header a ≡ true
        → Passes d.header a (o >>= λ seg. ok (take_segment seg d.header a))
    read (ok seg) wanted = passed seg d.header a wanted
    read (err e) wanted = tt

-- When `unwrap_tcp_in_ip` returns a segment, the adapter does not listen afterwards, the datagram
-- is one of TCP, and its addresses and the segment's ports are those of the adapter's connection;
-- the adapter is unchanged, or it was listening, the segment has the SYN flag and no reset, and
-- the connection is the one that the segment asks for.
pub unwrap-IsFromPeer :
    (d : Ipv4Datagram) (seg : TcpSegment) (a a' : FdAdapterBase)
    → unwrap_tcp_in_ip d a ≡ ok (some seg, a')
    → IsFromPeer d.header seg a' × IsKeptOrOpened d.header seg a a'
unwrap-IsFromPeer d seg a a' e = subst (Passes d.header a) e (unwrap-Passes d a)

pub unwrap_keeps :
    (d : Ipv4Datagram) (a a' : FdAdapterBase)
    → a.listen ≡ false
    → unwrap_tcp_in_ip d a ≡ ok (none, a')
    → a' ≡ a
unwrap_keeps d a a' l e = subst (Passes d.header a) e (unwrap-Passes d a) l
