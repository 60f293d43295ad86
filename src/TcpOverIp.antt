-- ===== src/TcpOverIp.antt =====
-- The adapter between TCP segments and IPv4 datagrams: util/tcp_over_ip.hh, util/tcp_over_ip.cc, with
-- the state that it has from util/fd_adapter.hh and util/tcp_config.hh. An `Address` is its number and
-- its port, as `ipv4_numeric` and `port` of util/address.hh give them.
pub mod Filter
pub mod RoundTrip
pub mod Wrap
mod Tests
use os_stream_socket.Base.{
  ℕ, ◌+◌, ◌*◌, ◌/◌, ◌%◌, ◌^◌, List, [], Bool, true, false, not, ◌&&◌, ◌==◌, if◌then◌else◌, Option,
  none, some, length, to_u16, Outcome, ok, ◌>>=◌,
}
use os_stream_socket.TcpMessages.{TcpSenderMessage, TcpReceiverMessage}
use os_stream_socket.TcpSegment.{UserDatagramInfo, TcpSegment}
use os_stream_socket.TcpSegment
use os_stream_socket.Frames.{Ipv4Header, Ipv4Datagram}
use os_stream_socket.Frames.Ipv4.{default_header, proto_tcp, pseudo_checksum}
use os_stream_socket.Frames.Ipv4

pub record Address : Type 0 where
  pub ipv4_numeric : ℕ
  pub port : ℕ

pub record FdAdapterConfig : Type 0 where
  pub source : Address
  pub destination : Address
  pub loss_rate_dn : ℕ
  pub loss_rate_up : ℕ

pub record FdAdapterBase : Type 0 where
  pub cfg : FdAdapterConfig
  pub listen : Bool

unfoldable pub new : FdAdapterBase
new = record {
  cfg = record {
    source = record { ipv4_numeric = 0; port = 0 };
    destination = record { ipv4_numeric = 0; port = 0 };
    loss_rate_dn = 0;
    loss_rate_up = 0;
  };
  listen = false;
}

unfoldable pub set_listening : Bool → FdAdapterBase → FdAdapterBase
set_listening l a = record a { listen = l }

-- The addresses of a datagram and of its segment become those of the connection.
unfoldable pub answer : TcpSegment → Ipv4Header → FdAdapterBase → FdAdapterBase
answer seg h a = record {
  cfg = record (a.cfg) {
    source = record { ipv4_numeric = h.dst; port = a.cfg.source.port };
    destination = record { ipv4_numeric = h.src; port = seg.udinfo.src_port };
  };
  listen = false;
}

-- While listening, only a SYN makes a connection.
unfoldable pub connect : TcpSegment → Ipv4Header → FdAdapterBase → Option FdAdapterBase
unfolding answer
connect seg h a =
    if a.listen
    then (if seg.sender_message.syn && not seg.reset then some (answer seg h a) else none)
    else some a

unfoldable pub from_peer :
    TcpSegment → FdAdapterBase → Option FdAdapterBase → Option TcpSegment × FdAdapterBase
from_peer seg a none = (none, a)
from_peer seg a (some a') =
    if seg.udinfo.src_port == a'.cfg.destination.port then (some seg, a') else (none, a')

-- The checks of a segment that has been read.
unfoldable pub take_segment :
    Option TcpSegment → Ipv4Header → FdAdapterBase → Option TcpSegment × FdAdapterBase
unfolding connect from_peer
take_segment none h a = (none, a)
take_segment (some seg) h a =
    if seg.udinfo.dst_port == a.cfg.source.port
    then from_peer seg a (connect seg h a)
    else (none, a)

-- The checks of the header.
unfoldable pub is_wanted : Ipv4Header → FdAdapterBase → Bool
is_wanted h a =
    if not a.listen && not (h.dst == a.cfg.source.ipv4_numeric)
    then false
    else (if not a.listen && not (h.src == a.cfg.destination.ipv4_numeric)
        then false
        else h.proto == proto_tcp)

unfoldable pub unwrap_tcp_in_ip :
    Ipv4Datagram → FdAdapterBase → Outcome (Option TcpSegment × FdAdapterBase)
unfolding is_wanted take_segment
unwrap_tcp_in_ip ip_dgram a =
    if is_wanted ip_dgram.header a
    then (TcpSegment.parse_buffers (pseudo_checksum ip_dgram.header) ip_dgram.payload >>= λ seg.
        ok (take_segment seg ip_dgram.header a))
    else ok (none, a)

unfoldable pub with_ports : TcpSegment → FdAdapterBase → TcpSegment
with_ports seg a = record seg {
  udinfo = record (seg.udinfo) { src_port = a.cfg.source.port; dst_port = a.cfg.destination.port };
}

unfoldable pub header_for : TcpSegment → FdAdapterBase → Ipv4Header
unfolding default_header
header_for seg a = record default_header {
  src = a.cfg.source.ipv4_numeric;
  dst = a.cfg.destination.ipv4_numeric;
  len = to_u16 (default_header.hlen * 4 + 20 + length seg.sender_message.payload);
}

-- The datagram, and the segment as the call leaves it.
unfoldable pub wrap_tcp_in_ip : TcpSegment → FdAdapterBase → Outcome (TcpSegment × Ipv4Datagram)
unfolding with_ports header_for
wrap_tcp_in_ip seg a =
    let header = header_for seg a in
    TcpSegment.compute_checksum (pseudo_checksum header) (with_ports seg a) >>= λ seg'.
    Ipv4.compute_checksum header >>= λ header'.
    ok (seg', record { header = header'; payload = TcpSegment.serialize_buffers seg' })
