-- ===== src/TuntapAdapter.antt =====
-- The adapters over the TUN and the TAP device of util/tuntap_adapter.hh and util/tuntap_adapter.cc.
-- What `read` gets from the device is an argument, and what is written to it is the list of the
-- buffers of each write.
pub mod Pending
use os_stream_socket.Base.{
  ℕ, zero, suc, ◌++◌, List, [], ◌∷◌, Bool, true, false, length, Option, none, some, Outcome, ok,
  err, out_of_fuel, ◌>>=◌,
}
use os_stream_socket.TcpSegment.{TcpSegment}
use os_stream_socket.Frames.{EthernetAddress, EthernetFrame, Ipv4Datagram}
use os_stream_socket.Frames.Ethernet
use os_stream_socket.Frames.Ipv4
use os_stream_socket.Frames.Wire.{wire_formats}
use os_stream_socket.NetworkInterface.{NetworkInterface}
use os_stream_socket.NetworkInterface
use os_stream_socket.TcpOverIp.{Address, FdAdapterBase, unwrap_tcp_in_ip, wrap_tcp_in_ip}
use os_stream_socket.TcpOverIp

unfoldable pub unwrap_if :
    Option Ipv4Datagram → FdAdapterBase → Outcome (Option TcpSegment × FdAdapterBase)
unwrap_if none a = ok (none, a)
unwrap_if (some ip_dgram) a = unwrap_tcp_in_ip ip_dgram a

unfoldable pub tun_read :
    List (List ℕ) → FdAdapterBase → Outcome (Option TcpSegment × FdAdapterBase)
unfolding unwrap_if
tun_read strs a = Ipv4.parse_buffers strs >>= λ ip_dgram. unwrap_if ip_dgram a

-- The segment as the call leaves it, and what is written.
unfoldable pub tun_write : TcpSegment → FdAdapterBase → Outcome (TcpSegment × List (List ℕ))
tun_write seg a = wrap_tcp_in_ip seg a >>= λ (seg', ip_dgram).
    Ipv4.serialize_buffers ip_dgram >>= λ strs. ok (seg', strs)

pub record TcpOverEthernet : Type 0 where
  pub base : FdAdapterBase
  pub tap : List (List (List ℕ))
  pub interface : NetworkInterface
  pub next_hop : Address

-- A frame without anything is written first.
unfoldable pub over_ethernet : EthernetAddress → Address → Address → TcpOverEthernet
over_ethernet eth_address ip_address next_hop = record {
  base = TcpOverIp.new;
  tap = Ethernet.serialize_buffers Ethernet.empty_frame ∷ [];
  interface = NetworkInterface.new eth_address ip_address.ipv4_numeric;
  next_hop = next_hop;
}

unfoldable pub send_loop : ℕ → TcpOverEthernet → Outcome TcpOverEthernet
send_loop zero t = err out_of_fuel
send_loop (suc fuel) t =
    let (next, interface) = NetworkInterface.maybe_send t.interface in
    elim next [
      | none ↦ ok (record t { interface = interface })
      | some frame ↦
          send_loop fuel (record t {
            tap = t.tap ++ Ethernet.serialize_buffers frame ∷ [];
            interface = interface;
          })
    ]

-- Each round takes a frame from the queue.
unfoldable pub send_pending : TcpOverEthernet → Outcome TcpOverEthernet
unfolding send_loop
send_pending t = send_loop (suc (length t.interface.maybe_send_queue)) t

unfoldable pub heard :
    Option EthernetFrame → TcpOverEthernet → Outcome (Option TcpSegment × TcpOverEthernet)
unfolding unwrap_if send_pending
heard none t = ok (none, t)
heard (some frame) t =
    NetworkInterface.recv_frame wire_formats frame t.interface >>= λ (ip_dgram, interface).
    send_pending (record t { interface = interface }) >>= λ t'.
    unwrap_if ip_dgram t'.base >>= λ (seg, base). ok (seg, record t' { base = base })

unfoldable pub tap_read :
    List (List ℕ) → TcpOverEthernet → Outcome (Option TcpSegment × TcpOverEthernet)
unfolding heard
tap_read strs t = Ethernet.parse_buffers strs >>= λ frame. heard frame t

unfoldable pub tap_tick : ℕ → TcpOverEthernet → Outcome TcpOverEthernet
unfolding send_pending
tap_tick ms_since_last_tick t =
    send_pending (record t { interface = NetworkInterface.tick ms_since_last_tick t.interface })

unfoldable pub tap_write : TcpSegment → TcpOverEthernet → Outcome (TcpSegment × TcpOverEthernet)
unfolding send_pending
tap_write seg t = wrap_tcp_in_ip seg t.base >>= λ (seg', ip_dgram).
    NetworkInterface.send_datagram wire_formats ip_dgram t.next_hop.ipv4_numeric t.interface
    >>= λ interface. send_pending (record t { interface = interface }) >>= λ t'. ok (seg', t')
