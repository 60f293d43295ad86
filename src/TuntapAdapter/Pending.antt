-- ===== src/TuntapAdapter/Pending.antt =====
-- `send_pending` writes all that waits, in order.
use os_stream_socket.Base.{
  ℕ, suc, ◌++◌, ◌≡◌, sym, ap, ◌∙◌, List, [], ◌∷◌, map, append_assoc, append-nil, length, ok,
}
use os_stream_socket.Frames.{EthernetFrame}
use os_stream_socket.Frames.Ethernet
use os_stream_socket.NetworkInterface.{NetworkInterface}
use os_stream_socket.NetworkInterface
use os_stream_socket.TuntapAdapter.{TcpOverEthernet, send_loop, send_pending}

-- The adapter with these frames waiting.
abbrev waiting_with : List EthernetFrame → List (List (List ℕ)) → TcpOverEthernet → TcpOverEthernet
waiting_with frames tap t = record t {
  tap = tap;
  interface = record (t.interface) { maybe_send_queue = frames };
}

loop_lem :
    (frames : List EthernetFrame) (tap : List (List (List ℕ))) (t : TcpOverEthernet)
    → send_loop (suc (length frames)) (waiting_with frames tap t)
      ≡ ok (waiting_with [] (tap ++ map Ethernet.serialize_buffers frames) t)
unfolding send_loop NetworkInterface.maybe_send
loop_lem [] tap t = ap (λ written. ok (waiting_with [] written t)) (sym (append-nil tap))
loop_lem (frame ∷ frames) tap t =
    loop_lem frames (tap ++ Ethernet.serialize_buffers frame ∷ []) t
    ∙ ap (λ written. ok (waiting_with [] written t))
        (append_assoc tap (Ethernet.serialize_buffers frame ∷ [])
          (map Ethernet.serialize_buffers frames))

-- The loop ends, and nothing waits any more.
pub send_pending_lem :
    (t : TcpOverEthernet)
    → send_pending t
      ≡ ok (record t {
        tap = t.tap ++ map Ethernet.serialize_buffers t.interface.maybe_send_queue;
        interface = record (t.interface) { maybe_send_queue = [] };
      })
unfolding send_pending
send_pending_lem t = loop_lem t.interface.maybe_send_queue t.tap t
