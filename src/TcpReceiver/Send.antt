-- ===== src/TcpReceiver/Send.antt =====
-- What the receiver tells its peer.
use os_stream_socket.Base.{
  ℕ, ◌+◌, ◌-◌, ◌^◌, ◌<◌, ◌≡◌, refl, Bool, true, false, ◌&&◌, none, some, arith, min, length,
}
use os_stream_socket.ByteStream.{ByteStream, bytes_pushed, is_closed}
use os_stream_socket.ByteStream.Invariant.{IsValid, available_capacity_lem}
use os_stream_socket.WrappingIntegers.{Wrap32, IsWord, wrap, unwrap, absolute_delta}
use os_stream_socket.WrappingIntegers.Unwrap.{unwrap-wrap}
use os_stream_socket.TcpMessages.{flag_size}
use os_stream_socket.TcpReceiver.{TcpReceiver, last_ack_abs_seqno, send}

last_ack_lem :
    (r : TcpReceiver) (inbound : ByteStream)
    → bytes_pushed inbound + 2 < 2 ^ 64
    → last_ack_abs_seqno r inbound
      ≡ bytes_pushed inbound + 1 + flag_size (r.fin && is_closed inbound)
unfolding last_ack_abs_seqno
last_ack_lem r inbound h = ground arith

-- The window that is announced for a valid inbound stream is its free room, cut to 16 bits.
pub window_size-send :
    (r : TcpReceiver) (inbound : ByteStream)
    → IsValid inbound
    → (send r inbound).window_size ≡ min 65535 (inbound.capacity - length inbound.stream)
unfolding send
window_size-send r inbound v = ground (arith, available_capacity_lem inbound v)

-- If fewer than 2 ^ 64 - 2 bytes have been pushed, the number that the peer's sender makes of an
-- acknowledgment, with any 64-bit checkpoint less than 2 ^ 31 away, is one more than the bytes
-- assembled, and two more once a FIN has been seen and the stream is closed; there is an
-- acknowledgment exactly when a SYN has been seen.
pub ackno-send :
    (r : TcpReceiver) (inbound : ByteStream) (checkpoint : ℕ)
    → IsWord r.isn
    → bytes_pushed inbound + 2 < 2 ^ 64
    → checkpoint < 2 ^ 64
    → absolute_delta checkpoint (bytes_pushed inbound + 1 + flag_size (r.fin && is_closed inbound))
      < 2 ^ 31
    → (r.syn ≡ false → (send r inbound).ackno ≡ none)
      × (r.syn ≡ true
          → (ackno : Wrap32) × ((send r inbound).ackno ≡ some ackno)
            × (unwrap ackno r.isn checkpoint
                ≡ bytes_pushed inbound + 1 + flag_size (r.fin && is_closed inbound)))
unfolding send
ackno-send r inbound checkpoint word small c near = (
  (λ s. rw s refl),
  (λ s. (
    wrap (last_ack_abs_seqno r inbound) r.isn,
    rw s refl,
    rw (last_ack_lem r inbound small)
        (unwrap-wrap _ r.isn checkpoint word (bound (r.fin && is_closed inbound)) c near),
  )),
)
  where
    bound : (b : Bool) → bytes_pushed inbound + 1 + flag_size b < 2 ^ 64
    bound true = omega arith
    bound false = omega arith
