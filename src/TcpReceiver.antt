-- ===== src/TcpReceiver.antt =====
-- The receiver of src/tcp_receiver.hh and src/tcp_receiver.cc. The reassembler and the inbound
-- stream, which the source takes by reference, are passed in and handed back.
pub mod Receive
pub mod Send
mod Tests
use os_stream_socket.Base.{
  ℕ, suc, ◌+◌, ◌-◌, ◌^◌, ◌<◌, ◌≤◌, Bool, true, false, ◌&&◌, ◌||◌, not, Option, none, some, ltb, leb,
  if◌then◌else◌, add64, sub64, to_u16, Outcome, ok, ◌>>=◌,
}
use os_stream_socket.ByteStream.{ByteStream}
use os_stream_socket.ByteStream
use os_stream_socket.WrappingIntegers.{Wrap32, wrap, unwrap}
use os_stream_socket.Reassembler.{Reassembler}
use os_stream_socket.Reassembler
use os_stream_socket.TcpMessages.{TcpSenderMessage, TcpReceiverMessage, sequence_length}

pub record TcpReceiver : Type 0 where
  pub isn : Wrap32
  pub fin : Bool
  pub syn : Bool

unfoldable pub new : TcpReceiver
new = record { isn = record { raw_value = 0 }; fin = false; syn = false }

-- One for the SYN, and one for the FIN once all before it has been assembled.
unfoldable pub last_ack_abs_seqno : TcpReceiver → ByteStream → ℕ
last_ack_abs_seqno r inbound =
    let ack = add64 (ByteStream.bytes_pushed inbound) 1 in
    if r.fin && ByteStream.is_closed inbound then add64 ack 1 else ack

-- The first SYN fixes the zero point.
unfoldable pub note_syn : TcpSenderMessage → TcpReceiver → TcpReceiver
note_syn message r =
    if message.syn && not r.syn then record r { syn = true; isn = message.seqno } else r

-- Does the segment overlap the window?
unfoldable pub in_window : ℕ → TcpSenderMessage → TcpReceiver → ByteStream → Bool
unfolding last_ack_abs_seqno
in_window abs_seqno message r inbound =
    let ack = last_ack_abs_seqno r inbound in
    ltb abs_seqno (add64 ack (ByteStream.available_capacity inbound))
    && ltb ack (add64 abs_seqno (sequence_length message))

unfoldable pub note_fin : TcpSenderMessage → TcpReceiver → TcpReceiver
note_fin message r = if r.syn && message.fin then record r { fin = true } else r

-- The stream index of the payload: the SYN has none.
unfoldable pub stream_index : ℕ → ℕ
stream_index abs_seqno = if leb 1 abs_seqno then sub64 abs_seqno 1 else abs_seqno

-- `receive` after the SYN has been noted.
unfoldable pub receive_segment :
    TcpSenderMessage
    → TcpReceiver
    → Reassembler
    → ByteStream
    → Outcome (TcpReceiver × Reassembler × ByteStream)
receive_segment message r reassembler inbound =
    let abs_seqno = unwrap message.seqno r.isn (ByteStream.bytes_pushed inbound) in
    let r' = note_fin message r in
    let inserted =
      (Reassembler.insert (stream_index abs_seqno) message.payload r'.fin inbound reassembler
        >>= λ (re, w). ok (r', re, w)) in
    if in_window abs_seqno message r inbound then inserted else ok (r, reassembler, inbound)

unfoldable pub receive :
    TcpSenderMessage
    → TcpReceiver
    → Reassembler
    → ByteStream
    → Outcome (TcpReceiver × Reassembler × ByteStream)
receive message r reassembler inbound =
    if not r.syn && not message.syn
    then ok (r, reassembler, inbound)
    else receive_segment message (note_syn message r) reassembler inbound

unfoldable pub send : TcpReceiver → ByteStream → TcpReceiverMessage
send r inbound =
    let room = ByteStream.available_capacity inbound in
    let window_size = (if leb 65536 room then 65535 else room) in
    record {
      ackno = (if r.syn then some (wrap (last_ack_abs_seqno r inbound) r.isn) else none);
      window_size = to_u16 window_size;
    }
