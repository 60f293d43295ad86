-- ===== src/TcpPeer.antt =====
-- The peer of a TCP connection, util/tcp_peer.hh: the sender, the receiver, the reassembler and both
-- streams. The writer of the outbound stream and the reader of the inbound one are views of its fields.
pub mod Reset
pub mod Receive
pub mod Reply
mod Tests
use os_stream_socket.Base.{
  ℕ, List, [], ◌∷◌, Bool, true, false, not, ◌||◌, ◌&&◌, ◌==◌, ltb, if◌then◌else◌, Option, none,
  some, Outcome, ok, ◌>>=◌,
}
use os_stream_socket.ByteStream.{ByteStream}
use os_stream_socket.ByteStream
use os_stream_socket.WrappingIntegers.{Wrap32, plus, same}
use os_stream_socket.Reassembler.{Reassembler}
use os_stream_socket.Reassembler
use os_stream_socket.TcpMessages.{TcpSenderMessage, TcpReceiverMessage, sequence_length}
use os_stream_socket.TcpReceiver.{TcpReceiver}
use os_stream_socket.TcpReceiver
use os_stream_socket.TcpSender.{TcpSender}
use os_stream_socket.TcpSender
use os_stream_socket.TcpSegment.{TcpSegment, default_segment, has_ackno}

pub record TcpConfig : Type 0 where
  pub rt_timeout : ℕ
  pub recv_capacity : ℕ
  pub send_capacity : ℕ
  pub fixed_isn : Option Wrap32

abbrev pub default_config : TcpConfig
default_config = record {
  rt_timeout = 1000;
  recv_capacity = 64000;
  send_capacity = 64000;
  fixed_isn = none;
}

pub record TcpPeer : Type 0 where
  pub sender : TcpSender
  pub receiver : TcpReceiver
  pub reassembler : Reassembler
  pub outbound_stream : ByteStream
  pub inbound_stream : ByteStream
  pub need_send : Bool

-- The random number is the sender's first sequence number, unless one is fixed.
unfoldable pub new : TcpConfig → ℕ → TcpPeer
new cfg random = record {
  sender = TcpSender.new cfg.rt_timeout cfg.fixed_isn random;
  receiver = TcpReceiver.new;
  reassembler = Reassembler.new;
  outbound_stream = ByteStream.new cfg.send_capacity;
  inbound_stream = ByteStream.new cfg.recv_capacity;
  need_send = false;
}

unfoldable pub push : TcpPeer → Outcome TcpPeer
push p = TcpSender.push p.sender p.outbound_stream >>= λ (sender, outbound).
    ok (record p { sender = sender; outbound_stream = outbound })

unfoldable pub tick : ℕ → TcpPeer → TcpPeer
tick ms_since_last_tick p = record p { sender = TcpSender.tick ms_since_last_tick p.sender }

unfoldable pub receiver_message : TcpPeer → TcpReceiverMessage
receiver_message p = TcpReceiver.send p.receiver p.inbound_stream

unfoldable pub peer_has_ackno : TcpPeer → Bool
unfolding receiver_message has_ackno
peer_has_ackno p = has_ackno (receiver_message p).ackno

unfoldable pub active : TcpPeer → Bool
active p =
    if ByteStream.has_error p.inbound_stream
    then false
    else (not (ByteStream.is_finished p.outbound_stream)
        || not (ByteStream.is_closed p.inbound_stream)
        || not (p.sender.sequence_numbers_in_flight == 0))

-- A keep-alive repeats the sequence number before the next one.
unfoldable pub is_keep_alive : TcpSenderMessage → Option Wrap32 → Bool
is_keep_alive message none = false
is_keep_alive message (some our_ackno) = same (plus message.seqno 1) our_ackno

unfoldable pub note_need_send : TcpSenderMessage → TcpPeer → Bool
unfolding is_keep_alive receiver_message
note_need_send message p =
    p.need_send
    || ltb 0 (sequence_length message)
    || is_keep_alive message (receiver_message p).ackno

unfoldable pub receive_messages : TcpSegment → TcpPeer → Outcome TcpPeer
unfolding note_need_send
receive_messages seg p =
    TcpReceiver.receive seg.sender_message p.receiver p.reassembler p.inbound_stream
    >>= λ (receiver, reassembler, inbound). ok (record {
      sender = TcpSender.receive seg.receiver_message p.sender;
      receiver = receiver;
      reassembler = reassembler;
      outbound_stream = p.outbound_stream;
      inbound_stream = inbound;
      need_send = note_need_send seg.sender_message p;
    })

unfoldable pub receive : TcpSegment → TcpPeer → Outcome TcpPeer
unfolding receive_messages
receive seg p =
    if seg.reset || ByteStream.has_error p.inbound_stream
    then ok (record p { inbound_stream = ByteStream.set_error p.inbound_stream })
    else receive_messages seg p

-- The sender's next message, or an empty one if there is none and something must be sent.
unfoldable pub next_message : Option TcpSenderMessage → Bool → TcpSender → Option TcpSenderMessage
next_message (some message) need_send sender = some message
next_message none need_send sender =
    if need_send then some (TcpSender.send_empty_message sender) else none

unfoldable pub segment_from :
    TcpReceiverMessage → Option TcpSenderMessage → TcpPeer → Option TcpSegment
unfolding default_segment
segment_from message none p = none
segment_from message (some sender_msg) p = some (record default_segment {
  sender_message = sender_msg;
  receiver_message = message;
  reset = ByteStream.has_error p.outbound_stream || ByteStream.has_error p.inbound_stream;
})

unfoldable pub send_next : TcpReceiverMessage → TcpPeer → Option TcpSegment × TcpPeer
unfolding next_message segment_from
send_next message p =
    let (sender_msg, sender) = TcpSender.maybe_send p.sender in
    let p' : TcpPeer = record p { sender = sender; need_send = false } in
    (segment_from message (next_message sender_msg p.need_send sender) p', p')

unfoldable pub maybe_send : TcpPeer → Outcome (Option TcpSegment × TcpPeer)
unfolding push receiver_message has_ackno send_next
maybe_send p =
    let message = receiver_message p in
    (if has_ackno message.ackno then push p else ok p) >>= λ p'. ok (send_next message p')
