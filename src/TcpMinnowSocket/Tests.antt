-- ===== src/TcpMinnowSocket/Tests.antt =====
-- A socket whose peer has two bytes to send, and whose owner writes a third.
use os_stream_socket.Base.{
  ℕ, ◌≡◌, refl, inl, List, [], ◌∷◌, ◌++◌, true, false, none, some, Outcome, ok, ◌>>=◌, arith,
}
use os_stream_socket.ByteStream.{ByteStream}
use os_stream_socket.ByteStream
use os_stream_socket.WrappingIntegers.{Wrap32}
use os_stream_socket.Reassembler
use os_stream_socket.TcpMessages.{sequence_length}
use os_stream_socket.TcpSender.{TcpSender}
use os_stream_socket.TcpSender.Invariant.{IsSending, total}
use os_stream_socket.TcpSegment.{TcpSegment}
use os_stream_socket.TcpPeer.{TcpPeer, default_config}
use os_stream_socket.TcpSender
use os_stream_socket.TcpPeer
use os_stream_socket.TcpReceiver
use os_stream_socket.TcpSegment
use os_stream_socket.TcpMessages
use os_stream_socket.WrappingIntegers
use os_stream_socket.FileDescriptor.{FdWrapper, returned}
use os_stream_socket.StreamCopy.{pull}
use os_stream_socket.TcpMinnowSocket.{
  TcpMinnowSocket, Adapter, Answers, collect_segments, push_bytes,
}
use os_stream_socket.TcpMinnowSocket.Collect.{
  IsLive, Collected, carried, collect_segments-Collected,
}
use os_stream_socket.TcpMinnowSocket.Owner.{Passed, push_bytes-Passed}

abbrev isn : Wrap32
isn = record { raw_value = 40 }

abbrev sender : TcpSender
sender = record {
  isn = isn;
  initial_rto_ms = 1000;
  send_messages = [];
  outstanding_messages = [];
  next_abs_seqno = 1;
  abs_ackno = 0;
  sequence_numbers_in_flight = 0;
  consecutive_retransmissions = 0;
  retransmission_timeout = 1000;
  receiver_window_size = 3;
  receiver_window_space = 3;
  time_elapsed = 0;
  syn = true;
  fin = false;
  free_window = false;
}

sender-IsSending : IsSending sender
unfolding total
sender-IsSending = record {
  word = omega arith;
  counted = refl;
  behind = omega arith;
  next_word = omega arith;
  numbered = tt;
  space = inl (omega arith);
  size_word = omega arith;
}

-- Two bytes to send.
abbrev outbound : ByteStream
outbound = record {
  capacity = 9;
  stream = 5 ∷ 6 ∷ [];
  bytes_read = 0;
  bytes_write = 2;
  error = false;
  closed = false;
}

abbrev inbound : ByteStream
inbound = record {
  capacity = 4;
  stream = [];
  bytes_read = 0;
  bytes_write = 0;
  error = false;
  closed = false;
}

abbrev peer : TcpPeer
peer = record {
  sender = sender;
  receiver = record { isn = record { raw_value = 0 }; fin = false; syn = false };
  reassembler = Reassembler.new;
  outbound_stream = outbound;
  inbound_stream = inbound;
  need_send = false;
}

abbrev descriptor : FdWrapper
descriptor = record {
  fd = 3;
  eof = false;
  closed = false;
  non_blocking = true;
  read_count = 0;
  write_count = 0;
}

-- The adapter keeps what is written to it, and hands it back when it is read.
abbrev echo : Adapter (List TcpSegment)
echo = record {
  fd = λ segs. descriptor;
  read = λ segs. elim segs [ [] ↦ ok (none, []) | seg ∷ rest ↦ ok (some seg, rest) ];
  write = λ seg segs. ok (segs ++ seg ∷ []);
  tick = λ ms segs. ok segs;
  set_config = λ cfg segs. segs;
  set_listening = λ listen segs. segs;
}

abbrev answers : Answers
answers = record {
  read_data = returned (7 ∷ []);
  write_data = returned 1;
  shutdown_data = returned 0;
  abort = false;
  now = 0;
}

abbrev socket : TcpMinnowSocket (List TcpSegment)
socket = record {
  thread_data = descriptor;
  datagram_adapter = [];
  tcp = peer;
  outgoing_segments = [];
  inbound_shutdown = false;
  outbound_shutdown = false;
  fully_acked = false;
  answers = answers;
  taken = [];
  given = [];
}

peer-IsLive : IsLive peer
peer-IsLive = record {
  sending = sender-IsSending;
  outbound = record {
    fits = omega arith;
    small = omega arith;
    read_word = omega arith;
    counted = omega arith;
  };
  ready = inl refl;
  far = omega arith;
}

abbrev queued : Outcome (TcpMinnowSocket (List TcpSegment)) → Outcome (List ℕ × List ℕ)
queued done = done >>= λ t. ok (carried t.outgoing_segments, t.tcp.outbound_stream.stream)

-- The window has room for three bytes.
three_queued : queued (push_bytes socket) ≡ ok (5 ∷ 6 ∷ 7 ∷ [], [])
unfolding push_bytes TcpPeer.push TcpSender.push TcpSender.syn_unacked TcpSender.has_buffered
    ByteStream.bytes_buffered TcpSender.push_loop TcpSender.may_send TcpSender.push_round
    ByteStream.read TcpSender.read_size TcpSender.send_segment TcpSender.open_window sequence_length
    TcpSender.segment_of ByteStream.is_finished TcpPeer.maybe_send TcpReceiver.send
    ByteStream.available_capacity ByteStream.bytes_pushed ByteStream.close ByteStream.has_error
    ByteStream.is_closed TcpSegment.default_segment TcpMessages.default_message
    TcpReceiver.last_ack_abs_seqno TcpSender.maybe_send TcpSender.push_fin TcpSender.queue
    TcpSender.update_status TcpSender.window_shut TcpSender.send_empty_message WrappingIntegers.wrap
    TcpPeer.send_next TcpPeer.segment_from TcpPeer.next_message TcpPeer.receiver_message
    TcpSegment.has_ackno
three_queued = refl

collect_segments-Collected_example :
    (t' : TcpMinnowSocket (List TcpSegment)) × (collect_segments socket ≡ ok t')
    × Collected socket t'
collect_segments-Collected_example = collect_segments-Collected socket peer-IsLive

push_bytes-Passed_example :
    (t' : TcpMinnowSocket (List TcpSegment)) × (push_bytes socket ≡ ok t')
    × Passed socket (7 ∷ []) t'
unfolding pull ByteStream.available_capacity ByteStream.push
push_bytes-Passed_example =
    push_bytes-Passed socket (7 ∷ []) (record descriptor { read_count = 1 })
      (ByteStream.push (7 ∷ []) outbound) peer-IsLive (omega arith) tt refl (omega arith)
