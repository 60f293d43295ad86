-- ===== src/TcpSender/Tests.antt =====
-- Runs of the sender, and its theorems at concrete states.
use os_stream_socket.Base.{
  ℕ, ◌+◌, ◌-◌, ◌<◌, ◌≡◌, ◌⊎◌, refl, List, [], ◌∷◌, ◌++◌, true, false, arith, ok, inl, some,
}
use os_stream_socket.ByteStream
use os_stream_socket.ByteStream.{ByteStream}
use os_stream_socket.ByteStream.Invariant.{IsValid}
use os_stream_socket.WrappingIntegers.{Wrap32, wrap, unwrap}
use os_stream_socket.TcpMessages.{TcpSenderMessage, sequence_length}
use os_stream_socket.TcpSender
use os_stream_socket.TcpSender.{TcpSender, push, push_loop, push_round, receive, tick, maybe_send}
use os_stream_socket.TcpSender.Invariant.{IsSending, total}
use os_stream_socket.TcpSender.Transmit.{Pushed, push_lem}
use os_stream_socket.TcpSender.Syn.{push_first}
use os_stream_socket.TcpSender.Ack.{Acknowledged, InFlight, receive-Acknowledged}
use os_stream_socket.TcpSender.Timer.{BackedOff, ticks, ticks-BackedOff}

abbrev isn : Wrap32
isn = record { raw_value = 40 }

-- As `TcpSender.new` makes it.
abbrev fresh : TcpSender
fresh = record {
  isn = isn;
  initial_rto_ms = 1000;
  send_messages = [];
  outstanding_messages = [];
  next_abs_seqno = 0;
  abs_ackno = 0;
  sequence_numbers_in_flight = 0;
  consecutive_retransmissions = 0;
  retransmission_timeout = 1000;
  receiver_window_size = 1;
  receiver_window_space = 1;
  time_elapsed = 0;
  syn = false;
  fin = false;
  free_window = false;
}

new-fresh : TcpSender.new 1000 (some isn) 7 ≡ fresh
unfolding TcpSender.new
new-fresh = refl

fresh-IsSending : IsSending fresh
unfolding total
fresh-IsSending = record {
  word = omega arith;
  counted = refl;
  behind = omega arith;
  next_word = omega arith;
  numbered = tt;
  space = inl (omega arith);
  size_word = omega arith;
}

-- Four bytes to send.
abbrev four : ByteStream
four = record {
  capacity = 9;
  stream = 5 ∷ 6 ∷ 7 ∷ 8 ∷ [];
  bytes_read = 0;
  bytes_write = 4;
  error = false;
  closed = true;
}

four-IsValid : IsValid four
four-IsValid = omega arith

-- The SYN is acknowledged, and the window is 3.
abbrev open_three : TcpSender
open_three = record fresh {
  next_abs_seqno = 1;
  receiver_window_size = 3;
  receiver_window_space = 3;
  syn = true;
}

open_three-IsSending : IsSending open_three
unfolding total
open_three-IsSending = record {
  word = omega arith;
  counted = refl;
  behind = omega arith;
  next_word = omega arith;
  numbered = tt;
  space = inl (omega arith);
  size_word = omega arith;
}

abbrev first_three : TcpSenderMessage
first_three = record {
  seqno = record { raw_value = 41 };
  syn = false;
  payload = 5 ∷ 6 ∷ 7 ∷ [];
  fin = false;
}

-- Those three bytes are in flight.
abbrev waiting : TcpSender
waiting = record open_three {
  send_messages = first_three ∷ [];
  outstanding_messages = first_three ∷ [];
  next_abs_seqno = 4;
  sequence_numbers_in_flight = 3;
  receiver_window_space = 0;
}

waiting-IsSending : IsSending waiting
unfolding total sequence_length wrap
waiting-IsSending = record {
  word = omega arith;
  counted = refl;
  behind = omega arith;
  next_word = omega arith;
  numbered = (refl, omega arith, tt);
  space = inl (omega arith);
  size_word = omega arith;
}

push_first_example :
    (m : TcpSenderMessage) × (s' : TcpSender) × (push fresh four ≡ ok (s', four))
    × IsSending s'
    × (m.syn ≡ true)
    × (m.fin ≡ ByteStream.is_finished four)
    × (m.payload ≡ [])
    × (s'.send_messages ≡ [] ++ m ∷ [])
    × (s'.next_abs_seqno ≡ 0 + sequence_length m)
    × (m.seqno ≡ wrap 0 fresh.isn)
    × (s'.outstanding_messages ≡ [] ++ m ∷ [])
push_first_example = push_first fresh four fresh-IsSending refl (omega arith) (omega arith)

push_lem_example :
    (ms : List TcpSenderMessage) × (s' : TcpSender) × (o' : ByteStream) × (push open_three four
      ≡ ok (s', o'))
    × Pushed open_three four ms s' o'
push_lem_example = push_lem open_three four open_three-IsSending four-IsValid refl (omega arith)

receive-Acknowledged_example :
    let s' = receive (record { ackno = some (wrap 4 isn); window_size = 10 }) waiting in
    (InFlight 4 waiting → Acknowledged 4 10 waiting s')
    × ((4 < 4) ⊎ (4 < 4 - 3 × (0 < 3)) → s' ≡ waiting)
receive-Acknowledged_example =
    receive-Acknowledged 4 10 waiting waiting-IsSending (omega arith) (omega arith) (omega arith)
      (omega arith)

ticks-BackedOff_example :
    (k : ℕ) × BackedOff 3000 k first_three waiting (ticks (1200 ∷ 1800 ∷ []) waiting)
ticks-BackedOff_example =
    ticks-BackedOff (1200 ∷ 1800 ∷ []) waiting first_three [] refl (inl (omega arith)) refl
      (omega arith) (omega arith) (omega arith)

abbrev one_left : ByteStream
one_left = record four { stream = 8 ∷ []; bytes_read = 3 }

sends_three : push open_three four ≡ ok (waiting, one_left)
unfolding push TcpSender.has_buffered push_loop TcpSender.may_send push_round TcpSender.open_window
    TcpSender.read_size TcpSender.segment_of TcpSender.send_segment TcpSender.syn_unacked
    sequence_length wrap ByteStream.read ByteStream.pop ByteStream.bytes_buffered
    ByteStream.is_finished
sends_three = refl

-- The acknowledgment of two bytes of three takes nothing from the queue.
keeps_partial :
    (receive
      (record { ackno = some (record { raw_value = 43 }); window_size = 10 })
      waiting).outstanding_messages
    ≡ first_three ∷ []
unfolding receive TcpSender.receive_ack TcpSender.count_acked TcpSender.is_valid_ack
    TcpSender.drop_acked TcpSender.take_window sequence_length unwrap
keeps_partial = refl
