-- ===== src/TcpSender.antt =====
-- The sender of src/tcp_sender.hh and src/tcp_sender.cc, with the constants of util/tcp_config.hh.
-- The outbound stream, which the source takes by reference, is passed in and handed back.
pub mod Invariant
pub mod Push
pub mod Transmit
pub mod Ack
pub mod Timer
mod Tests
pub mod Syn
pub mod Budget
use os_stream_socket.Base.{
  ℕ, zero, suc, ◌+◌, ◌-◌, ◌*◌, ◌%◌, ◌^◌, List, [], ◌∷◌, ◌++◌, Bool, true, false, ◌&&◌, ◌||◌, not,
  Option, none, some, length, drop, ltb, leb, ◌==◌, if◌then◌else◌, add64, sub64, sub16, Outcome, ok,
  err, out_of_fuel, ◌>>=◌,
}
use os_stream_socket.ByteStream.{ByteStream}
use os_stream_socket.ByteStream
use os_stream_socket.WrappingIntegers.{Wrap32, wrap, unwrap}
use os_stream_socket.TcpMessages.{
  TcpSenderMessage, TcpReceiverMessage, sequence_length, default_message,
}

-- `TCPConfig::MAX_PAYLOAD_SIZE`
abbrev pub max_payload_size : ℕ
max_payload_size = 1000

pub record TcpSender : Type 0 where
  pub isn : Wrap32
  pub initial_rto_ms : ℕ
  pub send_messages : List TcpSenderMessage
  pub outstanding_messages : List TcpSenderMessage
  pub next_abs_seqno : ℕ
  pub abs_ackno : ℕ
  pub sequence_numbers_in_flight : ℕ
  pub consecutive_retransmissions : ℕ
  pub retransmission_timeout : ℕ
  pub receiver_window_size : ℕ
  pub receiver_window_space : ℕ
  pub time_elapsed : ℕ
  pub syn : Bool
  pub fin : Bool
  pub free_window : Bool

-- `random` is what `random_device` returns, used if no zero point is given.
unfoldable pub new : ℕ → Option Wrap32 → ℕ → TcpSender
new initial_rto_ms fixed_isn random = record {
  isn = elim fixed_isn [ none ↦ record { raw_value = random % 2 ^ 32 } | some isn ↦ isn ];
  initial_rto_ms = initial_rto_ms;
  send_messages = [];
  outstanding_messages = [];
  next_abs_seqno = 0;
  abs_ackno = 0;
  sequence_numbers_in_flight = 0;
  consecutive_retransmissions = 0;
  retransmission_timeout = initial_rto_ms;
  receiver_window_size = 1;
  receiver_window_space = 1;
  time_elapsed = 0;
  syn = false;
  fin = false;
  free_window = false;
}

-- Both queues get the message.
unfoldable pub queue : TcpSenderMessage → TcpSender → TcpSender
queue m s = record s {
  send_messages = s.send_messages ++ m ∷ [];
  outstanding_messages = s.outstanding_messages ++ m ∷ [];
}

unfoldable pub update_status : TcpSenderMessage → TcpSender → TcpSender
unfolding queue
update_status m s = queue m (record s {
  next_abs_seqno = add64 s.next_abs_seqno (sequence_length m);
  sequence_numbers_in_flight = add64 s.sequence_numbers_in_flight (sequence_length m);
  receiver_window_space = sub16 s.receiver_window_space (sequence_length m);
})

unfoldable pub maybe_send : TcpSender → Option TcpSenderMessage × TcpSender
maybe_send s = elim s.send_messages [
  | [] ↦ (none, s)
  | m ∷ rest ↦ (some m, record s { send_messages = rest })
]

unfoldable pub send_empty_message : TcpSender → TcpSenderMessage
unfolding default_message
send_empty_message s = record default_message { seqno = wrap s.next_abs_seqno s.isn }

-- The first call sends the SYN, with a FIN if there is nothing to send.
unfoldable pub push_syn : TcpSender → ByteStream → TcpSender
unfolding queue default_message
push_syn s outbound =
    let finished = ByteStream.is_finished outbound in
    let flags = (if finished then 1 else 0) in
    queue
      (record default_message { syn = true; fin = finished; seqno = wrap s.next_abs_seqno s.isn })
      (record s {
        syn = true;
        fin = s.fin || finished;
        next_abs_seqno = add64 (add64 s.next_abs_seqno 1) flags;
        sequence_numbers_in_flight = add64 (add64 s.sequence_numbers_in_flight 1) flags;
        receiver_window_space = sub16 s.receiver_window_space 1;
      })

unfoldable pub has_buffered : ByteStream → Bool
has_buffered outbound = not (ByteStream.bytes_buffered outbound == 0)

-- A window of size 0, wholly used.
unfoldable pub window_shut : TcpSender → Bool
window_shut s = (s.receiver_window_size == 0) && (s.receiver_window_space == 0)

-- The condition of the loop of `push`.
unfoldable pub may_send : TcpSender → ByteStream → Bool
unfolding has_buffered window_shut
may_send s outbound =
    (not (s.receiver_window_space == 0) && has_buffered outbound)
    || (window_shut s && has_buffered outbound)

-- A shut window is treated as one of size 1.
unfoldable pub open_window : TcpSender → TcpSender
unfolding window_shut
open_window s =
    if window_shut s
    then record s { receiver_window_size = 1; receiver_window_space = 1; free_window = true }
    else s

unfoldable pub read_size : TcpSender → ByteStream → ℕ
unfolding window_shut
read_size s outbound =
    let buffered = ByteStream.bytes_buffered outbound in
    let wanted =
      (if ltb buffered s.receiver_window_space then buffered else s.receiver_window_space) in
    let size = (if ltb max_payload_size wanted then max_payload_size else wanted) in
    if window_shut s then 1 else size

-- The segment made of what was read: it carries the FIN if that was all and the window has room.
unfoldable pub segment_of : ℕ → List ℕ → TcpSender → ByteStream → TcpSenderMessage
segment_of size read_out s outbound = record {
  seqno = wrap s.next_abs_seqno s.isn;
  syn = false;
  payload = read_out;
  fin = ByteStream.is_finished outbound && ltb size s.receiver_window_space;
}

unfoldable pub send_segment : TcpSenderMessage → TcpSender → TcpSender
unfolding update_status
send_segment m s = update_status m (record s { fin = s.fin || m.fin })

unfoldable pub push_round : TcpSender → ByteStream → Outcome (TcpSender × ByteStream)
push_round s outbound =
    let size = read_size s outbound in
    let s' = open_window s in
    ByteStream.read size outbound >>= λ (read_out, outbound').
    ok (send_segment (segment_of size read_out s' outbound') s', outbound')

unfoldable pub push_loop : ℕ → TcpSender → ByteStream → Outcome (TcpSender × ByteStream)
push_loop zero s outbound = err out_of_fuel
push_loop (suc fuel) s outbound = elim (may_send s outbound) [
  | true ↦ push_round s outbound >>= λ (s', outbound'). push_loop fuel s' outbound'
  | false ↦ ok (s, outbound)
]

-- A FIN by itself, after the last byte has been sent.
unfoldable pub push_fin : TcpSender → ByteStream → TcpSender
unfolding send_segment default_message window_shut
push_fin s outbound =
    if ByteStream.is_finished outbound && (not (s.receiver_window_space == 0) || window_shut s)
    then send_segment (record default_message { fin = true; seqno = wrap s.next_abs_seqno s.isn }) s
    else s

unfoldable pub syn_unacked : List TcpSenderMessage → Bool
syn_unacked [] = false
syn_unacked (m ∷ ms) = m.syn

-- Each round of the loop sends a byte at least, so one round more than there are bytes is enough.
unfoldable pub push : TcpSender → ByteStream → Outcome (TcpSender × ByteStream)
push s outbound =
    if not s.syn
    then ok (push_syn s outbound, outbound)
    else (if s.fin || syn_unacked s.outstanding_messages
        then ok (s, outbound)
        else (if has_buffered outbound
            then push_loop (suc (ByteStream.bytes_buffered outbound)) s outbound
            else ok (push_fin s outbound, outbound)))

-- The loop of `receive`: how many messages at the front are acknowledged, and what is in flight
-- without them.
unfoldable pub count_acked : ℕ → Wrap32 → ℕ → List TcpSenderMessage → ℕ → ℕ × ℕ
count_acked abs_ackno isn next [] in_flight = (0, in_flight)
count_acked abs_ackno isn next (m ∷ ms) in_flight =
    let (idx, rest) = count_acked abs_ackno isn next ms (sub64 in_flight (sequence_length m)) in
    if leb (add64 (unwrap m.seqno isn next) (sequence_length m)) abs_ackno
    then (suc idx, rest)
    else (0, in_flight)

unfoldable pub is_valid_ack : ℕ → TcpSender → Bool
is_valid_ack abs_ackno s = leb abs_ackno s.next_abs_seqno && (elim s.outstanding_messages [
  | [] ↦ true
  | m ∷ ms ↦ leb (unwrap m.seqno s.isn s.next_abs_seqno) abs_ackno
])

-- What is acknowledged leaves the queue, and the timer starts anew.
unfoldable pub drop_acked : ℕ → ℕ → TcpSender → TcpSender
drop_acked idx in_flight s =
    let s' = record s { sequence_numbers_in_flight = in_flight } in
    if idx == 0 then s' else record s' {
      time_elapsed = 0;
      retransmission_timeout = s.initial_rto_ms;
      consecutive_retransmissions = 0;
      outstanding_messages = drop idx s.outstanding_messages;
    }

-- The window counts from the acknowledged number, so what is in flight takes its part of it.
unfoldable pub take_window : ℕ → TcpSender → TcpSender
take_window window_size s = record s {
  receiver_window_size = window_size;
  receiver_window_space =
      (if leb s.sequence_numbers_in_flight window_size
        then window_size - s.sequence_numbers_in_flight
        else 0);
  free_window = false;
}

unfoldable pub receive_ack : ℕ → ℕ → TcpSender → TcpSender
receive_ack abs_ackno window_size s =
    let (idx, in_flight) =
      count_acked abs_ackno s.isn s.next_abs_seqno s.outstanding_messages
        s.sequence_numbers_in_flight in
    if is_valid_ack abs_ackno s then take_window window_size (drop_acked idx in_flight s) else s

unfoldable pub receive : TcpReceiverMessage → TcpSender → TcpSender
receive msg s = elim msg.ackno [
  | none ↦ s
  | some ackno ↦ receive_ack (unwrap ackno s.isn s.next_abs_seqno) msg.window_size s
]

-- The first outstanding message is sent again, with a longer timeout unless the window was shut.
unfoldable pub retransmit : TcpSenderMessage → TcpSender → TcpSender
retransmit m s =
    let s' = record s { send_messages = s.send_messages ++ m ∷ []; time_elapsed = 0 } in
    if (not (s.receiver_window_size == 0) || m.syn) && not s.free_window
    then record s' {
      consecutive_retransmissions = add64 s.consecutive_retransmissions 1;
      retransmission_timeout = s.retransmission_timeout * 2 % 2 ^ 64;
    }
    else s'

unfoldable pub tick : ℕ → TcpSender → TcpSender
unfolding retransmit
tick ms_since_last_tick s = elim s.outstanding_messages [
  | [] ↦ s
  | m ∷ ms ↦
      let s' = record s { time_elapsed = add64 s.time_elapsed ms_since_last_tick } in
      if leb s.retransmission_timeout s'.time_elapsed then retransmit m s' else s'
]
