-- ===== src/TcpPeer/Tests.antt =====
-- A peer whose SYN is acknowledged by the SYN of the other side.
use os_stream_socket.Base.{
  ℕ, zero, suc, ◌+◌, ◌-◌, ◌<◌, ◌≤◌, ◌≡◌, ◌⊎◌, refl, inl, inr, [], ◌∷◌, true, false, Option, some,
  ok, arith, get_or,
}
use os_stream_socket.ByteStream.{ByteStream, bytes_pushed}
use os_stream_socket.ByteStream
use os_stream_socket.WrappingIntegers.{Wrap32, wrap}
use os_stream_socket.Reassembler
use os_stream_socket.Reassembler.Prefix.{new-IsReady}
use os_stream_socket.TcpMessages.{sequence_length}
use os_stream_socket.TcpReceiver.{note_syn}
use os_stream_socket.TcpReceiver.Receive.{Carries}
use os_stream_socket.TcpSender.{TcpSender}
use os_stream_socket.TcpSender.Invariant.{IsSending, total}
use os_stream_socket.TcpSegment.{TcpSegment}
use os_stream_socket.TcpPeer.{TcpPeer, receive, active, maybe_send}
use os_stream_socket.TcpPeer.Reset.{Steps, receive_reset}
use os_stream_socket.TcpPeer.Receive.{IsPeer, IsAckOf, receive-IsPeer}
use os_stream_socket.TcpPeer.Reply.{Replied, maybe_send-Replied}

-- The bytes 97, 98 and so on.
letters : ℕ → ℕ
letters n = 97 + n

abbrev isn : Wrap32
isn = record { raw_value = 40 }

abbrev sender : TcpSender
sender = record {
  isn = isn;
  initial_rto_ms = 1000;
  send_messages = [];
  outstanding_messages = [];
  next_abs_seqno = 1;
  abs_ackno = 0;
  sequence_numbers_in_flight = 0;
  consecutive_retransmissions = 0;
  retransmission_timeout = 1000;
  receiver_window_size = 3;
  receiver_window_space = 3;
  time_elapsed = 0;
  syn = true;
  fin = false;
  free_window = false;
}

sender-IsSending : IsSending sender
unfolding total
sender-IsSending = record {
  word = omega arith;
  counted = refl;
  behind = omega arith;
  next_word = omega arith;
  numbered = tt;
  space = inl (omega arith);
  size_word = omega arith;
}

-- Two bytes to send.
abbrev outbound : ByteStream
outbound = record {
  capacity = 9;
  stream = 5 ∷ 6 ∷ [];
  bytes_read = 0;
  bytes_write = 2;
  error = false;
  closed = false;
}

abbrev inbound : ByteStream
inbound = record {
  capacity = 4;
  stream = [];
  bytes_read = 0;
  bytes_write = 0;
  error = false;
  closed = false;
}

abbrev peer : TcpPeer
peer = record {
  sender = sender;
  receiver = record { isn = record { raw_value = 0 }; fin = false; syn = false };
  reassembler = Reassembler.new;
  outbound_stream = outbound;
  inbound_stream = inbound;
  need_send = false;
}

peer-IsPeer : IsPeer letters peer
unfolding ByteStream.new
peer-IsPeer = record {
  sending = sender-IsSending;
  ready = new-IsReady letters 4 (omega arith);
  outbound = omega arith;
}

-- The SYN with the first two bytes.
abbrev opening : TcpSegment
opening = record {
  sender_message = record {
    seqno = record { raw_value = 7 };
    syn = true;
    payload = 97 ∷ 98 ∷ [];
    fin = false;
  };
  receiver_message = record { ackno = some (record { raw_value = 41 }); window_size = 3 };
  reset = false;
  udinfo = record { src_port = 0; dst_port = 0; cksum = 0 };
}

ab : (j : ℕ) → j < 2 → get_or (97 ∷ 98 ∷ []) j 0 ≡ letters (0 - 1 + j)
unfolding letters
ab zero h = refl
ab (suc zero) h = refl
ab (suc (suc j)) h = absurd (omega arith)

opening-Carries :
    Carries letters 0 opening.sender_message (note_syn opening.sender_message peer.receiver) inbound
unfolding note_syn wrap bytes_pushed
opening-Carries = record {
  word = omega arith;
  number = refl;
  near = omega arith;
  same = ab;
  no_wrap = omega arith;
  short = omega arith;
}

opening-IsAckOf : IsAckOf opening.receiver_message sender
unfolding IsAckOf wrap
opening-IsAckOf = inr (1, refl, omega arith, omega arith, inl (omega arith, omega arith))

receive-IsPeer_example :
    (p' : TcpPeer) × (receive opening peer ≡ ok p')
    × IsPeer letters p'
    × (bytes_pushed inbound ≤ bytes_pushed p'.inbound_stream)
    × (p'.outbound_stream ≡ outbound)
    × ((false ≡ true) ⊎ (0 < sequence_length opening.sender_message) → p'.need_send ≡ true)
receive-IsPeer_example =
    receive-IsPeer letters 0 opening peer peer-IsPeer refl refl (omega arith) (omega arith)
      opening-IsAckOf opening-Carries

maybe_send-Replied_example :
    (out : Option TcpSegment) × (p' : TcpPeer) × (maybe_send peer ≡ ok (out, p'))
    × Replied letters peer out p'
maybe_send-Replied_example = maybe_send-Replied letters peer peer-IsPeer (inl refl) (omega arith)

receive_reset_example :
    (p₁ : TcpPeer) × (receive (record opening { reset = true }) peer ≡ ok p₁)
    × ((p₂ : TcpPeer)
        → Steps p₁ p₂
        → (active p₂ ≡ false)
          × ((out : TcpSegment) (p₃ : TcpPeer)
              → maybe_send p₂ ≡ ok (some out, p₃)
              → out.reset ≡ true))
receive_reset_example = receive_reset (record opening { reset = true }) peer refl
