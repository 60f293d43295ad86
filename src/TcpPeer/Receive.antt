-- ===== src/TcpPeer/Receive.antt =====
-- What the peer does with a segment that comes in.
use os_stream_socket.Base.{
  ℕ, ◌-◌, ◌^◌, ◌<◌, ◌≤◌, ◌≡◌, refl, sym, subst, ◌∙◌, ◌⊎◌, inl, inr, true, false, none, some, ok,
  arith,
}
use os_stream_socket.ByteStream.{ByteStream, bytes_pushed}
use os_stream_socket.ByteStream
use os_stream_socket.WrappingIntegers.{wrap, absolute_delta}
use os_stream_socket.Reassembler.{Reassembler}
use os_stream_socket.Reassembler.Insert.{IsReady}
use os_stream_socket.TcpMessages.{TcpSenderMessage, TcpReceiverMessage, sequence_length}
use os_stream_socket.TcpReceiver.{TcpReceiver, note_syn}
use os_stream_socket.TcpReceiver
use os_stream_socket.TcpReceiver.Receive.{Carries, receive-Reception}
use os_stream_socket.TcpSender.{TcpSender}
use os_stream_socket.TcpSender
use os_stream_socket.TcpSender.Invariant.{IsSending}
use os_stream_socket.TcpSender.Ack.{InFlight, receive-Acknowledged}
use os_stream_socket.TcpSegment.{TcpSegment}
use os_stream_socket.TcpPeer.{TcpPeer, receive, receive_messages, note_need_send}

-- The parts satisfy their invariants; `truth` is the stream of the other side.
pub record IsPeer (truth : ℕ → ℕ) (p : TcpPeer) : Type 0 where
  pub sending : IsSending p.sender
  pub ready : IsReady truth p.reassembler p.inbound_stream
  pub outbound : ByteStream.Invariant.IsValid p.outbound_stream

-- An acknowledgement of what is in flight, one of something not sent yet, or a late one.
unfoldable pub IsAckOf : TcpReceiverMessage → TcpSender → Type 0
IsAckOf message s =
    (message.ackno ≡ none)
    ⊎ ((n : ℕ) × (message
          ≡ record { ackno = some (wrap n s.isn); window_size = message.window_size })
        × (n < 2 ^ 64)
        × (absolute_delta s.next_abs_seqno n < 2 ^ 31)
        × (InFlight n s
            ⊎ ((s.next_abs_seqno < n)
                ⊎ ((n < s.next_abs_seqno - s.sequence_numbers_in_flight)
                    × (0 < s.sequence_numbers_in_flight)))))

receive-IsSending :
    (message : TcpReceiverMessage) (s : TcpSender)
    → IsSending s
    → s.sequence_numbers_in_flight < 2 ^ 31
    → message.window_size < 2 ^ 16
    → IsAckOf message s
    → IsSending (TcpSender.receive message s)
unfolding IsAckOf
receive-IsSending message s v small w (inl e) = unfold TcpSender.receive in rw e v
receive-IsSending message s v small w (inr (n, e, word, near, inl h)) =
    subst (λ m. IsSending (TcpSender.receive m s)) (sym e)
      ((receive-Acknowledged n message.window_size s v small word near w).0 h).sending
receive-IsSending message s v small w (inr (n, e, word, near, inr h)) =
    subst (λ m. IsSending (TcpSender.receive m s)) (sym e)
      (subst IsSending
        (sym ((receive-Acknowledged n message.window_size s v small word near w).1 h)) v)

-- What the receiver's part of `receive` leaves.
record Taken (truth : ℕ → ℕ) (p : TcpPeer) (re : Reassembler) (inbound : ByteStream) : Type 0 where
  ready : IsReady truth re inbound
  advances : bytes_pushed p.inbound_stream ≤ bytes_pushed inbound

receiver_takes :
    (truth : ℕ → ℕ) (n : ℕ) (message : TcpSenderMessage) (p : TcpPeer)
    → IsReady truth p.reassembler p.inbound_stream
    → Carries truth n message (note_syn message p.receiver) p.inbound_stream
    → (r : TcpReceiver) × (re : Reassembler) × (inbound : ByteStream) × (TcpReceiver.receive message
          p.receiver p.reassembler p.inbound_stream
        ≡ ok (r, re, inbound))
      × Taken truth p re inbound
receiver_takes truth n message p ready c =
    elim (receive-Reception truth n message p.reassembler p.inbound_stream ready p.receiver c) [
      | inl (_, _, e) ↦ (
        p.receiver,
        p.reassembler,
        p.inbound_stream,
        e,
        record { ready = ready; advances = omega arith },
      )
      | inr (_, (r, re, inbound, e, i)) ↦
          (r, re, inbound, e, record { ready = i.ready; advances = i.advances })
    ]

accepted :
    (seg : TcpSegment) (p : TcpPeer) (x : TcpReceiver × Reassembler × ByteStream)
    → seg.reset ≡ false
    → p.inbound_stream.error ≡ false
    → TcpReceiver.receive seg.sender_message p.receiver p.reassembler p.inbound_stream ≡ ok x
    → receive seg p
      ≡ ok (record {
        sender = TcpSender.receive seg.receiver_message p.sender;
        receiver = x.0;
        reassembler = x.1;
        outbound_stream = p.outbound_stream;
        inbound_stream = x.2;
        need_send = note_need_send seg.sender_message p;
      })
unfolding receive receive_messages ByteStream.has_error
accepted seg p x fine clean e =
    let run : receive seg p ≡ receive_messages seg p = simp (fine, clean) in run ∙ rw e refl

-- A peer without an error that satisfies the invariants of its sender, its reassembler and its
-- streams takes in a segment without a reset, if its acknowledgement is none, one of what is in
-- flight or of the next number, one of something not sent yet, or, while something is in flight, a
-- late one, and less than 2 ^ 31 away, its window is a 16-bit number, fewer than 2 ^ 31 sequence
-- numbers are in flight, its payload is of the other side's stream, less than 2 ^ 31 away, and no
-- index reaches 2 ^ 64, neither of the payload's end nor of the end of the inbound stream's room:
-- the call returns, the invariants hold again, the inbound stream has not fallen back, the
-- outbound one is untouched, and an answer is due if one was before or the segment takes sequence
-- numbers.
pub receive-IsPeer :
    (truth : ℕ → ℕ) (n : ℕ) (seg : TcpSegment) (p : TcpPeer)
    → IsPeer truth p
    → seg.reset ≡ false
    → p.inbound_stream.error ≡ false
    → p.sender.sequence_numbers_in_flight < 2 ^ 31
    → seg.receiver_message.window_size < 2 ^ 16
    → IsAckOf seg.receiver_message p.sender
    → Carries truth n seg.sender_message (note_syn seg.sender_message p.receiver) p.inbound_stream
    → (p' : TcpPeer) × (receive seg p ≡ ok p')
      × IsPeer truth p'
      × (bytes_pushed p.inbound_stream ≤ bytes_pushed p'.inbound_stream)
      × (p'.outbound_stream ≡ p.outbound_stream)
      × ((p.need_send ≡ true) ⊎ (0 < sequence_length seg.sender_message) → p'.need_send ≡ true)
unfolding note_need_send
receive-IsPeer truth n seg p v fine clean small w ack c =
    let (r, re, inbound, e, t) = receiver_takes truth n seg.sender_message p v.ready c in
    (
      record {
        sender = TcpSender.receive seg.receiver_message p.sender;
        receiver = r;
        reassembler = re;
        outbound_stream = p.outbound_stream;
        inbound_stream = inbound;
        need_send = note_need_send seg.sender_message p;
      },
      accepted seg p _ fine clean e,
      record {
        sending = receive-IsSending seg.receiver_message p.sender v.sending small w ack;
        ready = t.ready;
        outbound = v.outbound;
      },
      t.advances,
      refl,
      needed,
    )
  where
    needed :
        (p.need_send ≡ true) ⊎ (0 < sequence_length seg.sender_message)
        → note_need_send seg.sender_message p ≡ true
    needed (inl h) = ground (arith, h)
    needed (inr h) = ground (arith, h)
