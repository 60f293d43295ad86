-- ===== src/TcpSender/Syn.antt =====
-- The first call of `push`.
use os_stream_socket.Base.{
  ◌+◌, ◌^◌, ◌≤◌, ◌<◌, ◌≡◌, ◌⊎◌, refl, [], ◌∷◌, ◌++◌, Bool, true, false, arith, if◌then◌else◌, inl,
  inr, ok,
}
use os_stream_socket.ByteStream.{ByteStream}
use os_stream_socket.ByteStream
use os_stream_socket.WrappingIntegers.{wrap}
use os_stream_socket.TcpMessages.{TcpSenderMessage, sequence_length, default_message, flag_size}
use os_stream_socket.TcpSender.{TcpSender, push, push_syn}
use os_stream_socket.TcpSender.Invariant.{IsSending, IsRoomy, extended-IsSending}
use os_stream_socket.TcpSender.Transmit.{push_started}

syn_message : TcpSender → ByteStream → TcpSenderMessage
unfolding default_message
syn_message s o = record default_message {
  syn = true;
  fin = ByteStream.is_finished o;
  seqno = wrap s.next_abs_seqno s.isn;
}

syn_message_size :
    (s : TcpSender) (o : ByteStream)
    → sequence_length (syn_message s o) ≡ 1 + flag_size (ByteStream.is_finished o)
unfolding syn_message sequence_length
syn_message_size s o = omega arith

flag_size_le : (b : Bool) → flag_size b ≤ 1
flag_size_le true = omega arith
flag_size_le false = omega arith

flag_size_if : (b : Bool) → (if b then 1 else 0) ≡ flag_size b
flag_size_if true = refl
flag_size_if false = refl

push_syn_counts :
    (s : TcpSender) (o : ByteStream)
    → s.next_abs_seqno + 2 < 2 ^ 64
    → s.sequence_numbers_in_flight ≤ s.next_abs_seqno
    → ((push_syn s o).next_abs_seqno ≡ s.next_abs_seqno + sequence_length (syn_message s o))
      × ((push_syn s o).sequence_numbers_in_flight
          ≡ s.sequence_numbers_in_flight + sequence_length (syn_message s o))
unfolding push_syn
push_syn_counts s o h k =
    let f = ByteStream.is_finished o in
    omega (arith, syn_message_size s o, flag_size_le f, flag_size_if f)

push_syn-IsSending :
    (s : TcpSender) (o : ByteStream)
    → IsSending s
    → 0 < s.receiver_window_space
    → s.next_abs_seqno + 2 < 2 ^ 64
    → IsSending (push_syn s o)
push_syn-IsSending s o v room no_wrap =
    let c = push_syn_counts s o no_wrap v.behind in
    let f = flag_size_le (ByteStream.is_finished o) in
    extended-IsSending (syn_message s o) s (push_syn s o) v (unfold syn_message in refl)
      (omega (arith, syn_message_size s o)) (omega (arith, syn_message_size s o, f))
      (unfold push_syn in refl) (unfold push_syn syn_message in refl) c.0 c.1 (space v.space)
      (unfold push_syn in v.size_word)
  where
    space : IsRoomy s ⊎ (s.fin ≡ true) → IsRoomy (push_syn s o) ⊎ ((push_syn s o).fin ≡ true)
    space (inl r) = inl (unfold push_syn in omega (arith, v.size_word))
    space (inr e) = inr (unfold push_syn in ground (arith, e))

-- The first call of `push`, on a sender that satisfies the invariant, has window left and is two
-- short of 2 ^ 64 at most, sends one message, with the SYN, at the next sequence number; it joins
-- the messages in flight, takes no byte from the stream, and carries the FIN exactly if the stream
-- is finished.
pub push_first :
    (s : TcpSender) (o : ByteStream)
    → IsSending s
    → s.syn ≡ false
    → 0 < s.receiver_window_space
    → s.next_abs_seqno + 2 < 2 ^ 64
    → (m : TcpSenderMessage) × (s' : TcpSender) × (push s o ≡ ok (s', o))
      × IsSending s'
      × (m.syn ≡ true)
      × (m.fin ≡ ByteStream.is_finished o)
      × (m.payload ≡ [])
      × (s'.send_messages ≡ s.send_messages ++ m ∷ [])
      × (s'.next_abs_seqno ≡ s.next_abs_seqno + sequence_length m)
      × (m.seqno ≡ wrap s.next_abs_seqno s.isn)
      × (s'.outstanding_messages ≡ s.outstanding_messages ++ m ∷ [])
push_first s o v syn room no_wrap = (
  syn_message s o,
  push_syn s o,
  rw (push_started s o syn) refl,
  push_syn-IsSending s o v room no_wrap,
  unfold syn_message in refl,
  unfold syn_message in refl,
  unfold syn_message in refl,
  unfold push_syn syn_message in refl,
  (push_syn_counts s o no_wrap v.behind).0,
  unfold syn_message in refl,
  unfold push_syn syn_message in refl,
)
