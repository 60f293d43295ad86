-- ===== src/TcpSender/Transmit.antt =====
-- `push` as a whole.
use os_stream_socket.Base.{
  suc, ◌+◌, ◌^◌, ◌≤◌, ◌<◌, ◌≡◌, refl, ap, sym, List, [], ◌∷◌, ◌++◌, append-nil, Bool, true, false,
  ◌&&◌, ◌||◌, not, arith, ◌==◌, if◌then◌else◌, Bool-cases, inl, inr, Outcome, ok,
}
use os_stream_socket.ByteStream.{ByteStream}
use os_stream_socket.ByteStream
use os_stream_socket.ByteStream.Invariant.{bytes_buffered_lem}
use os_stream_socket.WrappingIntegers.{wrap}
use os_stream_socket.TcpMessages.{TcpSenderMessage, sequence_length, default_message}
use os_stream_socket.TcpSender.{
  TcpSender, window_shut, has_buffered, send_segment, push_fin, push_loop, push, push_syn,
  syn_unacked,
}
use os_stream_socket.TcpSender.Invariant.{
  total, payloads, IsSending, IsRoomy, send_any-IsSending, allowance,
}
use os_stream_socket.TcpSender.Push.{IsSmall, Sent, Looped, push_loop-Looped}

-- What a call of `push` has sent: the messages `ms`, which continue the numbering without a gap,
-- hold the bytes taken from the stream in order, and fit the window.
pub record Pushed (s : TcpSender) (o : ByteStream) (ms : List TcpSenderMessage) (s' : TcpSender)
    (o' : ByteStream) : Type 0 where
  pub sending : IsSending s'
  pub valid : ByteStream.Invariant.IsValid o'
  pub queued : s'.send_messages ≡ s.send_messages ++ ms
  pub outstanding : s'.outstanding_messages ≡ s.outstanding_messages ++ ms
  pub bytes : payloads ms ++ o'.stream ≡ o.stream
  pub small : IsSmall ms
  pub window : total ms ≤ allowance s
  pub next : s'.next_abs_seqno ≡ s.next_abs_seqno + total ms

Sent-Pushed :
    (s : TcpSender) (o : ByteStream) (ms : List TcpSenderMessage) (s' : TcpSender) (o' : ByteStream)
    → Sent s o ms s' o'
    → Pushed s o ms s' o'
Sent-Pushed s o ms s' o' h = record {
  sending = h.sending;
  valid = h.valid;
  queued = h.queued;
  outstanding = h.outstanding;
  bytes = h.bytes;
  small = h.small;
  window = omega (arith, h.window);
  next = h.next;
}

Pushed-nil :
    (s : TcpSender) (o : ByteStream)
    → IsSending s
    → ByteStream.Invariant.IsValid o
    → Pushed s o [] s o
unfolding total payloads
Pushed-nil s o v w = record {
  sending = v;
  valid = w;
  queued = sym (append-nil s.send_messages);
  outstanding = sym (append-nil s.outstanding_messages);
  bytes = refl;
  small = tt;
  window = omega arith;
  next = omega arith;
}

fin_message : TcpSender → TcpSenderMessage
unfolding default_message
fin_message s = record default_message { fin = true; seqno = wrap s.next_abs_seqno s.isn }

fin_message_size : (s : TcpSender) → sequence_length (fin_message s) ≡ 1
unfolding fin_message sequence_length
fin_message_size s = refl

-- The FIN counts one, also where the window is shut and the room wraps.
fin-IsSending :
    (s : TcpSender)
    → IsSending s
    → s.next_abs_seqno + 1 < 2 ^ 64
    → IsSending (send_segment (fin_message s) s)
fin-IsSending s v no_wrap =
    send_any-IsSending (fin_message s) s v (unfold fin_message in refl)
      (omega (arith, fin_message_size s)) (omega (arith, fin_message_size s))
      (inr (unfold send_segment fin_message in ground arith))

fin-Pushed :
    (s : TcpSender) (o : ByteStream)
    → IsSending s
    → ByteStream.Invariant.IsValid o
    → s.next_abs_seqno + 1 < 2 ^ 64
    → 1 ≤ allowance s
    → Pushed s o (fin_message s ∷ []) (send_segment (fin_message s) s) o
unfolding total
fin-Pushed s o v w no_wrap room = record {
  sending = fin-IsSending s v no_wrap;
  valid = w;
  queued = unfold send_segment in refl;
  outstanding = unfold send_segment in refl;
  bytes = unfold payloads fin_message in refl;
  small = unfold fin_message in (omega arith, tt);
  window = omega (arith, fin_message_size s);
  next = unfold send_segment in omega (arith, fin_message_size s);
}

-- A result of `push`.
abbrev pub Transmission : TcpSender → ByteStream → Outcome (TcpSender × ByteStream) → Type 0
Transmission s o x =
    (ms : List TcpSenderMessage) × (s' : TcpSender) × (o' : ByteStream) × (x ≡ ok (s', o'))
    × Pushed s o ms s' o'

push_fin-Transmission :
    (s : TcpSender) (o : ByteStream)
    → IsSending s
    → ByteStream.Invariant.IsValid o
    → s.next_abs_seqno + 1 < 2 ^ 64
    → Transmission s o (ok (push_fin s o, o))
unfolding push_fin
push_fin-Transmission s o v w no_wrap =
    elim (Bool-cases
      (ByteStream.is_finished o && (not (s.receiver_window_space == 0) || window_shut s))) [
        | inl e ↦ rw e (
          fin_message s ∷ [],
          send_segment (fin_message s) s,
          o,
          unfold fin_message in refl,
          fin-Pushed s o v w no_wrap (unfold window_shut in ground (arith, e)),
        )
        | inr e ↦ rw e ([], s, o, refl, Pushed-nil s o v w)
      ]

loop-Transmission :
    (s : TcpSender) (o : ByteStream)
    → IsSending s
    → IsRoomy s
    → ByteStream.Invariant.IsValid o
    → s.next_abs_seqno + allowance s < 2 ^ 64
    → Transmission s o (push_loop (suc (ByteStream.bytes_buffered o)) s o)
unfolding Looped
loop-Transmission s o v roomy w no_wrap =
    let looped : Looped s o (push_loop (suc (ByteStream.bytes_buffered o)) s o) =
      push_loop-Looped (suc (ByteStream.bytes_buffered o)) s o v roomy w no_wrap
        (omega (arith, bytes_buffered_lem o w)) in
    open_up looped
  where
    open_up : {x : Outcome (TcpSender × ByteStream)} → Looped s o x → Transmission s o x
    open_up (ms, s', o', run, sent, stop) = (ms, s', o', run, Sent-Pushed s o ms s' o' sent)

pub IsRoomy-before_fin : (s : TcpSender) → IsSending s → s.fin ≡ false → IsRoomy s
IsRoomy-before_fin s v e = ground (arith, v.space)

-- `push` after the SYN.
unfoldable pub push_rest : TcpSender → ByteStream → Outcome (TcpSender × ByteStream)
push_rest s o =
    if s.fin || syn_unacked s.outstanding_messages
    then ok (s, o)
    else (if has_buffered o
        then push_loop (suc (ByteStream.bytes_buffered o)) s o
        else ok (push_fin s o, o))

pub push_started :
    (s : TcpSender) (o : ByteStream) {b : Bool}
    → s.syn ≡ b
    → push s o ≡ (if not b then ok (push_syn s o, o) else push_rest s o)
unfolding push push_rest
push_started s o e = ap (λ b. if not b then ok (push_syn s o, o) else push_rest s o) e

pub allowance-lt : (s : TcpSender) → IsSending s → IsRoomy s → allowance s < 2 ^ 16
unfolding window_shut
allowance-lt s v roomy = ground arith

push_rest-Transmission :
    (s : TcpSender) (o : ByteStream)
    → IsSending s
    → ByteStream.Invariant.IsValid o
    → s.next_abs_seqno + 2 ^ 16 < 2 ^ 64
    → Transmission s o (push_rest s o)
unfolding push_rest
push_rest-Transmission s o v w no_wrap =
    elim (Bool-cases (s.fin || syn_unacked s.outstanding_messages)) [
      | inl e ↦ rw e ([], s, o, refl, Pushed-nil s o v w)
      | inr e ↦
          let roomy = IsRoomy-before_fin s v (ground (arith, e)) in
          rw e (elim (Bool-cases (has_buffered o)) [
            | inl f ↦ rw f (loop-Transmission s o v roomy w (omega (arith, allowance-lt s v roomy)))
            | inr f ↦ rw f (push_fin-Transmission s o v w (omega arith))
          ])
    ]

-- Once the SYN is sent, on a sender and a stream that satisfy their invariants and with
-- `next_abs_seqno` at least 2 ^ 16 below 2 ^ 64, `push` returns; it never throws and never runs
-- out of rounds. The messages that it puts into both queues number the stream on from
-- `next_abs_seqno` without a gap, their payloads are the bytes that it takes from the stream, in
-- order and at most 1000 in each, and together they use no more sequence numbers than the window
-- admits, where a shut window admits one.
pub push_lem :
    (s : TcpSender) (o : ByteStream)
    → IsSending s
    → ByteStream.Invariant.IsValid o
    → s.syn ≡ true
    → s.next_abs_seqno + 2 ^ 16 < 2 ^ 64
    → Transmission s o (push s o)
push_lem s o v w syn no_wrap = rw (push_started s o syn) (push_rest-Transmission s o v w no_wrap)
