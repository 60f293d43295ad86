-- ===== src/TcpSender/Budget.antt =====
-- What a call of `push` uses of the sequence numbers that are left, and how many messages it queues.
use os_stream_socket.Base.{
  append_assoc, ℕ, ◌+◌, ◌^◌, ◌≤◌, ◌<◌, ◌≡◌, ◌⊎◌, inl, inr, refl, ap, sym, subst, ◌∙◌, List, [], ◌∷◌,
  ◌++◌, true, false, ◌||◌, suc, length, length-append, ok, OnReturn, if-OnReturn, OnReturn-weaken,
  Bool-cases, arith,
}
use os_stream_socket.ByteStream.{ByteStream}
use os_stream_socket.ByteStream
use os_stream_socket.WrappingIntegers.{Wrap32}
use os_stream_socket.TcpMessages.{TcpSenderMessage, sequence_length, flag_size, default_message}
use os_stream_socket.TcpSender.{
  TcpSender, push, push_syn, push_fin, push_loop, has_buffered, syn_unacked, send_segment,
}
use os_stream_socket.TcpSender.Invariant.{IsSending, IsNumbered, total, payloads, payloads-append}
use os_stream_socket.TcpSender.Push.{Spent, push_loop-Spent}
use os_stream_socket.TcpSender.Transmit.{
  push_rest, push_started, push_lem, IsRoomy-before_fin, allowance-lt,
}
use os_stream_socket.TcpSender.Syn.{push_first}

-- A call uses no more than there was, and the SYN is out after it.
abbrev Started : TcpSender → ByteStream → TcpSender × ByteStream → Type 0
Started s o (s', o') = Spent s o s' o' × (s'.syn ≡ true)

push_fin-Spent :
    (s : TcpSender) (o : ByteStream)
    → s.fin ≡ false
    → s.next_abs_seqno + 1 < 2 ^ 64
    → Spent s o (push_fin s o) o × ((push_fin s o).syn ≡ s.syn)
unfolding push_fin send_segment default_message sequence_length
push_fin-Spent s o e no_wrap = (ground (arith, e), ground (arith, e))

push_syn-Spent :
    (s : TcpSender) (o : ByteStream)
    → s.syn ≡ false
    → s.next_abs_seqno + 2 < 2 ^ 64
    → Started s o (push_syn s o, o)
unfolding push_syn
push_syn-Spent s o e no_wrap = (ground (arith, e), refl)

push_rest-Spent :
    (s : TcpSender) (o : ByteStream)
    → IsSending s
    → ByteStream.Invariant.IsValid o
    → s.syn ≡ true
    → s.next_abs_seqno + 2 ^ 16 < 2 ^ 64
    → OnReturn (Started s o) (push_rest s o)
unfolding push_rest
push_rest-Spent s o v w syn no_wrap =
    if-OnReturn (Started s o) (s.fin || syn_unacked s.outstanding_messages) (ok (s, o)) _
      (λ _. (omega arith, syn))
      (λ e.
        let fin : s.fin ≡ false = ground (arith, e) in
        let roomy = IsRoomy-before_fin s v fin in
        if-OnReturn (Started s o) (has_buffered o)
          (push_loop (suc (ByteStream.bytes_buffered o)) s o) (ok (push_fin s o, o))
          (λ _.
            OnReturn-weaken _ (Started s o) (push_loop (suc (ByteStream.bytes_buffered o)) s o)
              (λ (s', o') (a, b). (a, b ∙ syn))
              (push_loop-Spent (suc (ByteStream.bytes_buffered o)) s o v roomy w
                (omega (arith, allowance-lt s v roomy)) (inl fin)))
          (λ _. let (a, b) = push_fin-Spent s o fin (omega arith) in (a, b ∙ syn)))

push-Started :
    (s : TcpSender) (o : ByteStream)
    → IsSending s
    → ByteStream.Invariant.IsValid o
    → s.next_abs_seqno + 2 ^ 16 < 2 ^ 64
    → OnReturn (Started s o) (push s o)
push-Started s o v w no_wrap = elim (Bool-cases s.syn) [
  | inl e ↦
      subst (OnReturn (Started s o)) (sym (push_started s o e)) (push_rest-Spent s o v w e no_wrap)
  | inr e ↦
      subst (OnReturn (Started s o)) (sym (push_started s o e)) (push_syn-Spent s o e (omega arith))
]

-- Each message that is in flight has a sequence number of its own.
count-total :
    (isn : Wrap32) (a : ℕ) (xs ms : List TcpSenderMessage)
    → IsNumbered isn a (xs ++ ms)
    → length ms ≤ total ms
unfolding total
count-total isn a [] [] h = omega arith
count-total isn a [] (m ∷ ms) h =
    omega (arith, h.1, count-total isn (a + sequence_length m) [] ms h.2)
count-total isn a (x ∷ xs) ms h = count-total isn (a + sequence_length x) xs ms h.2

syn_counts : (m : TcpSenderMessage) → m.syn ≡ true → 1 ≤ sequence_length m
unfolding sequence_length
syn_counts m e = omega (arith, ap flag_size e)

more_bytes :
    (sends sends' ms : List TcpSenderMessage) (bytes bytes' : List ℕ)
    → sends' ≡ sends ++ ms
    → payloads ms ++ bytes' ≡ bytes
    → payloads sends' ++ bytes' ≡ payloads sends ++ bytes
more_bytes sends sends' ms bytes bytes' q e =
    ap (λ l. payloads l ++ bytes') q
    ∙ ap (λ l. l ++ bytes') (payloads-append sends ms)
    ∙ append_assoc (payloads sends) (payloads ms) bytes'
    ∙ ap (λ l. payloads sends ++ l) e

-- What is known of a sender and its stream after a call.
pub record Budgeted (s : TcpSender) (o : ByteStream) (s' : TcpSender) (o' : ByteStream)
    : Type 0 where
  pub sending : IsSending s'
  pub valid : ByteStream.Invariant.IsValid o'
  pub syn : s'.syn ≡ true
  pub spent : Spent s o s' o'
  pub bytes : payloads s'.send_messages ++ o'.stream ≡ payloads s.send_messages ++ o.stream
  pub queued :
      length s'.send_messages + s.next_abs_seqno ≤ length s.send_messages + s'.next_abs_seqno

pub push-Budgeted :
    (s : TcpSender) (o : ByteStream)
    → IsSending s
    → ByteStream.Invariant.IsValid o
    → (s.syn ≡ true) ⊎ (0 < s.receiver_window_space)
    → s.next_abs_seqno + 2 ^ 16 < 2 ^ 64
    → (s' : TcpSender) × (o' : ByteStream) × (push s o ≡ ok (s', o')) × Budgeted s o s' o'
push-Budgeted s o v w ready no_wrap = elim (Bool-cases s.syn) [
  | inl syn ↦
      let (ms, s', o', e, t) = push_lem s o v w syn no_wrap in
      let (a, b) = subst (OnReturn (Started s o)) e (push-Started s o v w no_wrap) in
      (
        s',
        o',
        e,
        record {
          sending = t.sending;
          valid = t.valid;
          syn = b;
          spent = a;
          bytes =
              more_bytes s.send_messages s'.send_messages ms o.stream o'.stream t.queued t.bytes;
          queued = omega (
            arith,
            ap length t.queued,
            length-append s.send_messages ms,
            t.next,
            count-total s'.isn _ s.outstanding_messages ms
                (subst (IsNumbered s'.isn _) t.outstanding t.sending.numbered),
          );
        },
      )
  | inr syn ↦
      let (m, s', e, sending, m_syn, m_fin, payload, queued, next, _, _) =
        push_first s o v syn (ground (arith, ready, syn)) (omega arith) in
      let (a, b) = subst (OnReturn (Started s o)) e (push-Started s o v w no_wrap) in
      (
        s',
        o,
        e,
        record {
          sending = sending;
          valid = w;
          syn = b;
          spent = a;
          bytes =
              more_bytes s.send_messages s'.send_messages (m ∷ []) o.stream o.stream queued
                (unfold payloads in ap (λ l. (l ++ []) ++ o.stream) payload);
          queued = omega (
            arith,
            ap length queued,
            length-append s.send_messages (m ∷ []),
            next,
            syn_counts m m_syn,
          );
        },
      )
]
