-- ===== src/TcpPeer/Reply.antt =====
-- What the peer answers.
use os_stream_socket.Base.{
  ℕ, ◌+◌, ◌^◌, ◌<◌, ◌≡◌, refl, ap, subst, ◌⊎◌, inl, inr, List, [], ◌∷◌, Bool, true, false,
  if◌then◌else◌, Option, none, some, Outcome, ok, ◌>>=◌, arith, Bool-cases,
}
use os_stream_socket.ByteStream.{ByteStream, bytes_pushed}
use os_stream_socket.ByteStream
use os_stream_socket.TcpMessages.{TcpSenderMessage, TcpReceiverMessage}
use os_stream_socket.TcpSender.{TcpSender}
use os_stream_socket.TcpSender
use os_stream_socket.TcpSender.Invariant.{IsSending}
use os_stream_socket.TcpSender.Transmit.{push_lem}
use os_stream_socket.TcpSender.Syn.{push_first}
use os_stream_socket.TcpSegment.{TcpSegment, has_ackno}
use os_stream_socket.TcpPeer.{
  TcpPeer, push, maybe_send, send_next, segment_from, next_message, receiver_message,
}
use os_stream_socket.TcpPeer.Receive.{IsPeer}

-- What is known of the peer after a push.
record Kept (truth : ℕ → ℕ) (p p' : TcpPeer) : Type 0 where
  peer : IsPeer truth p'
  need_send : p'.need_send ≡ p.need_send
  inbound : p'.inbound_stream ≡ p.inbound_stream

abbrev Pushes : (ℕ → ℕ) → TcpPeer → Outcome TcpPeer → Type 0
Pushes truth p o = (p' : TcpPeer) × (o ≡ ok p') × Kept truth p p'

pushed-Pushes :
    (truth : ℕ → ℕ) (p : TcpPeer) (s : TcpSender) (o : ByteStream)
    → IsPeer truth p
    → TcpSender.push p.sender p.outbound_stream ≡ ok (s, o)
    → IsSending s
    → ByteStream.Invariant.IsValid o
    → Pushes truth p (push p)
unfolding push
pushed-Pushes truth p s o v e sending valid = (
  record p { sender = s; outbound_stream = o },
  rw e refl,
  record {
    peer = record { sending = sending; ready = v.ready; outbound = valid };
    need_send = refl;
    inbound = refl;
  },
)

push-Pushes :
    (truth : ℕ → ℕ) (p : TcpPeer)
    → IsPeer truth p
    → (p.sender.syn ≡ true) ⊎ (0 < p.sender.receiver_window_space)
    → p.sender.next_abs_seqno + 2 ^ 16 < 2 ^ 64
    → Pushes truth p (push p)
push-Pushes truth p v roomy room = elim (Bool-cases p.sender.syn) [
  | inl syn ↦
      let (_, s, o, e, t) = push_lem p.sender p.outbound_stream v.sending v.outbound syn room in
      pushed-Pushes truth p s o v e t.sending t.valid
  | inr new ↦
      let (_, s, e, sending, _, _, _, _, _, _, _) =
        push_first p.sender p.outbound_stream v.sending new (ground (arith, roomy, new))
          (omega (arith, room)) in
      pushed-Pushes truth p s p.outbound_stream v e sending v.outbound
]

pushing :
    (truth : ℕ → ℕ) (p : TcpPeer) (b : Bool)
    → IsPeer truth p
    → (p.sender.syn ≡ true) ⊎ (0 < p.sender.receiver_window_space)
    → p.sender.next_abs_seqno + 2 ^ 16 < 2 ^ 64
    → Pushes truth p (if b then push p else ok p)
pushing truth p true v roomy room = push-Pushes truth p v roomy room
pushing truth p false v roomy room =
    (p, refl, record { peer = v; need_send = refl; inbound = refl })

pub other_queue :
    (s : TcpSender)
    → IsSending s
    → (ms : List TcpSenderMessage) → IsSending (record s { send_messages = ms })
other_queue s v ms = record {
  word = v.word;
  counted = v.counted;
  behind = v.behind;
  next_word = v.next_word;
  numbered = v.numbered;
  space = v.space;
  size_word = v.size_word;
}

maybe_send-IsSending : (s : TcpSender) → IsSending s → IsSending (TcpSender.maybe_send s).1
unfolding TcpSender.maybe_send
maybe_send-IsSending s v = by_queue s.send_messages
  where
    by_queue :
        (ms : List TcpSenderMessage)
        → IsSending (TcpSender.maybe_send (record s { send_messages = ms })).1
    by_queue [] = other_queue s v []
    by_queue (m ∷ rest) = other_queue s v rest

-- A segment brings the receiver's message, and there is one if one is needed.
abbrev Answers : Bool → TcpReceiverMessage → Option TcpSegment → Type 0
Answers need_send message none = need_send ≡ false
Answers need_send message (some out) = out.receiver_message ≡ message

next_message-Answers :
    (message : TcpReceiverMessage) (m : Option TcpSenderMessage) (need_send : Bool) (s : TcpSender)
    (p : TcpPeer)
    → Answers need_send message (segment_from message (next_message m need_send s) p)
unfolding segment_from next_message
next_message-Answers message (some m) need_send s p = refl
next_message-Answers message none true s p = refl
next_message-Answers message none false s p = refl

needed_answer :
    (need_send : Bool) (message : TcpReceiverMessage) (out : Option TcpSegment)
    → Answers need_send message out
    → need_send ≡ true
    → (seg : TcpSegment) × (out ≡ some seg)
needed_answer need_send message none h e = ground (arith, h, e)
needed_answer need_send message (some seg) h e = (seg, refl)

-- What `maybe_send` gives, and what it leaves.
pub record Replied (truth : ℕ → ℕ) (p : TcpPeer) (out : Option TcpSegment) (p' : TcpPeer)
    : Type 0 where
  pub peer : IsPeer truth p'
  pub done : p'.need_send ≡ false
  pub inbound : p'.inbound_stream ≡ p.inbound_stream
  pub needed : p.need_send ≡ true → (seg : TcpSegment) × (out ≡ some seg)
  pub acknowledges : (seg : TcpSegment) → out ≡ some seg → seg.receiver_message ≡ receiver_message p

replied :
    (truth : ℕ → ℕ) (p p₁ : TcpPeer)
    → Kept truth p p₁
    → Replied truth p (send_next (receiver_message p) p₁).0 (send_next (receiver_message p) p₁).1
unfolding send_next
replied truth p p₁ k =
    let (m, s) = TcpSender.maybe_send p₁.sender in
    let p' : TcpPeer = record p₁ { sender = s; need_send = false } in
    let answer : Answers p.need_send (receiver_message p)
        (segment_from (receiver_message p) (next_message m p₁.need_send s) p') =
      subst
        (λ b.
          Answers b (receiver_message p)
            (segment_from (receiver_message p) (next_message m p₁.need_send s) p'))
        k.need_send (next_message-Answers (receiver_message p) m p₁.need_send s p') in
    record {
      peer = record {
        sending = maybe_send-IsSending p₁.sender k.peer.sending;
        ready = k.peer.ready;
        outbound = k.peer.outbound;
      };
      done = refl;
      inbound = k.inbound;
      needed = needed_answer p.need_send (receiver_message p) _ answer;
      acknowledges = λ seg e. subst (Answers p.need_send (receiver_message p)) e answer;
    }

-- On a peer that satisfies the invariants of its parts, with the SYN sent or room in the window,
-- and its next sequence number at least 2 ^ 16 below 2 ^ 64, `maybe_send` returns and the
-- invariants hold again; if an answer is due there is a segment, and none is due afterwards; a
-- segment has the receiver's message of the time of the call, and the inbound stream is untouched.
pub maybe_send-Replied :
    (truth : ℕ → ℕ) (p : TcpPeer)
    → IsPeer truth p
    → (p.sender.syn ≡ true) ⊎ (0 < p.sender.receiver_window_space)
    → p.sender.next_abs_seqno + 2 ^ 16 < 2 ^ 64
    → (out : Option TcpSegment) × (p' : TcpPeer) × (maybe_send p ≡ ok (out, p'))
      × Replied truth p out p'
unfolding maybe_send
maybe_send-Replied truth p v roomy room =
    let (p₁, e, k) = pushing truth p (has_ackno (receiver_message p).ackno) v roomy room in
    let (out, p') = send_next (receiver_message p) p₁ in
    (out, p', ap (λ o. o >>= λ q. ok (send_next (receiver_message p) q)) e, replied truth p p₁ k)
