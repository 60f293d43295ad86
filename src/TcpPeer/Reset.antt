-- ===== src/TcpPeer/Reset.antt =====
-- An error of the inbound stream, as a segment with the reset flag makes one, is final.
use os_stream_socket.Base.{
  ℕ, ◌≡◌, refl, subst, List, Bool, true, false, ltb, if◌then◌else◌, Option, none, some, Outcome, ok,
  err, ◌>>=◌, length, arith, Bool-cases, inl, inr,
}
use os_stream_socket.ByteStream.{ByteStream}
use os_stream_socket.ByteStream
use os_stream_socket.TcpMessages.{TcpSenderMessage, TcpReceiverMessage}
use os_stream_socket.TcpSender
use os_stream_socket.TcpSegment.{TcpSegment, has_ackno}
use os_stream_socket.TcpPeer.{
  TcpPeer, push, tick, receive, active, maybe_send, send_next, segment_from, next_message,
  receiver_message,
}

-- What the peer and its application do.
pub data Step : TcpPeer → TcpPeer → Type 0 where
  received : (seg : TcpSegment) (p p' : TcpPeer) → receive seg p ≡ ok p' → Step p p'
  sent : (out : Option TcpSegment) (p p' : TcpPeer) → maybe_send p ≡ ok (out, p') → Step p p'
  pushed : (p p' : TcpPeer) → push p ≡ ok p' → Step p p'
  ticked : (ms : ℕ) (p : TcpPeer) → Step p (tick ms p)
  wrote :
      (bytes : List ℕ) (p : TcpPeer)
      → Step p (record p { outbound_stream = ByteStream.push bytes p.outbound_stream })
  closed :
      (p : TcpPeer) → Step p (record p { outbound_stream = ByteStream.close p.outbound_stream })
  failed :
      (p : TcpPeer) → Step p (record p { outbound_stream = ByteStream.set_error p.outbound_stream })
  popped :
      (len : ℕ) (p : TcpPeer)
      → Step p (record p { inbound_stream = ByteStream.pop len p.inbound_stream })

pub data Steps : TcpPeer → TcpPeer → Type 0 where
  stay : (p : TcpPeer) → Steps p p
  step : {p q r : TcpPeer} → Step p q → Steps q r → Steps p r

abbrev Failed : TcpPeer → Type 0
Failed p = p.inbound_stream.error ≡ true

abbrev FailedOk : Outcome TcpPeer → Type 0
FailedOk (ok p) = Failed p
FailedOk (err e) = Unit

push-Failed : (p : TcpPeer) → Failed p → FailedOk (push p)
unfolding push
push-Failed p h = kept (TcpSender.push p.sender p.outbound_stream)
  where
    kept :
        (o : Outcome (TcpSender.TcpSender × ByteStream))
        → FailedOk (
            o >>= λ (sender, outbound).
            ok (record p { sender = sender; outbound_stream = outbound }))
    kept (ok x) = h
    kept (err e) = tt

receive-Failed : (seg : TcpSegment) (p : TcpPeer) → Failed p → FailedOk (receive seg p)
unfolding receive ByteStream.has_error ByteStream.set_error
receive-Failed seg p h = elim (Bool-cases seg.reset) [ inl r ↦ rw r refl | inr r ↦ rw (r, h) refl ]

-- What is sent carries the reset flag.
abbrev Resets : Outcome (Option TcpSegment × TcpPeer) → Type 0
Resets (ok (some out, p)) = Failed p × (out.reset ≡ true)
Resets (ok (none, p)) = Failed p
Resets (err e) = Unit

segment_from-Resets :
    (message : TcpReceiverMessage) (sender_msg : Option TcpSenderMessage) (p : TcpPeer)
    → Failed p
    → Resets (ok (segment_from message sender_msg p, p))
unfolding segment_from ByteStream.has_error
segment_from-Resets message none p h = h
segment_from-Resets message (some m) p h = (h, ground (arith, h))

send_next-Resets :
    (message : TcpReceiverMessage) (p : TcpPeer) → Failed p → Resets (ok (send_next message p))
unfolding send_next
send_next-Resets message p h =
    let (sender_msg, sender) = TcpSender.maybe_send p.sender in
    segment_from-Resets message (next_message sender_msg p.need_send sender)
      (record p { sender = sender; need_send = false }) h

maybe_send-Resets : (p : TcpPeer) → Failed p → Resets (maybe_send p)
unfolding maybe_send
maybe_send-Resets p h = after _ (pushing (has_ackno (receiver_message p).ackno))
  where
    after :
        (o : Outcome TcpPeer)
        → FailedOk o
        → Resets (o >>= λ p'. ok (send_next (receiver_message p) p'))
    after (ok p') g = send_next-Resets (receiver_message p) p' g
    after (err e) g = tt

    pushing : (b : Bool) → FailedOk (if b then push p else ok p)
    pushing true = push-Failed p h
    pushing false = h

sent-Failed : (o : Option TcpSegment) (p : TcpPeer) → Resets (ok (o, p)) → Failed p
sent-Failed none p h = h
sent-Failed (some out) p h = h.0

pub step-Failed : {p p' : TcpPeer} → Step p p' → Failed p → Failed p'
unfolding tick ByteStream.push ByteStream.close ByteStream.set_error ByteStream.pop
step-Failed (received seg p p' e) h = subst FailedOk e (receive-Failed seg p h)
step-Failed (sent out p p' e) h = sent-Failed out p' (subst Resets e (maybe_send-Resets p h))
step-Failed (pushed p p' e) h = subst FailedOk e (push-Failed p h)
step-Failed (ticked ms p) h = h
step-Failed (wrote bytes p) h = h
step-Failed (closed p) h = h
step-Failed (failed p) h = h
step-Failed (popped len p) h = elim (Bool-cases (ltb (length p.inbound_stream.stream) len)) [
  | inl more ↦ rw more refl
  | inr fits ↦ rw fits h
]

pub steps-Failed : {p p' : TcpPeer} → Steps p p' → Failed p → Failed p'
steps-Failed (stay p) h = h
steps-Failed (step s ss) h = steps-Failed ss (step-Failed s h)

-- A segment with the reset flag is final: in every state that the peer reaches from then on, by
-- segments received and sent, pushes, ticks and whatever the application does with the streams,
-- `active` is false, and each segment that it sends has the reset flag.
pub receive_reset :
    (seg : TcpSegment) (p : TcpPeer)
    → seg.reset ≡ true
    → (p₁ : TcpPeer) × (receive seg p ≡ ok p₁)
      × ((p₂ : TcpPeer)
          → Steps p₁ p₂
          → (active p₂ ≡ false)
            × ((out : TcpSegment) (p₃ : TcpPeer)
                → maybe_send p₂ ≡ ok (some out, p₃)
                → out.reset ≡ true))
unfolding receive ByteStream.set_error
receive_reset seg p h = (
  record p { inbound_stream = record (p.inbound_stream) { error = true } },
  rw h refl,
  λ p₂ ss.
      let bad : Failed p₂ = steps-Failed ss refl in
      (
        unfold active ByteStream.has_error in rw bad refl,
        λ out p₃ e. (subst Resets e (maybe_send-Resets p₂ bad)).1,
      ),
)
