-- ===== src/TcpMinnowSocket/Collect.antt =====
-- The loop that drains the peer ends.
use os_stream_socket.Base.{
  ℕ, zero, suc, ◌+◌, ◌^◌, ◌≤◌, ◌<◌, ◌≡◌, ◌⊎◌, inl, refl, ap, sym, subst, ◌∙◌, List, [], ◌∷◌, ◌++◌,
  append-nil, append_assoc, Bool, true, false, not, if◌then◌else◌, length, Option, none, some,
  Outcome, ok, ◌>>=◌, arith,
}
use os_stream_socket.ByteStream.{ByteStream}
use os_stream_socket.ByteStream
use os_stream_socket.TcpMessages.{TcpSenderMessage, TcpReceiverMessage, flag_size, default_message}
use os_stream_socket.TcpSender.{TcpSender}
use os_stream_socket.TcpSender
use os_stream_socket.TcpSender.Invariant.{IsSending, payloads}
use os_stream_socket.TcpSender.Push.{left}
use os_stream_socket.TcpSender.Budget.{push-Budgeted}
use os_stream_socket.TcpSegment.{TcpSegment, has_ackno}
use os_stream_socket.TcpPeer.{
  TcpPeer, push, maybe_send, send_next, segment_from, next_message, receiver_message,
}
use os_stream_socket.TcpPeer.Reply.{other_queue}
use os_stream_socket.TcpMinnowSocket.{TcpMinnowSocket, collect_loop, collect_fuel, collect_segments}

-- The sender and its stream satisfy their invariants, it has started or may start, and its numbers are far
-- from 2 ^ 64.
pub record IsLive (p : TcpPeer) : Type 0 where
  pub sending : IsSending p.sender
  pub outbound : ByteStream.Invariant.IsValid p.outbound_stream
  pub ready : (p.sender.syn ≡ true) ⊎ (0 < p.sender.receiver_window_space)
  pub far : p.sender.next_abs_seqno + left p.sender p.outbound_stream + 2 ^ 16 < 2 ^ 64

-- How many segments can still come.
abbrev pub budget : TcpPeer → ℕ
budget p = length p.sender.send_messages + left p.sender p.outbound_stream + flag_size p.need_send

-- The bytes that are on their way: in the queue, and in the stream behind it.
abbrev pub pending : TcpPeer → List ℕ
pending p = payloads p.sender.send_messages ++ p.outbound_stream.stream

-- The bytes that segments carry.
abbrev pub carried : List TcpSegment → List ℕ
carried [] = []
carried (seg ∷ segs) = seg.sender_message.payload ++ carried segs

-- Nothing else of the peer has changed.
abbrev pub Rest : TcpPeer → TcpPeer → Type 0
Rest p p' =
    (p'.inbound_stream ≡ p.inbound_stream)
    × (p'.receiver ≡ p.receiver)
    × (p'.reassembler ≡ p.reassembler)

abbrev pub Pushes : TcpPeer → Outcome TcpPeer → Type 0
Pushes p o =
    (p' : TcpPeer) × (o ≡ ok p')
    × IsLive p'
    × (budget p' ≤ budget p)
    × (pending p' ≡ pending p)
    × Rest p p'

pub push-Pushes : (p : TcpPeer) → IsLive p → Pushes p (push p)
unfolding push
push-Pushes p v =
    let (s, o, e, b) =
      push-Budgeted p.sender p.outbound_stream v.sending v.outbound v.ready
        (omega (arith, v.far)) in
    (
      record p { sender = s; outbound_stream = o },
      ap
          (λ x. x >>= λ (sender, outbound).
            ok (record p { sender = sender; outbound_stream = outbound }))
          e,
      record {
        sending = b.sending;
        outbound = b.valid;
        ready = inl b.syn;
        far = omega (arith, b.spent, v.far);
      },
      omega (arith, b.spent, b.queued),
      b.bytes,
      (refl, refl, refl),
    )

pushing : (p : TcpPeer) (b : Bool) → IsLive p → Pushes p (if b then push p else ok p)
pushing p true v = push-Pushes p v
pushing p false v = (p, refl, v, omega arith, refl, (refl, refl, refl))

-- A segment takes one from the budget; none means that the queue is empty, and then none is due either.
abbrev Sends : TcpPeer → Option TcpSegment × TcpPeer → Type 0
Sends p (none, p') =
    (p'.sender.send_messages ≡ []) × (p'.need_send ≡ false) × (pending p' ≡ pending p)
Sends p (some seg, p') =
    (budget p' < budget p) × (seg.sender_message.payload ++ pending p' ≡ pending p)

-- The peer with another queue, and with another need to send.
with_queue : TcpPeer → List TcpSenderMessage → Bool → TcpPeer
with_queue p ms b = record p { sender = record (p.sender) { send_messages = ms }; need_send = b }

with_queue-IsLive :
    (p : TcpPeer) (ms : List TcpSenderMessage) (b : Bool) → IsLive p → IsLive (with_queue p ms b)
unfolding with_queue
with_queue-IsLive p ms b v = record {
  sending = other_queue p.sender v.sending ms;
  outbound = v.outbound;
  ready = v.ready;
  far = v.far;
}

abbrev Sent : TcpReceiverMessage → TcpPeer → Type 0
Sent message p =
    Sends p (send_next message p) × IsLive (send_next message p).1 × Rest p (send_next message p).1

with_queue-Sent :
    (message : TcpReceiverMessage) (p : TcpPeer) (ms : List TcpSenderMessage) (b : Bool)
    → IsLive p
    → Sent message (with_queue p ms b)
unfolding send_next next_message segment_from TcpSender.maybe_send TcpSender.send_empty_message
    default_message payloads with_queue
with_queue-Sent message p [] true v =
    ((omega arith, refl), with_queue-IsLive p [] false v, (refl, refl, refl))
with_queue-Sent message p [] false v =
    ((refl, refl, refl), with_queue-IsLive p [] false v, (refl, refl, refl))
with_queue-Sent message p (m ∷ ms) b v = (
  (omega arith, sym (append_assoc m.payload (payloads ms) p.outbound_stream.stream)),
  with_queue-IsLive p ms false v,
  (refl, refl, refl),
)

send_next-Sent : (message : TcpReceiverMessage) (p : TcpPeer) → IsLive p → Sent message p
unfolding with_queue
send_next-Sent message p v = with_queue-Sent message p p.sender.send_messages p.need_send v

-- A call of `maybe_send`.
abbrev Step : TcpPeer → Outcome (Option TcpSegment × TcpPeer) → Type 0
Step p o =
    (x : Option TcpSegment × TcpPeer) × (o ≡ ok x)
    × IsLive x.1
    × Rest p x.1
    × (q : TcpPeer) × (budget q ≤ budget p)
    × (pending q ≡ pending p)
    × Sends q x

maybe_send-Step : (p : TcpPeer) → IsLive p → Step p (maybe_send p)
unfolding maybe_send
maybe_send-Step p v =
    let (q, e, live, less, bytes, (a, b, c)) = pushing p (has_ackno (receiver_message p).ackno) v in
    let (sends, live', (a', b', c')) = send_next-Sent (receiver_message p) q live in
    (
      send_next (receiver_message p) q,
      ap (λ o. o >>= λ p'. ok (send_next (receiver_message p) p')) e,
      live',
      (a' ∙ a, b' ∙ b, c' ∙ c),
      q,
      less,
      bytes,
      sends,
    )

-- What the loop leaves: the peer has nothing to send, and what it had is behind what was queued.
pub record Drained (p : TcpPeer) (queue : List TcpSegment) (p' : TcpPeer) (queue' : List TcpSegment)
    : Type 0 where
  pub live : IsLive p'
  pub empty : p'.sender.send_messages ≡ []
  pub none_due : p'.need_send ≡ false
  pub behind :
      (segs : List TcpSegment) × (queue' ≡ queue ++ segs)
      × (carried segs ++ p'.outbound_stream.stream ≡ pending p)
  pub rest : Rest p p'

abbrev Drains : TcpPeer → List TcpSegment → Outcome (TcpPeer × List TcpSegment) → Type 0
Drains p queue o =
    (p' : TcpPeer) × (queue' : List TcpSegment) × (o ≡ ok (p', queue')) × Drained p queue p' queue'

-- What the loop does after a call of `maybe_send`.
abbrev go_on :
    ℕ → List TcpSegment → Option TcpSegment × TcpPeer → Outcome (TcpPeer × List TcpSegment)
go_on fuel queue (none, p) = ok (p, queue)
go_on fuel queue (some s, p) = collect_loop fuel p (queue ++ s ∷ [])

collect_loop-go_on :
    (fuel : ℕ) (p : TcpPeer) (queue : List TcpSegment) (x : Option TcpSegment × TcpPeer)
    → maybe_send p ≡ ok x
    → collect_loop (suc fuel) p queue ≡ go_on fuel queue x
unfolding collect_loop
collect_loop-go_on fuel p queue (none, q) e = rw e refl
collect_loop-go_on fuel p queue (some s, q) e = rw e refl

Drained-step :
    (p q p' : TcpPeer) (queue : List TcpSegment) (seg : TcpSegment) (queue' : List TcpSegment)
    → Rest p q
    → seg.sender_message.payload ++ pending q ≡ pending p
    → Drained q (queue ++ seg ∷ []) p' queue'
    → Drained p queue p' queue'
Drained-step p q p' queue seg queue' (a, b, c) h d =
    let (segs, e, bytes) = d.behind in
    let (a', b', c') = d.rest in
    record {
      live = d.live;
      empty = d.empty;
      none_due = d.none_due;
      behind = (
        seg ∷ segs,
        e ∙ append_assoc queue (seg ∷ []) segs,
        append_assoc seg.sender_message.payload (carried segs) p'.outbound_stream.stream
            ∙ ap (λ l. seg.sender_message.payload ++ l) bytes
            ∙ h,
      );
      rest = (a' ∙ a, b' ∙ b, c' ∙ c);
    }

-- By what the loop does with the rest of the fuel.
go_on-Drains :
    (fuel : ℕ)
    → ((p : TcpPeer) (queue : List TcpSegment)
        → IsLive p
        → budget p < fuel
        → Drains p queue (collect_loop fuel p queue))
    → (p : TcpPeer) (queue : List TcpSegment) (x : Option TcpSegment × TcpPeer) (q : TcpPeer)
    → IsLive x.1
    → Rest p x.1
    → budget q ≤ budget p
    → pending q ≡ pending p
    → Sends q x
    → budget p < suc fuel
    → Drains p queue (go_on fuel queue x)
unfolding payloads
go_on-Drains fuel loop p queue (none, p') q live rest less same (empty, none_due, bytes) h = (
  p',
  queue,
  refl,
  record {
    live = live;
    empty = empty;
    none_due = none_due;
    behind = (
      [],
      sym (append-nil queue),
      ap (λ ms. payloads ms ++ p'.outbound_stream.stream) (sym empty) ∙ bytes ∙ same,
    );
    rest = rest;
  },
)
go_on-Drains fuel loop p queue (some s, p') q live rest less same (fewer, bytes) h =
    let (p'', queue', e, d) = loop p' (queue ++ s ∷ []) live (omega (arith, fewer, less)) in
    (p'', queue', e, Drained-step p p' p'' queue s queue' rest (bytes ∙ same) d)

pub collect_loop-Drains :
    (fuel : ℕ) (p : TcpPeer) (queue : List TcpSegment)
    → IsLive p
    → budget p < fuel
    → Drains p queue (collect_loop fuel p queue)
collect_loop-Drains zero p queue v h = absurd (omega arith)
collect_loop-Drains (suc fuel) p queue v h =
    let (x, e, live, rest, q, less, same, sends) = maybe_send-Step p v in
    subst (Drains p queue) (sym (collect_loop-go_on fuel p queue x e))
      (go_on-Drains fuel (collect_loop-Drains fuel) p queue x q live rest less same sends h)

flag_size_le : (b : Bool) → flag_size b ≤ 1
flag_size_le true = omega arith
flag_size_le false = omega arith

-- What `collect_segments` leaves of a socket.
pub record Collected {State : Type 0} (t t' : TcpMinnowSocket State) : Type 0 where
  pub drained : Drained t.tcp t.outgoing_segments t'.tcp t'.outgoing_segments
  pub same : t' ≡ record t { tcp = t'.tcp; outgoing_segments = t'.outgoing_segments }

module _ {State : Type 0} where
  -- If the sender and the outbound stream satisfy their invariants, the SYN is sent or there is
  -- room in the window, and the sequence number after all that is left to send is at least 2 ^ 16
  -- below 2 ^ 64, then `collect_segments` returns, without running out of rounds: the peer has
  -- nothing to send then and owes no answer, the new segments stand behind those queued before,
  -- and their payloads followed by the outbound stream are the payloads queued in the sender and
  -- the outbound stream before; the rest of the socket is as it was.
  pub collect_segments-Collected :
      (t : TcpMinnowSocket State)
      → IsLive t.tcp
      → (t' : TcpMinnowSocket State) × (collect_segments t ≡ ok t') × Collected t t'
  unfolding collect_segments collect_fuel
  collect_segments-Collected t v =
      let p = t.tcp in
      let (p', queue', e, d) = collect_loop-Drains (collect_fuel p) p t.outgoing_segments v (
        omega (
          arith,
          flag_size_le (not p.sender.fin),
          flag_size_le (not p.sender.syn),
          flag_size_le p.need_send,
        )) in
      (
        record t { tcp = p'; outgoing_segments = queue' },
        ap (λ o. o >>= λ (tcp, queue). ok (record t { tcp = tcp; outgoing_segments = queue })) e,
        record { drained = d; same = refl },
      )
