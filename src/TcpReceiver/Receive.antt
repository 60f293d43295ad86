-- ===== src/TcpReceiver/Receive.antt =====
-- A segment that carries a part of the peer's stream is taken in without a fault.
use os_stream_socket.Base.{
  ℕ, ◌+◌, ◌-◌, ◌^◌, ◌≤◌, ◌<◌, ◌≡◌, ◌⊎◌, refl, ap, ◌∙◌, true, false, ◌&&◌, not, length, get_or,
  arith, Outcome, ok, ◌>>=◌, ◌++◌, append-nil, sym, Bool-cases, inl, inr,
}
use mathlib.Core.Path.{subst₂}
use os_stream_socket.Reassembler.Assemble.{segment}
use os_stream_socket.ByteStream.{ByteStream, bytes_pushed}
use os_stream_socket.ByteStream
use os_stream_socket.ByteStream.Invariant.{available_capacity_lem}
use os_stream_socket.WrappingIntegers.{IsWord, wrap, unwrap, absolute_delta}
use os_stream_socket.WrappingIntegers.Unwrap.{unwrap-wrap}
use os_stream_socket.Reassembler.{Reassembler}
use os_stream_socket.Reassembler
use os_stream_socket.Reassembler.Substring.{room_of}
use os_stream_socket.Reassembler.Insert.{IsReady, insert-Inserted, insert_progress}
use os_stream_socket.TcpMessages.{TcpSenderMessage}
use os_stream_socket.TcpReceiver.{
  TcpReceiver, last_ack_abs_seqno, note_syn, note_fin, in_window, stream_index, receive_segment,
  receive,
}

-- The segment's absolute sequence number is `n`, and its payload is the peer's stream at its place.
pub record Carries (truth : ℕ → ℕ) (n : ℕ) (message : TcpSenderMessage) (r : TcpReceiver)
    (inbound : ByteStream) : Type 0 where
  pub word : IsWord r.isn
  pub number : message.seqno ≡ wrap n r.isn
  pub near : absolute_delta (bytes_pushed inbound) n < 2 ^ 31
  pub same : (j : ℕ) → j < length message.payload → get_or message.payload j 0 ≡ truth (n - 1 + j)
  pub no_wrap : bytes_pushed inbound + inbound.capacity + 2 < 2 ^ 64
  pub short : n + length message.payload + 2 < 2 ^ 64

-- What a call leaves behind. If the segment overlaps the window and starts at the next byte or
-- before it, all of it that there is room for has been delivered.
pub record Received (truth : ℕ → ℕ) (n : ℕ) (message : TcpSenderMessage) (r : TcpReceiver)
    (inbound : ByteStream) (r' : TcpReceiver) (re' : Reassembler) (inbound' : ByteStream)
    : Type 0 where
  pub ready : IsReady truth re' inbound'
  pub zero_point : r'.isn ≡ r.isn
  pub advances : bytes_pushed inbound ≤ bytes_pushed inbound'
  pub appended :
      inbound'.stream
      ≡ inbound.stream
        ++ segment truth (bytes_pushed inbound) (bytes_pushed inbound' - bytes_pushed inbound)
  pub progress :
      in_window n message r inbound ≡ true
      → n ≤ bytes_pushed inbound + 1
      → (bytes_pushed inbound + room_of inbound ≤ bytes_pushed inbound')
        ⊎ (n - 1 + length message.payload ≤ bytes_pushed inbound')

last_ack_bounds :
    (r : TcpReceiver) (inbound : ByteStream)
    → bytes_pushed inbound + 2 < 2 ^ 64
    → (bytes_pushed inbound + 1 ≤ last_ack_abs_seqno r inbound)
      × (last_ack_abs_seqno r inbound ≤ bytes_pushed inbound + 2)
unfolding last_ack_abs_seqno
last_ack_bounds r inbound h = ground arith

stream_index_lem : (n : ℕ) → n < 2 ^ 64 → stream_index n ≡ n - 1
unfolding stream_index
stream_index_lem n h = ground arith

in_window_lem :
    (n : ℕ) (message : TcpSenderMessage) (r : TcpReceiver) (inbound : ByteStream)
    → ByteStream.Invariant.IsValid inbound
    → bytes_pushed inbound + inbound.capacity + 2 < 2 ^ 64
    → in_window n message r inbound ≡ true
    → n - 1 ≤ bytes_pushed inbound + room_of inbound
unfolding in_window
in_window_lem n message r inbound v h e =
    ground (arith, last_ack_bounds r inbound, available_capacity_lem inbound v)

module _ (truth : ℕ → ℕ) (n : ℕ) (message : TcpSenderMessage) (re : Reassembler)
    (inbound : ByteStream) (ready : IsReady truth re inbound) where
  abbrev pub Reception : TcpReceiver → Outcome (TcpReceiver × Reassembler × ByteStream) → Type 0
  Reception s x =
      (r' : TcpReceiver) × (re' : Reassembler) × (inbound' : ByteStream) × (x
        ≡ ok (r', re', inbound'))
      × Received truth n message s inbound r' re' inbound'

  synced : re.base_index ≡ bytes_pushed inbound
  unfolding bytes_pushed
  synced = ready.synced

  none_appended : (k : ℕ) → inbound.stream ≡ inbound.stream ++ segment truth k (k - k)
  none_appended k = let e : k - k ≡ 0 = omega arith in rw e (sym (append-nil inbound.stream))

  ignored :
      (s : TcpReceiver)
      → (in_window n message s inbound ≡ false)
      → Received truth n message s inbound s re inbound
  ignored s out = record {
    ready = ready;
    zero_point = refl;
    advances = omega arith;
    appended = none_appended (bytes_pushed inbound);
    progress = λ e h. absurd (cc);
  }

  note_fin_isn : (s : TcpReceiver) → (note_fin message s).isn ≡ s.isn
  unfolding note_fin
  note_fin_isn s = ground arith

  delivered :
      (s : TcpReceiver) (re' : Reassembler) (w' : ByteStream)
      → re'.base_index ≡ bytes_pushed w'
      → ((re.base_index + room_of inbound ≤ re'.base_index)
          ⊎ (n - 1 + length message.payload ≤ re'.base_index))
      → (bytes_pushed inbound + room_of inbound ≤ bytes_pushed w')
        ⊎ (n - 1 + length message.payload ≤ bytes_pushed w')
  delivered s re' w' pushed (inl h) = inl (omega (arith, synced))
  delivered s re' w' pushed (inr h) = inr (omega arith)

  stop :
      (r : TcpReceiver)
      → r.syn ≡ false
      → message.syn ≡ false
      → (not r.syn && not message.syn) ≡ true
  stop r a b = ground arith

  skip :
      (r : TcpReceiver)
      → (r.syn ≡ true) ⊎ (message.syn ≡ true)
      → (not r.syn && not message.syn) ≡ false
  skip r h = ground arith

  segment-Received :
      (s : TcpReceiver)
      → Carries truth n message s inbound
      → in_window n message s inbound ≡ true
      → Reception s (
          Reassembler.insert (n - 1) message.payload (note_fin message s).fin inbound re
          >>= λ (a, w). ok (note_fin message s, a, w))
  segment-Received s carries inside =
      let bound = in_window_lem n message s inbound ready.valid carries.no_wrap inside in
      let (re', w', run, i) =
        insert-Inserted truth (n - 1) message.payload (note_fin message s).fin inbound re ready
          carries.same (omega (arith, synced)) (omega (arith, synced)) (omega arith) in
      let pushed : re'.base_index ≡ bytes_pushed w' = unfold bytes_pushed in i.ready.synced in
      (
        note_fin message s,
        re',
        w',
        rw run refl,
        record {
          ready = i.ready;
          zero_point = note_fin_isn s;
          advances = omega (arith, i.advances, synced);
          appended =
              subst₂ (λ a b. w'.stream ≡ inbound.stream ++ segment truth a (b - a)) synced pushed
                i.appended;
          progress = λ e h. delivered s re' w' pushed (
              insert_progress truth (n - 1) message.payload (note_fin message s).fin inbound re
                ready carries.same (omega (arith, synced)) (omega (arith, synced)) (omega arith) run
                (omega (arith, synced)));
        },
      )

  pub receive_segment-Received :
      (s : TcpReceiver)
      → Carries truth n message s inbound
      → Reception s (receive_segment message s re inbound)
  unfolding receive_segment
  receive_segment-Received s carries =
      let abs_seqno : unwrap message.seqno s.isn (bytes_pushed inbound) ≡ n =
        ap (λ q. unwrap q s.isn (bytes_pushed inbound)) carries.number
        ∙ unwrap-wrap n s.isn (bytes_pushed inbound) carries.word (omega arith) (omega arith)
            carries.near in
      rw abs_seqno (
        rw (stream_index_lem n (omega arith)) (elim (Bool-cases (in_window n message s inbound)) [
          | inl inside ↦ rw inside (segment-Received s carries inside)
          | inr outside ↦ rw outside (s, re, inbound, refl, ignored s outside)
        ]))

  pub receive-Reception :
      (r : TcpReceiver)
      → Carries truth n message (note_syn message r) inbound
      → ((r.syn ≡ false)
          × (message.syn ≡ false)
          × (receive message r re inbound ≡ ok (r, re, inbound)))
        ⊎ (((r.syn ≡ true) ⊎ (message.syn ≡ true))
            × Reception (note_syn message r) (receive message r re inbound))
  unfolding receive
  receive-Reception r carries = elim (Bool-cases r.syn) [
    | inl s ↦
        inr (inl s, rw (skip r (inl s)) (receive_segment-Received (note_syn message r) carries))
    | inr s ↦ elim (Bool-cases message.syn) [
      | inl t ↦
          inr (inr t, rw (skip r (inr t)) (receive_segment-Received (note_syn message r) carries))
      | inr t ↦ inl (s, t, rw (stop r s t) refl)
    ]
  ]
