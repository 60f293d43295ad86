-- ===== src/TcpSender/Push.antt =====
-- What `push` sends.
use os_stream_socket.Base.{
  subst, ◌>>=◌, OnReturn, OnReturn-weaken, elim-OnReturn, Bool, not, sub64, ◌*◌, ℕ, zero, suc, ◌+◌,
  ◌-◌, ◌^◌, ◌≤◌, ◌<◌, ◌≡◌, ◌⊎◌, refl, ap, sym, ◌∙◌, List, [], ◌∷◌, ◌++◌, append_assoc, append-nil,
  true, false, length, take, arith, Bool-cases, inl, inr, Outcome, ok, min, length-take,
  length-drop, take-append-drop, le→ltb,
}
use os_stream_socket.ByteStream.{ByteStream}
use os_stream_socket.ByteStream
use os_stream_socket.ByteStream.Invariant.{bytes_buffered_lem, pop-IsValid}
use os_stream_socket.ByteStream.Read.{read_lem}
use os_stream_socket.TcpMessages.{TcpSenderMessage, sequence_length, flag_size}
use os_stream_socket.TcpSender.{
  has_buffered, TcpSender, max_payload_size, open_window, window_shut, may_send, read_size,
  segment_of, send_segment, push_round, push_loop,
}
use os_stream_socket.TcpSender.Invariant.{
  total, total-append, payloads, payloads-append, IsSending, IsRoomy, allowance,
  send_segment-IsSending, open_window-Opened,
}

-- No payload is longer than the limit.
abbrev pub IsSmall : List TcpSenderMessage → Type 0
IsSmall [] = Unit {0}
IsSmall (m ∷ ms) = (length m.payload ≤ max_payload_size) × IsSmall ms

IsSmall-append : (xs ys : List TcpSenderMessage) → IsSmall xs → IsSmall ys → IsSmall (xs ++ ys)
IsSmall-append [] ys h k = k
IsSmall-append (m ∷ xs) ys h k = (h.0, IsSmall-append xs ys h.1 k)

-- How many sequence numbers there are left to use: one for each byte and for the FIN, and two for the first
-- message.
abbrev pub left : TcpSender → ByteStream → ℕ
left s o = length o.stream + flag_size (not s.fin) + 2 * flag_size (not s.syn)

-- No more of them have been used than there were.
abbrev pub Spent : TcpSender → ByteStream → TcpSender → ByteStream → Type 0
Spent s o s' o' = s'.next_abs_seqno + left s' o' ≤ s.next_abs_seqno + left s o

-- From `s` and the stream `o` the messages `ms` have been sent, in order.
pub record Sent (s : TcpSender) (o : ByteStream) (ms : List TcpSenderMessage) (s' : TcpSender)
    (o' : ByteStream) : Type 0 where
  pub sending : IsSending s'
  pub roomy : IsRoomy s'
  pub valid : ByteStream.Invariant.IsValid o'
  pub queued : s'.send_messages ≡ s.send_messages ++ ms
  pub outstanding : s'.outstanding_messages ≡ s.outstanding_messages ++ ms
  pub bytes : payloads ms ++ o'.stream ≡ o.stream
  pub small : IsSmall ms
  pub window : total ms + allowance s' ≤ allowance s
  pub next : s'.next_abs_seqno ≡ s.next_abs_seqno + total ms

pub Sent-nil :
    (s : TcpSender) (o : ByteStream)
    → IsSending s
    → IsRoomy s
    → ByteStream.Invariant.IsValid o
    → Sent s o [] s o
unfolding total payloads
Sent-nil s o v roomy w = record {
  sending = v;
  roomy = roomy;
  valid = w;
  queued = sym (append-nil s.send_messages);
  outstanding = sym (append-nil s.outstanding_messages);
  bytes = refl;
  small = tt;
  window = omega arith;
  next = omega arith;
}

pub Sent-trans :
    (s t u : TcpSender) (o p q : ByteStream) (ms ns : List TcpSenderMessage)
    → Sent s o ms t p
    → Sent t p ns u q
    → Sent s o (ms ++ ns) u q
Sent-trans s t u o p q ms ns a b = record {
  sending = b.sending;
  roomy = b.roomy;
  valid = b.valid;
  queued = b.queued ∙ ap (λ x. x ++ ns) a.queued ∙ append_assoc s.send_messages ms ns;
  outstanding =
      b.outstanding ∙ ap (λ x. x ++ ns) a.outstanding ∙ append_assoc s.outstanding_messages ms ns;
  bytes =
      ap (λ x. x ++ q.stream) (payloads-append ms ns)
      ∙ append_assoc (payloads ms) (payloads ns) q.stream
      ∙ ap (◌++◌ (payloads ms)) b.bytes
      ∙ a.bytes;
  small = IsSmall-append ms ns a.small b.small;
  window = omega (arith, total-append ms ns, a.window, b.window);
  next = omega (arith, total-append ms ns, a.next, b.next);
}

-- A finished stream has nothing to send.
finished_buffered : (o : ByteStream) → ByteStream.is_finished o ≡ true → has_buffered o ≡ false
unfolding has_buffered ByteStream.is_finished ByteStream.bytes_buffered
finished_buffered o e =
    let same : o.bytes_write ≡ o.bytes_read = ground (arith, e) in
    let none_left : sub64 o.bytes_write o.bytes_read ≡ 0 = omega (arith, same) in rw none_left refl

finished_may :
    (s : TcpSender) (o : ByteStream) → ByteStream.is_finished o ≡ true → may_send s o ≡ false
unfolding may_send
finished_may s o e = let none_left = finished_buffered o e in ground (arith, none_left)

flags_split : (b c : Bool) → c ≡ b → flag_size (not c) + flag_size b ≡ 1
flags_split true c e = ap (λ x. flag_size (not x) + 1) e
flags_split false c e = ap (λ x. flag_size (not x) + 0) e

read_size_bounds :
    (s : TcpSender) (o : ByteStream)
    → ByteStream.Invariant.IsValid o
    → may_send s o ≡ true
    → (0 < read_size s o)
      × (read_size s o ≤ allowance s)
      × (read_size s o ≤ max_payload_size)
      × (read_size s o ≤ length o.stream)
unfolding may_send read_size
read_size_bounds s o v e = ground (arith, bytes_buffered_lem o v)

allowance-send_segment :
    (m : TcpSenderMessage) (s : TcpSender)
    → IsSending s
    → IsRoomy s
    → window_shut s ≡ false
    → sequence_length m ≤ s.receiver_window_space
    → allowance (send_segment m s) ≡ s.receiver_window_space - sequence_length m
unfolding send_segment window_shut
allowance-send_segment m s v roomy ajar fits = ground arith

module _ (s : TcpSender) (o : ByteStream) (sending : IsSending s) (roomy : IsRoomy s)
    (valid : ByteStream.Invariant.IsValid o) (no_wrap : s.next_abs_seqno + allowance s < 2 ^ 64)
    (more : may_send s o ≡ true) where
  size : ℕ
  size = read_size s o

  read_out : List ℕ
  read_out = take size o.stream

  o' : ByteStream
  o' = ByteStream.pop size o

  m : TcpSenderMessage
  m = segment_of size read_out (open_window s) o'

  bounds : (0 < size) × (size ≤ allowance s) × (size ≤ max_payload_size) × (size ≤ length o.stream)
  unfolding size
  bounds = read_size_bounds s o valid more

  length-payload : length m.payload ≡ size
  unfolding m read_out segment_of
  length-payload = omega (arith, length-take size o.stream, bounds)

  length_m : (size ≤ sequence_length m) × (sequence_length m ≤ allowance s)
  length_m = flags (Bool-cases m.fin)
    where
      space : (open_window s).receiver_window_space ≡ allowance s
      space = (open_window-Opened s sending roomy).space

      len : sequence_length m ≡ size + flag_size m.fin
      len = unfold m segment_of sequence_length in omega (arith, length-payload)

      room : m.fin ≡ true → size < allowance s
      room e = unfold m segment_of in ground (arith, e, space)

      flags :
          (m.fin ≡ true) ⊎ (m.fin ≡ false)
          → (size ≤ sequence_length m) × (sequence_length m ≤ allowance s)
      flags (inl e) =
          let l = len ∙ ap (λ b. size + flag_size b) e in
          (omega (arith, len), omega (arith, l, room e))
      flags (inr e) =
          let l = len ∙ ap (λ b. size + flag_size b) e in
          (omega (arith, len), omega (arith, l, bounds))

  read_exactly : ByteStream.read (read_size s o) o ≡ ok (read_out, o')
  unfolding read_out o' size
  read_exactly =
      let e : min size (length o.stream) ≡ size = omega (arith, bounds) in
      let r : ByteStream.read (read_size s o) o
          ≡ ok (take size o.stream, ByteStream.pop (min size (length o.stream)) o) =
        read_lem size o valid (omega (arith, bounds)) in
      rw e at r

  round : push_round s o ≡ ok (send_segment m (open_window s), o')
  unfolding push_round m size
  round = rw read_exactly refl

  rest_of_window : allowance (send_segment m (open_window s)) ≡ allowance s - sequence_length m
  rest_of_window =
      let w = open_window-Opened s sending roomy in
      allowance-send_segment m (open_window s) w.sending w.roomy w.ajar
        (omega (arith, w.space, length_m))
      ∙ ap (λ k. k - sequence_length m) w.space

  taken : payloads (m ∷ []) ++ o'.stream ≡ o.stream
  unfolding payloads m segment_of read_out o' ByteStream.pop
  taken =
      rw (le→ltb (length o.stream) size (omega (arith, bounds)), append-nil)
        (take-append-drop size o.stream)

  shorter : length o'.stream < length o.stream
  unfolding o' ByteStream.pop
  shorter = ground (arith, length-drop size o.stream, bounds)

  round-Sent : Sent s o (m ∷ []) (send_segment m (open_window s)) o'
  unfolding total
  round-Sent =
      let w = open_window-Opened s sending roomy in
      record {
        sending =
            send_segment-IsSending m (open_window s) w.sending w.roomy (unfold m segment_of in refl)
              (omega (arith, bounds, length_m)) (omega (arith, w.space, length_m))
              (omega (arith, w.next, length_m));
        roomy =
            unfold send_segment in omega (arith, w.roomy, w.sending.size_word, length_m, w.space);
        valid = unfold o' in pop-IsValid size o valid;
        queued = unfold send_segment in ap (λ x. x ++ m ∷ []) w.send;
        outstanding = unfold send_segment in ap (λ x. x ++ m ∷ []) w.outstanding;
        bytes = taken;
        small = (omega (arith, length-payload, bounds), tt);
        window = omega (arith, rest_of_window, length_m);
        next = unfold send_segment in omega (arith, w.next, length_m);
      }

  round-after :
      s.fin ≡ false
      → ((send_segment m (open_window s)).fin ≡ m.fin)
        × ((send_segment m (open_window s)).syn ≡ s.syn)
  round-after e = (
    unfold send_segment open_window in ground (arith, e),
    unfold send_segment open_window in ground arith,
  )

  round-length : length m.payload + length o'.stream ≡ length o.stream
  unfolding o' ByteStream.pop
  round-length = ground (arith, length-payload, length-drop size o.stream, bounds)

  round-size : sequence_length m ≡ length m.payload + flag_size m.fin
  unfolding m segment_of sequence_length
  round-size = omega arith

  round-Spent : s.fin ≡ false → Spent s o (send_segment m (open_window s)) o'
  unfolding total
  round-Spent e =
      let (fin, syn) = round-after e in
      let one = round-Sent.next in
      omega (
        arith,
        round-size,
        round-length,
        one,
        flags_split m.fin (send_segment m (open_window s)).fin fin,
        ap (λ b. flag_size (not b)) e,
        ap (λ b. flag_size (not b)) syn,
      )

  -- The FIN comes with the last byte.
  round-last :
      s.fin ≡ false
      → ((send_segment m (open_window s)).fin ≡ false)
        ⊎ (may_send (send_segment m (open_window s)) o' ≡ false)
  round-last e = elim (Bool-cases m.fin) [
    | inl f ↦ inr (
        finished_may (send_segment m (open_window s)) o' (unfold m segment_of in ground (arith, f)))
    | inr f ↦ inl ((round-after e).0 ∙ f)
  ]

-- A result of `push`: what has been sent, and that no byte is left that could be sent.
unfoldable pub Looped : TcpSender → ByteStream → Outcome (TcpSender × ByteStream) → Type 0
Looped s o x =
    (ms : List TcpSenderMessage) × (s' : TcpSender) × (o' : ByteStream) × (x ≡ ok (s', o'))
    × Sent s o ms s' o'
    × (may_send s' o' ≡ false)

pub push_loop-Looped :
    (fuel : ℕ) (s : TcpSender) (o : ByteStream)
    → IsSending s
    → IsRoomy s
    → ByteStream.Invariant.IsValid o
    → s.next_abs_seqno + allowance s < 2 ^ 64
    → length o.stream < fuel
    → Looped s o (push_loop fuel s o)
unfolding push_loop Looped
push_loop-Looped zero s o v roomy w no_wrap h = absurd (omega arith)
push_loop-Looped (suc fuel) s o v roomy w no_wrap h = elim (Bool-cases (may_send s o)) [
  | inr stop ↦ rw (stop, push_loop) ([], s, o, refl, Sent-nil s o v roomy w, stop)
  | inl more ↦
      let one = round-Sent s o v roomy w no_wrap more in
      let t = send_segment (m s o v roomy w no_wrap more) (open_window s) in
      let p = o' s o v roomy w no_wrap more in
      let (ms, u, q, run, sent, stop) =
        push_loop-Looped fuel t p one.sending one.roomy one.valid
          (omega (arith, one.next, one.window))
          (omega (arith, shorter s o v roomy w no_wrap more)) in
      rw (more, push_loop)
        (rw (round s o v roomy w no_wrap more) (
          m s o v roomy w no_wrap more ∷ ms,
          u,
          q,
          run,
          Sent-trans s t u o p q _ ms one sent,
          stop,
        ))
]

-- What the loop of `push` uses, from before the FIN or when nothing may be sent.
pub push_loop-Spent :
    (fuel : ℕ) (s : TcpSender) (o : ByteStream)
    → IsSending s
    → IsRoomy s
    → ByteStream.Invariant.IsValid o
    → s.next_abs_seqno + allowance s < 2 ^ 64
    → (s.fin ≡ false) ⊎ (may_send s o ≡ false)
    → OnReturn (λ (s', o'). Spent s o s' o' × (s'.syn ≡ s.syn)) (push_loop fuel s o)
unfolding push_loop
push_loop-Spent zero s o v roomy w no_wrap h = tt
push_loop-Spent (suc fuel) s o v roomy w no_wrap h =
    let K : TcpSender × ByteStream → Type 0 = λ (s', o'). Spent s o s' o' × (s'.syn ≡ s.syn) in
    elim-OnReturn K (may_send s o) (push_round s o >>= λ (s', o'). push_loop fuel s' o') (ok (s, o))
      (λ more.
        let e : s.fin ≡ false = before_fin more h in
        let one = round-Sent s o v roomy w no_wrap more in
        let t = send_segment (m s o v roomy w no_wrap more) (open_window s) in
        let p = o' s o v roomy w no_wrap more in
        let spent = round-Spent s o v roomy w no_wrap more e in
        let syn = (round-after s o v roomy w no_wrap more e).1 in
        subst (λ r. OnReturn K (r >>= λ (s', o'). push_loop fuel s' o'))
          (sym (round s o v roomy w no_wrap more))
          (OnReturn-weaken (λ (s', o'). Spent t p s' o' × (s'.syn ≡ t.syn)) K (push_loop fuel t p)
            (λ (s', o') (a, b). (omega (arith, a, spent), b ∙ syn))
            (push_loop-Spent fuel t p one.sending one.roomy one.valid
              (omega (arith, one.next, one.window)) (round-last s o v roomy w no_wrap more e))))
      (λ _. (omega arith, refl))
  where
    before_fin : may_send s o ≡ true → (s.fin ≡ false) ⊎ (may_send s o ≡ false) → s.fin ≡ false
    before_fin more (inl e) = e
    before_fin more (inr stop) = absurd (cc (more, stop))
