-- ===== src/TcpSender/Ack.antt =====
-- What an acknowledgment takes off the queue.
use os_stream_socket.Base.{
  ℕ, zero, suc, ◌+◌, ◌-◌, ◌^◌, ◌≤◌, ◌<◌, ◌≡◌, ◌⊎◌, refl, ap, sym, ◌∙◌, List, [], ◌∷◌, true, false,
  ◌&&◌, take, drop, arith, leb, add64, sub64, subst, Bool-cases, inl, inr, some,
}
use mathlib.Core.Path.{subst₂, subst₃}
use os_stream_socket.WrappingIntegers.{Wrap32, IsWord, wrap, unwrap, absolute_delta}
use os_stream_socket.WrappingIntegers.Unwrap.{unwrap-wrap}
use os_stream_socket.TcpMessages.{TcpSenderMessage, sequence_length}
use os_stream_socket.TcpSender.{
  TcpSender, count_acked, is_valid_ack, drop_acked, take_window, receive_ack, receive,
}
use os_stream_socket.TcpSender.Invariant.{total, IsSending, IsNumbered}

-- The first message that is left ends beyond `n`.
abbrev pub EndsBeyond : ℕ → ℕ → List TcpSenderMessage → Type 0
EndsBeyond n a [] = Unit {0}
EndsBeyond n a (m ∷ ms) = n < a + sequence_length m

-- Of messages numbered from `a` on, `idx` at the front are acknowledged by `n`: all that end at `n`
-- or before it; `rest` is in flight without them.
pub record Counted (isn : Wrap32) (a n : ℕ) (ms : List TcpSenderMessage) (flight idx rest : ℕ)
    : Type 0 where
  pub cut : total (take idx ms) + total (drop idx ms) ≡ total ms
  pub flying : rest + total (take idx ms) ≡ flight
  pub numbered : IsNumbered isn (a + total (take idx ms)) (drop idx ms)
  pub through : (idx ≡ 0) ⊎ (a + total (take idx ms) ≤ n)
  pub beyond : EndsBeyond n (a + total (take idx ms)) (drop idx ms)

stop-Counted :
    (isn : Wrap32) (a n : ℕ) (ms : List TcpSenderMessage) (flight : ℕ)
    → IsNumbered isn a ms
    → EndsBeyond n a ms
    → Counted isn a n ms flight 0 flight
unfolding total
stop-Counted isn a n ms flight h beyond =
    let e : a + 0 ≡ a = omega arith in
    record {
      cut = omega arith;
      flying = omega arith;
      numbered = rw e h;
      through = inl refl;
      beyond = rw e beyond;
    }

next-Counted :
    (isn : Wrap32) (a n : ℕ) (m : TcpSenderMessage) (ms : List TcpSenderMessage)
    (flight idx rest : ℕ)
    → a + sequence_length m ≤ n
    → sequence_length m ≤ flight
    → Counted isn (a + sequence_length m) n ms (flight - sequence_length m) idx rest
    → Counted isn a n (m ∷ ms) flight (suc idx) rest
unfolding total
next-Counted isn a n m ms flight idx rest acked fits c =
    let k = total (take idx ms) in
    let e : a + (sequence_length m + k) ≡ a + sequence_length m + k = omega arith in
    record {
      cut = omega (arith, c.cut);
      flying = omega (arith, c.flying);
      numbered = rw e c.numbered;
      through = inr (reach c.through);
      beyond = rw e c.beyond;
    }
  where
    reach :
        (idx ≡ 0) ⊎ (a + sequence_length m + total (take idx ms) ≤ n)
        → a + (sequence_length m + total (take idx ms)) ≤ n
    reach (inl z) = let t : total (take idx ms) ≡ 0 = rw z refl in omega (arith, t)
    reach (inr h) = omega arith

place :
    (isn : Wrap32) (a next : ℕ) (m : TcpSenderMessage)
    → IsWord isn
    → m.seqno ≡ wrap a isn
    → a ≤ next
    → next < 2 ^ 64
    → next < a + 2 ^ 31
    → unwrap m.seqno isn next ≡ a
place isn a next m word e le w near =
    ap (λ q. unwrap q isn next) e ∙ unwrap-wrap a isn next word (omega arith) w (ground arith)

count_acked-Counted :
    (isn : Wrap32) (a n next : ℕ) (ms : List TcpSenderMessage) (flight : ℕ)
    → IsWord isn
    → IsNumbered isn a ms
    → a + total ms ≡ next
    → total ms ≤ flight
    → flight < 2 ^ 31
    → next < 2 ^ 64
    → next < a + 2 ^ 31
    → Counted isn a n ms flight
        (count_acked n isn next ms flight).0
        (count_acked n isn next ms flight).1
unfolding count_acked total
count_acked-Counted isn a n next [] flight word h e fits small w near =
    stop-Counted isn a n [] flight tt tt
count_acked-Counted isn a n next (m ∷ ms) flight word h e fits small w near =
    let len = sequence_length m in
    let at = place isn a next m word h.0 (omega arith) w near in
    let sub : sub64 flight len ≡ flight - len = omega arith in
    let sum : add64 a len ≡ a + len = omega arith in
    let rest =
      count_acked-Counted isn (a + len) n next ms (flight - len) word h.2 (omega arith)
        (omega arith) (omega arith) w (omega arith) in
    rw (at, sub, sum)
      (elim (Bool-cases (leb (a + len) n)) [
        | inl acked ↦
            rw acked (next-Counted isn a n m ms flight _ _ (ground arith) (omega arith) rest)
        | inr left ↦ rw left (stop-Counted isn a n (m ∷ ms) flight h (ground arith))
      ])

-- What a call of `receive` with the acknowledgment of everything before `n` leaves behind.
pub record Acknowledged (n window : ℕ) (s s' : TcpSender) : Type 0 where
  pub sending : IsSending s'
  pub next : s'.next_abs_seqno ≡ s.next_abs_seqno
  pub idx : ℕ
  pub left : s'.outstanding_messages ≡ drop idx s.outstanding_messages
  pub through : (idx ≡ 0) ⊎ (s'.next_abs_seqno - s'.sequence_numbers_in_flight ≤ n)
  pub beyond :
      EndsBeyond n (s'.next_abs_seqno - s'.sequence_numbers_in_flight) s'.outstanding_messages
  pub size : s'.receiver_window_size ≡ window
  pub room : s'.receiver_window_space ≡ window - s'.sequence_numbers_in_flight
  pub timer :
      ((idx ≡ 0)
        × (s'.time_elapsed ≡ s.time_elapsed)
        × (s'.retransmission_timeout ≡ s.retransmission_timeout)
        × (s'.consecutive_retransmissions ≡ s.consecutive_retransmissions))
      ⊎ ((0 < idx)
          × (s'.time_elapsed ≡ 0)
          × (s'.retransmission_timeout ≡ s.initial_rto_ms)
          × (s'.consecutive_retransmissions ≡ 0))

-- Is `n` the number of a byte in flight, or the next one?
abbrev pub InFlight : ℕ → TcpSender → Type 0
InFlight n s = (s.next_abs_seqno - s.sequence_numbers_in_flight ≤ n) × (n ≤ s.next_abs_seqno)

valid-InFlight :
    (n : ℕ) (s : TcpSender)
    → IsSending s
    → s.sequence_numbers_in_flight < 2 ^ 31
    → InFlight n s
    → is_valid_ack n s ≡ true
unfolding is_valid_ack
valid-InFlight n s v small h = by_queue s.outstanding_messages v.numbered
  where
    by_queue :
        (ms : List TcpSenderMessage)
        → IsNumbered s.isn (s.next_abs_seqno - s.sequence_numbers_in_flight) ms
        → (leb n s.next_abs_seqno
            && (elim ms [ [] ↦ true | m ∷ rest ↦ leb (unwrap m.seqno s.isn s.next_abs_seqno) n ]))
          ≡ true
    by_queue [] k = ground arith
    by_queue (m ∷ ms) k =
        rw
          (place s.isn _ s.next_abs_seqno m v.word k.0 (omega arith) v.next_word
            (omega (arith, v.behind)))
          (ground arith)

-- The state that a valid acknowledgment leads to.
acked : ℕ → ℕ → ℕ → TcpSender → TcpSender
unfolding drop_acked take_window
acked idx rest window s = take_window window (drop_acked idx rest s)

acked_fields :
    (idx rest window : ℕ) (s : TcpSender)
    → let s' = acked idx rest window s in
      (s'.isn ≡ s.isn)
      × (s'.next_abs_seqno ≡ s.next_abs_seqno)
      × (s'.sequence_numbers_in_flight ≡ rest)
      × (s'.outstanding_messages ≡ drop idx s.outstanding_messages)
      × (s'.receiver_window_size ≡ window)
      × (s'.receiver_window_space ≡ window - rest)
unfolding acked
acked_fields zero rest window s = ground arith
acked_fields (suc idx) rest window s = ground arith

acked_timer :
    (idx rest window : ℕ) (s : TcpSender)
    → let s' = acked idx rest window s in
      ((idx ≡ 0)
        × (s'.time_elapsed ≡ s.time_elapsed)
        × (s'.retransmission_timeout ≡ s.retransmission_timeout)
        × (s'.consecutive_retransmissions ≡ s.consecutive_retransmissions))
      ⊎ ((0 < idx)
          × (s'.time_elapsed ≡ 0)
          × (s'.retransmission_timeout ≡ s.initial_rto_ms)
          × (s'.consecutive_retransmissions ≡ 0))
unfolding acked
acked_timer zero rest window s = inl (refl, refl, refl, refl)
acked_timer (suc idx) rest window s = inr (omega arith, ground arith, ground arith, ground arith)

acked-Acknowledged :
    (n idx rest window : ℕ) (s : TcpSender)
    → IsSending s
    → window < 2 ^ 16
    → Counted s.isn
        (s.next_abs_seqno - s.sequence_numbers_in_flight)
        n
        s.outstanding_messages
        s.sequence_numbers_in_flight
        idx
        rest
    → Acknowledged n window s (acked idx rest window s)
acked-Acknowledged n idx rest window s v w c =
    let s' = acked idx rest window s in
    let (isn, next, flight, queue, size, space) = acked_fields idx rest window s in
    let base : s'.next_abs_seqno - s'.sequence_numbers_in_flight
        ≡ s.next_abs_seqno
          - s.sequence_numbers_in_flight
          + total (take idx s.outstanding_messages) =
      omega (arith, c.flying, v.behind, next, flight) in
    record {
      sending = record {
        word = subst IsWord (sym isn) v.word;
        counted = flight ∙ omega (arith, c.cut, c.flying, v.counted) ∙ ap total (sym queue);
        behind = omega (arith, flight, next, c.flying, v.behind);
        next_word = omega (arith, next, v.next_word);
        numbered = subst₃ (λ k a l. IsNumbered k a l) (sym isn) (sym base) (sym queue) c.numbered;
        space = inl (omega (arith, size, space));
        size_word = omega (arith, size);
      };
      next = next;
      idx = idx;
      left = queue;
      through = reach base c.through;
      beyond = subst₂ (λ a l. EndsBeyond n a l) (sym base) (sym queue) c.beyond;
      size = size;
      room = space ∙ omega (arith, flight);
      timer = acked_timer idx rest window s;
    }
  where
    reach :
        {b : ℕ}
        → b
          ≡ s.next_abs_seqno
            - s.sequence_numbers_in_flight
            + total (take idx s.outstanding_messages)
        → (idx ≡ 0)
          ⊎ (s.next_abs_seqno
                - s.sequence_numbers_in_flight
                + total (take idx s.outstanding_messages)
              ≤ n)
        → (idx ≡ 0) ⊎ (b ≤ n)
    reach e (inl z) = inl z
    reach e (inr h) = inr (omega arith)

stale_ack :
    (n : ℕ) (s : TcpSender)
    → IsSending s
    → s.sequence_numbers_in_flight < 2 ^ 31
    → (s.next_abs_seqno < n)
      ⊎ (n < s.next_abs_seqno - s.sequence_numbers_in_flight × (0 < s.sequence_numbers_in_flight))
    → is_valid_ack n s ≡ false
unfolding is_valid_ack
stale_ack n s v small h = by_queue s.outstanding_messages v.numbered v.counted
  where
    by_queue :
        (ms : List TcpSenderMessage)
        → IsNumbered s.isn (s.next_abs_seqno - s.sequence_numbers_in_flight) ms
        → s.sequence_numbers_in_flight ≡ total ms
        → (leb n s.next_abs_seqno
            && (elim ms [ [] ↦ true | m ∷ rest ↦ leb (unwrap m.seqno s.isn s.next_abs_seqno) n ]))
          ≡ false
    by_queue [] k e = let e' : s.sequence_numbers_in_flight ≡ 0 = unfold total in e in ground arith
    by_queue (m ∷ ms) k e =
        rw
          (place s.isn _ s.next_abs_seqno m v.word k.0 (omega arith) v.next_word
            (omega (arith, v.behind)))
          (ground arith)

receive_at :
    (n : ℕ) (ackno : Wrap32) (window : ℕ) (s : TcpSender)
    → unwrap ackno s.isn s.next_abs_seqno ≡ n
    → receive (record { ackno = some ackno; window_size = window }) s ≡ receive_ack n window s
unfolding receive
receive_at n ackno window s e = ap (λ k. receive_ack k window s) e

-- On a sender that satisfies the invariant with less than 2 ^ 31 numbers in flight, for a 64-bit
-- number less than 2 ^ 31 away from the next one and a 16-bit window: an acknowledgment of a
-- number in flight, or of the next one, takes from the front of the queue exactly the messages
-- that end at it or before it. What stays is numbered and counted as before, the window is the one
-- announced less what is in flight; and if a message is taken, the timer and the count of
-- retransmissions start anew, and else both stay as they are. One of a number not sent yet, or of
-- one acknowledged before while something is in flight, changes nothing.
pub receive-Acknowledged :
    (n window : ℕ) (s : TcpSender)
    → IsSending s
    → s.sequence_numbers_in_flight < 2 ^ 31
    → n < 2 ^ 64
    → absolute_delta s.next_abs_seqno n < 2 ^ 31
    → window < 2 ^ 16
    → let s' = receive (record { ackno = some (wrap n s.isn); window_size = window }) s in
      (InFlight n s → Acknowledged n window s s')
      × ((s.next_abs_seqno < n)
            ⊎ (n < s.next_abs_seqno - s.sequence_numbers_in_flight
                × (0 < s.sequence_numbers_in_flight))
          → s' ≡ s)
unfolding receive_ack
receive-Acknowledged n window s v small word near w =
    let at = unwrap-wrap n s.isn s.next_abs_seqno v.word word v.next_word near in
    let c =
      count_acked-Counted s.isn (s.next_abs_seqno - s.sequence_numbers_in_flight) n s.next_abs_seqno
        s.outstanding_messages s.sequence_numbers_in_flight v.word v.numbered
        (omega (arith, v.counted, v.behind)) (omega (arith, v.counted)) small v.next_word
        (omega (arith, v.behind)) in
    rw (receive_at n (wrap n s.isn) window s at) (
      (λ h.
          rw (valid-InFlight n s v small h)
            (unfold acked in acked-Acknowledged n _ _ window s v w c)),
      (λ h. rw (stale_ack n s v small h) refl),
    )
