-- ===== src/TcpSender/Invariant.antt =====
-- What the sender's queues and counters have to do with one another.
use os_stream_socket.Base.{
  ℕ, ◌+◌, ◌-◌, ◌^◌, ◌≤◌, ◌<◌, ◌≡◌, ◌⊎◌, refl, ap, sym, ◌∙◌, List, [], ◌∷◌, ◌++◌, append_assoc, true,
  false, arith, if◌then◌else◌, subst, Bool-cases, inl, inr,
}
use os_stream_socket.WrappingIntegers.{Wrap32, IsWord, wrap}
use os_stream_socket.TcpMessages.{TcpSenderMessage, sequence_length}
use os_stream_socket.TcpSender.{TcpSender, send_segment, open_window, window_shut}

unfoldable pub total : List TcpSenderMessage → ℕ
total [] = 0
total (m ∷ ms) = sequence_length m + total ms

unfoldable pub payloads : List TcpSenderMessage → List ℕ
payloads [] = []
payloads (m ∷ ms) = m.payload ++ payloads ms

-- The messages number the stream without a gap from the absolute number `a` on, and none is empty.
abbrev pub IsNumbered : Wrap32 → ℕ → List TcpSenderMessage → Type 0
IsNumbered isn a [] = Unit {0}
IsNumbered isn a (m ∷ ms) =
    (m.seqno ≡ wrap a isn) × (0 < sequence_length m) × IsNumbered isn (a + sequence_length m) ms

pub total-append : (xs ys : List TcpSenderMessage) → total (xs ++ ys) ≡ total xs + total ys
unfolding total
total-append [] ys = omega arith
total-append (m ∷ xs) ys = omega (arith, total-append xs ys)

pub payloads-append :
    (xs ys : List TcpSenderMessage) → payloads (xs ++ ys) ≡ payloads xs ++ payloads ys
unfolding payloads
payloads-append [] ys = refl
payloads-append (m ∷ xs) ys =
    ap (◌++◌ m.payload) (payloads-append xs ys)
    ∙ sym (append_assoc m.payload (payloads xs) (payloads ys))

pub IsNumbered-append_one :
    (isn : Wrap32) (a b : ℕ) (ms : List TcpSenderMessage) (m : TcpSenderMessage)
    → IsNumbered isn a ms
    → a + total ms ≡ b
    → m.seqno ≡ wrap b isn
    → 0 < sequence_length m
    → IsNumbered isn a (ms ++ m ∷ [])
unfolding total
IsNumbered-append_one isn a b [] m h e q pos = (q ∙ ap (λ k. wrap k isn) (omega arith), pos, tt)
IsNumbered-append_one isn a b (x ∷ ms) m h e q pos =
    (h.0, h.1, IsNumbered-append_one isn (a + sequence_length x) b ms m h.2 (omega arith) q pos)

-- The room left in the window is no more than the window.
abbrev pub IsRoomy : TcpSender → Type 0
IsRoomy s = s.receiver_window_space ≤ s.receiver_window_size

-- The messages in flight end at the next number, and `sequence_numbers_in_flight` counts them. Once
-- the FIN is sent nothing is said of the room: a FIN into a shut window makes it wrap.
pub record IsSending (s : TcpSender) : Type 0 where
  pub word : IsWord s.isn
  pub counted : s.sequence_numbers_in_flight ≡ total s.outstanding_messages
  pub behind : s.sequence_numbers_in_flight ≤ s.next_abs_seqno
  pub next_word : s.next_abs_seqno < 2 ^ 64
  pub numbered :
      IsNumbered s.isn (s.next_abs_seqno - s.sequence_numbers_in_flight) s.outstanding_messages
  pub space : IsRoomy s ⊎ (s.fin ≡ true)
  pub size_word : s.receiver_window_size < 2 ^ 16

-- How many sequence numbers the window lets through: a shut window lets one through.
abbrev pub allowance : TcpSender → ℕ
allowance s = if window_shut s then 1 else s.receiver_window_space

-- A state to which one more message has come keeps the invariant.
pub extended-IsSending :
    (m : TcpSenderMessage) (s t : TcpSender)
    → IsSending s
    → m.seqno ≡ wrap s.next_abs_seqno s.isn
    → 0 < sequence_length m
    → s.next_abs_seqno + sequence_length m < 2 ^ 64
    → t.isn ≡ s.isn
    → t.outstanding_messages ≡ s.outstanding_messages ++ m ∷ []
    → t.next_abs_seqno ≡ s.next_abs_seqno + sequence_length m
    → t.sequence_numbers_in_flight ≡ s.sequence_numbers_in_flight + sequence_length m
    → IsRoomy t ⊎ (t.fin ≡ true)
    → t.receiver_window_size < 2 ^ 16
    → IsSending t
extended-IsSending m s t v seqno pos no_wrap isn queued next flight room size =
    let b = s.next_abs_seqno - s.sequence_numbers_in_flight in
    let first : t.next_abs_seqno - t.sequence_numbers_in_flight ≡ b =
      omega (arith, v.behind, next, flight) in
    let whole : IsNumbered s.isn b (s.outstanding_messages ++ m ∷ []) =
      IsNumbered-append_one s.isn b s.next_abs_seqno s.outstanding_messages m v.numbered
        (omega (arith, v.counted, v.behind)) seqno pos in
    record {
      word = subst IsWord (sym isn) v.word;
      counted =
          flight
          ∙ (let e : s.sequence_numbers_in_flight + sequence_length m
                  ≡ total (s.outstanding_messages ++ m ∷ []) =
                unfold total in
                omega (arith, v.counted, total-append s.outstanding_messages (m ∷ [])) in
              e)
          ∙ ap total (sym queued);
      behind = omega (arith, v.behind, next, flight);
      next_word = omega (arith, next);
      numbered =
          subst (λ l. IsNumbered t.isn (t.next_abs_seqno - t.sequence_numbers_in_flight) l)
            (sym queued)
            (subst (λ a. IsNumbered t.isn a (s.outstanding_messages ++ m ∷ [])) (sym first)
              (subst (λ k. IsNumbered k b (s.outstanding_messages ++ m ∷ [])) (sym isn) whole));
      space = room;
      size_word = size;
    }

pub send_any-IsSending :
    (m : TcpSenderMessage) (s : TcpSender)
    → IsSending s
    → m.seqno ≡ wrap s.next_abs_seqno s.isn
    → 0 < sequence_length m
    → s.next_abs_seqno + sequence_length m < 2 ^ 64
    → IsRoomy (send_segment m s) ⊎ ((send_segment m s).fin ≡ true)
    → IsSending (send_segment m s)
send_any-IsSending m s v seqno pos no_wrap room =
    extended-IsSending m s (send_segment m s) v seqno pos no_wrap (unfold send_segment in refl)
      (unfold send_segment in refl) (unfold send_segment in omega arith)
      (unfold send_segment in omega (arith, v.behind)) room (unfold send_segment in v.size_word)

pub send_segment-IsSending :
    (m : TcpSenderMessage) (s : TcpSender)
    → IsSending s
    → IsRoomy s
    → m.seqno ≡ wrap s.next_abs_seqno s.isn
    → 0 < sequence_length m
    → sequence_length m ≤ s.receiver_window_space
    → s.next_abs_seqno + sequence_length m < 2 ^ 64
    → IsSending (send_segment m s)
send_segment-IsSending m s v roomy seqno pos fits no_wrap =
    send_any-IsSending m s v seqno pos no_wrap
      (inl (unfold send_segment in omega (arith, roomy, v.size_word)))

pub record Opened (s s' : TcpSender) : Type 0 where
  pub sending : IsSending s'
  pub roomy : IsRoomy s'
  pub ajar : window_shut s' ≡ false
  pub space : s'.receiver_window_space ≡ allowance s
  pub isn : s'.isn ≡ s.isn
  pub next : s'.next_abs_seqno ≡ s.next_abs_seqno
  pub send : s'.send_messages ≡ s.send_messages
  pub outstanding : s'.outstanding_messages ≡ s.outstanding_messages

opened : TcpSender → TcpSender
opened s = record s { receiver_window_size = 1; receiver_window_space = 1; free_window = true }

opened-IsSending : (s : TcpSender) → IsSending s → IsSending (opened s)
unfolding opened
opened-IsSending s v = record {
  word = v.word;
  counted = v.counted;
  behind = v.behind;
  next_word = v.next_word;
  numbered = v.numbered;
  space = inl (omega arith);
  size_word = omega arith;
}

open_window_shut : (s : TcpSender) → window_shut s ≡ true → open_window s ≡ opened s
unfolding open_window opened
open_window_shut s e = ground arith

open_window_ajar : (s : TcpSender) → window_shut s ≡ false → open_window s ≡ s
unfolding open_window opened
open_window_ajar s e = ground arith

pub open_window-Opened : (s : TcpSender) → IsSending s → IsRoomy s → Opened s (open_window s)
open_window-Opened s v roomy = elim (Bool-cases (window_shut s)) [
  | inl e ↦ rw (open_window_shut s e) (record {
    sending = opened-IsSending s v;
    roomy = unfold opened in omega arith;
    ajar = unfold window_shut opened in refl;
    space = rw e (unfold opened in refl);
    isn = unfold opened in refl;
    next = unfold opened in refl;
    send = unfold opened in refl;
    outstanding = unfold opened in refl;
  })
  | inr e ↦ rw (open_window_ajar s e) (record {
    sending = v;
    roomy = roomy;
    ajar = e;
    space = rw e refl;
    isn = refl;
    next = refl;
    send = refl;
    outstanding = refl;
  })
]
