-- ===== src/TcpSender/Timer.antt =====
-- The retransmission timer.
use native.Mathlib.Nat.{pow-suc, mul_assoc}
use os_stream_socket.Base.{
  ℕ, ◌+◌, ◌*◌, ◌%◌, ◌^◌, ◌≤◌, ◌<◌, ◌≡◌, ◌⊎◌, List, [], ◌∷◌, ◌++◌, true, false, arith, suc,
  replicate, Bool-cases, leb, inl, inr, refl, sym, ap, ◌∙◌, append_assoc, append-nil,
}
use os_stream_socket.TcpMessages.{TcpSenderMessage}
use os_stream_socket.TcpSender.{TcpSender, tick}

-- What time does to a sender whose oldest outstanding message is `m`.
record Ticked (ms : ℕ) (m : TcpSenderMessage) (s s' : TcpSender) : Type 0 where
  queue : s'.outstanding_messages ≡ s.outstanding_messages
  flight : s'.sequence_numbers_in_flight ≡ s.sequence_numbers_in_flight
  window : s'.receiver_window_size ≡ s.receiver_window_size
  free : s'.free_window ≡ s.free_window
  waits :
      s.time_elapsed + ms < s.retransmission_timeout
      → (s'.send_messages ≡ s.send_messages)
        × (s'.time_elapsed ≡ s.time_elapsed + ms)
        × (s'.retransmission_timeout ≡ s.retransmission_timeout)
  uncounted :
      s.time_elapsed + ms < s.retransmission_timeout
      → s'.consecutive_retransmissions ≡ s.consecutive_retransmissions
  expires :
      s.retransmission_timeout ≤ s.time_elapsed + ms
      → (s'.send_messages ≡ s.send_messages ++ m ∷ []) × (s'.time_elapsed ≡ 0)
  backs_off :
      s.retransmission_timeout ≤ s.time_elapsed + ms
      → (0 < s.receiver_window_size) ⊎ (m.syn ≡ true)
      → s.free_window ≡ false
      → (s'.retransmission_timeout ≡ 2 * s.retransmission_timeout % 2 ^ 64)
        × (s'.consecutive_retransmissions ≡ (s.consecutive_retransmissions + 1) % 2 ^ 64)
  probes :
      s.retransmission_timeout ≤ s.time_elapsed + ms
      → (s.free_window ≡ true) ⊎ ((s.receiver_window_size ≡ 0) × (m.syn ≡ false))
      → (s'.retransmission_timeout ≡ s.retransmission_timeout)
        × (s'.consecutive_retransmissions ≡ s.consecutive_retransmissions)

tick_lem :
    (t : ℕ) (s : TcpSender) (m : TcpSenderMessage) (ms : List TcpSenderMessage)
    → s.outstanding_messages ≡ m ∷ ms
    → s.time_elapsed + t < 2 ^ 64
    → Ticked t m s (tick t s)
unfolding tick
tick_lem t s m ms e no_wrap = record {
  queue = ground (arith, e);
  flight = ground (arith, e);
  window = ground (arith, e);
  free = ground (arith, e);
  waits = λ h. ground (arith, e);
  uncounted = λ h. ground (arith, e);
  expires = λ h. ground (arith, e);
  backs_off = λ h k f. ground (arith, e);
  probes = λ h k. ground (arith, e);
}

abbrev pub ticks : List ℕ → TcpSender → TcpSender
ticks [] s = s
ticks (t ∷ ts) s = ticks ts (tick t s)

abbrev pub time : List ℕ → ℕ
time [] = 0
time (t ∷ ts) = t + time ts

leb-cases : (a b : ℕ) → (a ≤ b) ⊎ (b < a)
leb-cases a b = elim (Bool-cases (leb a b)) [
  | inl h ↦ inl (ground arith)
  | inr h ↦ inr (ground arith)
]

-- What a time of `t` does, if `m` is the oldest message in flight and was sent again `k` times.
pub record BackedOff (t k : ℕ) (m : TcpSenderMessage) (s s' : TcpSender) : Type 0 where
  pub queue : s'.outstanding_messages ≡ s.outstanding_messages
  pub sent : s'.send_messages ≡ s.send_messages ++ replicate k m
  pub timeout : s'.retransmission_timeout ≡ 2 ^ k * s.retransmission_timeout
  pub counted : s'.consecutive_retransmissions ≡ (s.consecutive_retransmissions + k) % 2 ^ 64
  pub spent :
      s'.retransmission_timeout + s'.time_elapsed ≤ s.retransmission_timeout + s.time_elapsed + t
  pub running : s'.time_elapsed < s'.retransmission_timeout

double : (k n : ℕ) → 2 ^ suc k * n ≡ 2 ^ k * (2 * n)
double k n = ap (λ c. c * n) (pow-suc 2 k) ∙ mul_assoc (2 ^ k) 2 n

waits-BackedOff :
    (t u k : ℕ) (m : TcpSenderMessage) (s s' s'' : TcpSender)
    → Ticked t m s s'
    → s.time_elapsed + t < s.retransmission_timeout
    → s'.consecutive_retransmissions ≡ s.consecutive_retransmissions
    → BackedOff u k m s' s''
    → BackedOff (t + u) k m s s''
waits-BackedOff t u k m s s' s'' x early count b =
    let (sent, elapsed, timeout) = x.waits early in
    record {
      queue = b.queue ∙ x.queue;
      sent = b.sent ∙ ap (λ q. q ++ replicate k m) sent;
      timeout = b.timeout ∙ ap (λ n. 2 ^ k * n) timeout;
      counted = b.counted ∙ ap (λ n. (n + k) % 2 ^ 64) count;
      spent = omega (arith, b.spent, elapsed, timeout);
      running = b.running;
    }

expires-BackedOff :
    (t u k : ℕ) (m : TcpSenderMessage) (s s' s'' : TcpSender)
    → Ticked t m s s'
    → s.retransmission_timeout ≤ s.time_elapsed + t
    → s.retransmission_timeout < 2 ^ 63
    → (0 < s.receiver_window_size) ⊎ (m.syn ≡ true)
    → s.free_window ≡ false
    → BackedOff u k m s' s''
    → BackedOff (t + u) (suc k) m s s''
expires-BackedOff t u k m s s' s'' x late small admits bound b =
    let (sent, elapsed) = x.expires late in
    let (timeout, count) = x.backs_off late admits bound in
    let twice : s'.retransmission_timeout ≡ 2 * s.retransmission_timeout = omega (arith, timeout) in
    record {
      queue = b.queue ∙ x.queue;
      sent =
          b.sent
          ∙ ap (λ q. q ++ replicate k m) sent
          ∙ append_assoc s.send_messages (m ∷ []) (replicate k m);
      timeout = b.timeout ∙ ap (λ n. 2 ^ k * n) twice ∙ sym (double k s.retransmission_timeout);
      counted = omega (arith, b.counted, count);
      spent = omega (arith, b.spent, elapsed, twice);
      running = b.running;
    }

-- Let the oldest message in flight be a SYN or the window announced not be 0, let `free_window` be
-- false, the count of retransmissions be a 64-bit number, the clock stand before the timeout, and
-- timeout, clock and the time of the ticks together be below 2 ^ 63 ms. Then after any sequence of
-- ticks that message, and no other, has been sent again some number `k` of times, the timeout is
-- the old one times 2 ^ k, the count of retransmissions has grown by `k` modulo 2 ^ 64, and the
-- queue in flight is as it was; the clock stands before the new timeout, and the two together are
-- at most the old ones and the time passed, so that no retransmission came too early.
pub ticks-BackedOff :
    (ts : List ℕ) (s : TcpSender) (m : TcpSenderMessage) (ms : List TcpSenderMessage)
    → s.outstanding_messages ≡ m ∷ ms
    → (0 < s.receiver_window_size) ⊎ (m.syn ≡ true)
    → s.free_window ≡ false
    → s.consecutive_retransmissions < 2 ^ 64
    → s.time_elapsed < s.retransmission_timeout
    → s.retransmission_timeout + s.time_elapsed + time ts < 2 ^ 63
    → (k : ℕ) × BackedOff (time ts) k m s (ticks ts s)
ticks-BackedOff [] s m ms e admits bound word running small = (
  0,
  record {
    queue = refl;
    sent = sym (append-nil s.send_messages);
    timeout = omega arith;
    counted = omega arith;
    spent = omega arith;
    running = running;
  },
)
ticks-BackedOff (t ∷ ts) s m ms e admits bound word running small =
    let x = tick_lem t s m ms e (omega arith) in
    elim (leb-cases s.retransmission_timeout (s.time_elapsed + t)) [
      | inl late ↦
          let (sent, elapsed) = x.expires late in
          let (timeout, count) = x.backs_off late admits bound in
          let (k, b) =
            ticks-BackedOff ts (tick t s) m ms (x.queue ∙ e) (still x.window admits)
              (x.free ∙ bound) (omega (arith, count)) (omega (arith, elapsed, timeout))
              (omega (arith, elapsed, timeout)) in
          (
            suc k,
            expires-BackedOff t (time ts) k m s (tick t s) _ x late (omega arith) admits bound b,
          )
      | inr early ↦
          let (sent, elapsed, timeout) = x.waits early in
          let count = x.uncounted early in
          let (k, b) =
            ticks-BackedOff ts (tick t s) m ms (x.queue ∙ e) (still x.window admits)
              (x.free ∙ bound) (omega (arith, count)) (omega (arith, elapsed, timeout))
              (omega (arith, elapsed, timeout)) in
          (k, waits-BackedOff t (time ts) k m s (tick t s) _ x early count b)
    ]
  where
    still :
        {n : ℕ}
        → n ≡ s.receiver_window_size
        → (0 < s.receiver_window_size) ⊎ (m.syn ≡ true)
        → (0 < n) ⊎ (m.syn ≡ true)
    still h (inl o) = inl (omega arith)
    still h (inr o) = inr o
