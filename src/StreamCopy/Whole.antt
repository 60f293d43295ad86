-- ===== src/StreamCopy/Whole.antt =====
-- The copy from its start on.
use os_stream_socket.Base.{
  sym, ap, ◌∙◌, append-nil, OnReturn-both, arith, ℕ, ◌≡◌, refl, inl, inr, List, [], ◌∷◌, ◌++◌, All,
  Bool, true, false, Outcome, ok, err, OnReturn, bind-OnReturn, if-OnReturn, OnReturn-true, arith,
}
use os_stream_socket.ByteStream
use os_stream_socket.ByteStream.Invariant.{new-IsValid}
use os_stream_socket.FileDescriptor.{FdWrapper, SystemCall, set_blocking}
use os_stream_socket.EventLoop
use os_stream_socket.EventLoop.{EventLoop, Result, success, timeout, exit, wait_next_event}
use os_stream_socket.EventLoop.Leads.{Led, Ended}
use os_stream_socket.EventLoop.Turns.{Turn, wait_next_event-Turn}
use os_stream_socket.StreamCopy.{
  StreamCopy, Answers, add_rules, new, run, is_exit, bidirectional_stream_copy, buffer_size,
}
use os_stream_socket.StreamCopy
use os_stream_socket.StreamCopy.Rounds.{Copied, IsAnswering, P, R, Q}
use os_stream_socket.StreamCopy.Rules.{
  X, N, input_rule-Leads, socket_out_rule-Leads, socket_in_rule-Leads, output_rule-Leads,
}
use os_stream_socket.EventLoop.{FdRule}
use os_stream_socket.EventLoop.Idle.{Idle, Over, wait_next_event-Over}

abbrev Ran : Bool × EventLoop StreamCopy × StreamCopy → Type 0
Ran (ended, l, c) = Copied c × (ended ≡ true → Idle P N l.fd_rules c)

Ended-Copied : (result : Result) (c : StreamCopy) → Ended X P R Q result c → Copied c
Ended-Copied success c (inl h) = h.0
Ended-Copied success c (inr (k, h)) = h.0
Ended-Copied timeout c h = h.0
Ended-Copied exit c h = h.0

exit-Idle :
    (result : Result) (l : EventLoop StreamCopy) (c : StreamCopy)
    → is_exit result ≡ true
    → Over P N (result, l, c)
    → Idle P N l.fd_rules c
unfolding is_exit
exit-Idle success l c e o = absurd (ground (arith, e))
exit-Idle timeout l c e o = absurd (ground (arith, e))
exit-Idle exit l c e o = o

run-Copied :
    (turns : List StreamCopy.Turn) (l : EventLoop StreamCopy) (c : StreamCopy)
    → Led X P R Q l
    → Copied c
    → All (λ t. IsAnswering t.answers) turns
    → OnReturn Ran (run turns l c)
unfolding run
run-Copied [] l c s h a = (h, λ e. absurd (ground (arith, e)))
run-Copied (t ∷ ts) l c s h (x, a) =
    let c₀ = record c { answers = t.answers } in
    let p : P c₀ =
      (record { outbound = h.outbound; inbound = h.inbound; out = h.out; back = h.back }, x) in
    bind-OnReturn (λ y. Turn X P R Q y × Over P N y) Ran (wait_next_event t.getsockopt t.poll l c₀)
      _
      (OnReturn-both (Turn X P R Q) (Over P N) (wait_next_event t.getsockopt t.poll l c₀)
        (wait_next_event-Turn X P R Q t.getsockopt t.poll l c₀ s p)
        (wait_next_event-Over P N t.getsockopt t.poll R Q l c₀ s p))
      (λ (result, l', c') ((s', e), o).
        if-OnReturn Ran (is_exit result) (ok (true, l', c')) (run ts l' c')
          (λ b. (Ended-Copied result c' e, λ _. exit-Idle result l' c' b o))
          (λ _. run-Copied ts l' c' s' (Ended-Copied result c' e) a))

add_rules-Led :
    (name : ℕ → List ℕ) → OnReturn (Led X P R Q) (add_rules name (EventLoop.new StreamCopy))
unfolding add_rules EventLoop.add_named_rule EventLoop.add_category EventLoop.add_fd_rule
    EventLoop.new
add_rules-Led name = record {
  fd = (input_rule-Leads, (socket_out_rule-Leads, (socket_in_rule-Leads, (output_rule-Leads, tt))));
  non_fd = tt;
}

new-Copied : (i s o : FdWrapper) (a : Answers) → Copied (new i s o a)
unfolding new ByteStream.new
new-Copied i s o a = record {
  outbound = new-IsValid buffer_size (omega arith);
  inbound = new-IsValid buffer_size (omega arith);
  out = refl;
  back = refl;
}

-- If the rule that writes in a direction is still there, all that came in that direction has gone out.
abbrev pub AllOut : StreamCopy → FdRule StreamCopy → Type 0
AllOut c r =
    (r.rule.category_id ≡ 1 → c.sent ≡ c.typed) × (r.rule.category_id ≡ 3 → c.printed ≡ c.received)

-- What a copy leaves, if it returns.
abbrev pub Conserved : Bool × EventLoop StreamCopy × StreamCopy → Type 0
Conserved (ended, l, c) =
    (c.sent ++ c.outbound.stream ≡ c.typed)
    × (c.printed ++ c.inbound.stream ≡ c.received)
    × (ended ≡ true → All (AllOut c) l.fd_rules)

all_out : (xs ys zs : List ℕ) → xs ++ ys ≡ zs → ys ≡ [] → xs ≡ zs
all_out xs ys zs h e = sym (append-nil xs) ∙ ap (λ l. xs ++ l) (sym e) ∙ h

Idle-AllOut :
    (rules : List (FdRule StreamCopy)) (c : StreamCopy)
    → Copied c
    → Idle P N rules c
    → All (AllOut c) rules
Idle-AllOut [] c h idle = tt
Idle-AllOut (r ∷ rs) c h ((out, back), idle) = (
  (
    (λ e. all_out c.sent c.outbound.stream c.typed h.out (out e)),
    λ e. all_out c.printed c.inbound.stream c.received h.back (back e),
  ),
  Idle-AllOut rs c h idle,
)

on_run :
    (m : Outcome (Bool × EventLoop StreamCopy × StreamCopy)) → OnReturn Ran m → OnReturn Conserved m
on_run (ok (ended, l, c)) (h, idle) = (h.out, h.back, λ e. Idle-AllOut l.fd_rules c h (idle e))
on_run (err fault) h = tt

-- Whatever the turns of the loop bring, if no read on a non-blocking descriptor asks to be
-- repeated: when the copy returns, at the end of the turns or of the loop, the bytes that the
-- socket has taken followed by those buffered are the bytes read from the terminal, and the bytes
-- that the terminal has taken followed by those buffered are the bytes read from the socket, in
-- order. If the loop has ended, then for each direction whose writing rule has not been cancelled
-- all that was read has been written.
pub bidirectional_stream_copy-Conserved :
    (get : ℕ → SystemCall ℕ) (set : ℕ → ℕ → SystemCall ℕ) (name : ℕ → List ℕ) (i s o : FdWrapper)
    (answers : Answers) (turns : List StreamCopy.Turn)
    → All (λ t. IsAnswering t.answers) turns
    → OnReturn Conserved (bidirectional_stream_copy get set name i s o answers turns)
unfolding bidirectional_stream_copy
bidirectional_stream_copy-Conserved get set name i s o answers turns a =
    bind-OnReturn (λ _. Unit {0}) Conserved (set_blocking false (get s.fd) (set s.fd) s) _
      (OnReturn-true _)
      (λ s' _.
        bind-OnReturn (λ _. Unit {0}) Conserved (set_blocking false (get i.fd) (set i.fd) i) _
          (OnReturn-true _)
          (λ i' _.
            bind-OnReturn (λ _. Unit {0}) Conserved (set_blocking false (get o.fd) (set o.fd) o) _
              (OnReturn-true _)
              (λ o' _.
                bind-OnReturn (Led X P R Q) Conserved (add_rules name (EventLoop.new StreamCopy)) _
                  (add_rules-Led name)
                  (λ l led. on_run (run turns l (new i' s' o' answers)) (
                    run-Copied turns l (new i' s' o' answers) led (new-Copied i' s' o' answers)
                      a)))))
