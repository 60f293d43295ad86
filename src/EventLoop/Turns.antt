-- ===== src/EventLoop/Turns.antt =====
-- What one call of `wait_next_event` does to the world: clean-up, and the callback of one rule at most.
use os_stream_socket.Base.{
  arith, ℕ, suc, ◌≡◌, subst, sym, inl, inr, List, [], ◌∷◌, All, Bool, true, false, not, ◌==◌,
  if◌then◌else◌, ok, OnReturn, bind-OnReturn, if-OnReturn, OnReturn-true, ◌>>=◌, Bool-cases,
}
use os_stream_socket.FileDescriptor.{SystemCall}
use os_stream_socket.EventLoop.Rows.{rows, rules_of-rows, dispatch-set_up, set_up-length}
use os_stream_socket.EventLoop.{
  has_events, poll_fd, EventLoop, Result, success, timeout, exit, BasicRule, FdRule, PollFd,
  Revents, dispatch, set_up, is_over, check_call, serve_loop, serve_non_fd, poll_rules,
  wait_next_event,
}
use os_stream_socket.EventLoop.Leads.{
  Leads, Repeats, Led, Ended, Left, serve_loop-first, dispatch_rows-Left, Asked, Upkept,
}

-- `X`, `P`, `R` and `Q` as for a rule's turn.
module _ {World : Type 0} (X : FdRule World → Type 0) (P : World → Type 0)
    (R Q : ℕ → World → Type 0) where
  poll_fd-Asked :
      (r : FdRule World) (w : World)
      → has_events (poll_fd r w).events ≡ true
      → r.rule.interest w ≡ true
  unfolding poll_fd has_events
  poll_fd-Asked r w e = elim (Bool-cases (r.rule.interest w)) [
    | inl i ↦ i
    | inr i ↦ absurd (ground (arith, e, i))
  ]

  -- Every rule that stays and whose pollfd asks for something has been asked.
  set_up-Upkept :
      (rs : List (FdRule World)) (w : World)
      → All (Leads X P R Q) rs
      → P w
      → All (Leads X P R Q) (set_up rs w).0
        × Upkept X P R Q w (set_up rs w).2
        × ((idx : ℕ) (revents : ℕ → Revents)
            → All
                (Asked X P R Q (set_up rs w).2)
                (rows idx (set_up rs w).1 revents (set_up rs w).0))
  unfolding set_up rows
  set_up-Upkept [] w a h = (tt, (h, λ _ x. x), λ idx revents. tt)
  set_up-Upkept (r ∷ rs) w (s, a) h = elim (Bool-cases r.rule.cancel_requested) [
    | inl e ↦ simp e (set_up-Upkept rs w a h)
    | inr e ↦ elim (Bool-cases (is_over r w)) [
      | inl o ↦
          let u = s.ends w h in
          let (a', u', asked) = set_up-Upkept rs (r.cancel w) a u.0 in
          simp (e, o) (a', (u'.0, λ c x. u'.1 c (u.1 c x)), asked)
      | inr o ↦
          let (a', u', asked) = set_up-Upkept rs w a h in
          simp (e, o)
            (
              (s, a'),
              u',
              λ idx revents. (
                (λ i. u'.1 r.rule.category_id (s.asked w h (poll_fd-Asked r w i))),
                asked (suc idx) revents,
              ),
            )
    ]
  ]

  -- What the loop over the rules without a descriptor leaves.
  abbrev pub Fired : Bool × List (BasicRule World) × World → Type 0
  Fired (true, rules, w) = All (Repeats X P R Q) rules × ((c : ℕ) × Q c w)
  Fired (false, rules, w) = All (Repeats X P R Q) rules × P w

  Fired-cons :
      (r : BasicRule World) (x : Bool × List (BasicRule World) × World)
      → Repeats X P R Q r
      → Fired x
      → Fired (x.0, r ∷ x.1, x.2)
  Fired-cons r (true, rules, w) s (a, q) = ((s, a), q)
  Fired-cons r (false, rules, w) s (a, q) = ((s, a), q)

  pub serve_non_fd-Fired :
      (rs : List (BasicRule World)) (w : World)
      → All (Repeats X P R Q) rs
      → P w
      → OnReturn Fired (serve_non_fd rs w)
  unfolding serve_non_fd
  serve_non_fd-Fired [] w a h = (tt, h)
  serve_non_fd-Fired (r ∷ rs) w (s, a) h =
      let rest = serve_non_fd-Fired rs w a h in
      if-OnReturn Fired r.cancel_requested (serve_non_fd rs w) _ (λ _. rest)
        (λ _.
          if-OnReturn Fired (r.interest w) (serve_loop 128 r w >>= λ w'. ok (true, r ∷ rs, w')) _
            (λ e.
              bind-OnReturn (Q r.category_id) Fired (serve_loop 128 r w)
                (λ w'. ok (true, r ∷ rs, w')) (serve_loop-first X P R Q 127 r w s h e)
                (λ w' q. ((s, a), (r.category_id, q))))
            (λ _.
              bind-OnReturn Fired Fired (serve_non_fd rs w)
                (λ (fired, left, w'). ok (fired, r ∷ left, w')) rest (λ x f. Fired-cons r x s f)))

  -- What a call leaves.
  abbrev pub Turn : Result × EventLoop World × World → Type 0
  Turn (result, l, w) = Led X P R Q l × Ended X P R Q result w

  module _ (getsockopt : ℕ → SystemCall (ℕ × ℕ))
      (poll : List PollFd → SystemCall (ℕ × (ℕ → Revents))) where
    set_up-dispatch :
        (rs : List (FdRule World)) (w : World) (revents : ℕ → Revents)
        → All (Leads X P R Q) (set_up rs w).0
        → All (Asked X P R Q (set_up rs w).2) (rows 0 (set_up rs w).1 revents (set_up rs w).0)
        → P (set_up rs w).2
        → OnReturn
            (Left X P R Q)
            (dispatch getsockopt 0 (set_up rs w).1 revents (set_up rs w).0 (set_up rs w).2)
    set_up-dispatch rs w revents a asked h =
        subst (OnReturn (Left X P R Q))
          (sym (dispatch-set_up getsockopt rs revents w (set_up rs w).2))
          (dispatch_rows-Left X P R Q getsockopt (rows 0 (set_up rs w).1 revents (set_up rs w).0)
            (set_up rs w).2
            (subst (All (Leads X P R Q))
              (sym (
                rules_of-rows 0 (set_up rs w).1 revents (set_up rs w).0
                  (omega (arith, set_up-length rs w))))
              a)
            asked h)

    poll_rules-Turn :
        (l : EventLoop World) (w : World)
        → Led X P R Q l
        → P w
        → OnReturn Turn (poll_rules getsockopt poll l w)
    unfolding poll_rules
    poll_rules-Turn l w s h =
        let (a, u, asked) = set_up-Upkept l.fd_rules w s.fd h in
        let h' = u.0 in
        if-OnReturn Turn (not (set_up l.fd_rules w).3)
          (ok (exit, record l { fd_rules = (set_up l.fd_rules w).0 }, (set_up l.fd_rules w).2)) _
          (λ _. (record { fd = a; non_fd = s.non_fd }, h'))
          (λ _.
            bind-OnReturn (λ _. Unit {0}) Turn (check_call (poll (set_up l.fd_rules w).1)) _
              (OnReturn-true (check_call (poll (set_up l.fd_rules w).1)))
              (λ (count, revents) _.
                if-OnReturn Turn (count == 0)
                  (ok (
                    timeout,
                    record l { fd_rules = (set_up l.fd_rules w).0 },
                    (set_up l.fd_rules w).2,
                  ))
                  _ (λ _. (record { fd = a; non_fd = s.non_fd }, h'))
                  (λ _.
                    bind-OnReturn (Left X P R Q) Turn
                      (dispatch getsockopt 0 (set_up l.fd_rules w).1 revents (set_up l.fd_rules w).0
                        (set_up l.fd_rules w).2)
                      (λ (left, w''). ok (success, record l { fd_rules = left }, w''))
                      (set_up-dispatch l.fd_rules w revents a (asked 0 revents) h')
                      (λ x (all, q). (record { fd = all; non_fd = s.non_fd }, q)))))

    poll_if-Turn :
        (l : EventLoop World)
        → Led X P R Q l
        → (x : Bool × List (BasicRule World) × World) → Fired x
        → OnReturn Turn (
            if x.0
            then ok (success, record l { non_fd_rules = x.1 }, x.2)
            else poll_rules getsockopt poll (record l { non_fd_rules = x.1 }) x.2)
    poll_if-Turn l s (true, rules, w) (a, q) = (record { fd = s.fd; non_fd = a }, inr q)
    poll_if-Turn l s (false, rules, w) (a, h) =
        poll_rules-Turn (record l { non_fd_rules = rules }) w (record { fd = s.fd; non_fd = a }) h

    -- A call of `wait_next_event` that returns has made the callbacks of one rule at most, and
    -- none if it ends or its time is over, however many descriptors are ready: if the
    -- cancellations and recoveries keep `P`, and the callbacks of a rule of category `c` lead from
    -- `P` to `Q c`, which further callbacks of the same rule keep if it has no descriptor, then
    -- `P` holds afterwards or `Q c` for one `c`. A callback may rely on what its rule's interest
    -- showed when its pollfd was set up, if the cancellations and recoveries keep that. The rules
    -- that are left are rules with these properties, and with any other that the rules have.
    pub wait_next_event-Turn :
        (l : EventLoop World) (w : World)
        → Led X P R Q l
        → P w
        → OnReturn Turn (wait_next_event getsockopt poll l w)
    unfolding wait_next_event
    wait_next_event-Turn l w s h =
        bind-OnReturn Fired Turn (serve_non_fd l.non_fd_rules w) _
          (serve_non_fd-Fired l.non_fd_rules w s.non_fd h) (λ x f. poll_if-Turn l s x f)
