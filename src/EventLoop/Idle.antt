-- ===== src/EventLoop/Idle.antt =====
-- The loop ends only when no rule that is left has been interested.
use os_stream_socket.Base.{
  ℕ, ◌≡◌, List, [], ◌∷◌, All, Bool, true, false, not, ◌||◌, ◌==◌, if◌then◌else◌, inl, inr,
  Bool-cases, ok, OnReturn, bind-OnReturn, if-OnReturn, OnReturn-true, arith,
}
use os_stream_socket.FileDescriptor.{SystemCall}
use os_stream_socket.EventLoop.{
  EventLoop, Result, success, timeout, exit, BasicRule, FdRule, PollFd, Revents, set_up, is_over,
  check_call, dispatch, serve_non_fd, poll_rules, wait_next_event,
}
use os_stream_socket.EventLoop.Leads.{Leads, Led}
use os_stream_socket.EventLoop.Turns.{Fired, serve_non_fd-Fired}

or_false : (a b : Bool) → (a || b) ≡ false → (a ≡ false) × (b ≡ false)
or_false a b q = (ground (arith, q), ground (arith, q))

-- `N c` is known when a rule of category `c` has been asked and is not interested.
module _ {World : Type 0} (P : World → Type 0) (N : ℕ → World → Type 0) where
  pub record Rests (r : FdRule World) : Type 0 where
    pub rests : (w : World) → P w → r.rule.interest w ≡ false → N r.rule.category_id w
    pub ends : (w : World) → P w → P (r.cancel w)
    pub stays : (c : ℕ) (w : World) → N c w → N c (r.cancel w)

  abbrev pub Idle : List (FdRule World) → World → Type 0
  Idle rules w = All (λ r. N r.rule.category_id w) rules

  set_up-Idle :
      (rs : List (FdRule World)) (w : World)
      → All Rests rs
      → P w
      → (set_up rs w).3 ≡ false
      → ((c : ℕ) → N c w → N c (set_up rs w).2) × Idle (set_up rs w).0 (set_up rs w).2
  unfolding set_up
  set_up-Idle [] w a h e = ((λ c n. n), tt)
  set_up-Idle (r ∷ rs) w (s, a) h e = elim (Bool-cases r.rule.cancel_requested) [
    | inl c ↦ simp c (set_up-Idle rs w a h (simp c at e))
    | inr c ↦ elim (Bool-cases (is_over r w)) [
      | inl o ↦
          let (stays, idle) = set_up-Idle rs (r.cancel w) a (s.ends w h) (simp (c, o) at e) in
          simp (c, o) ((λ k n. stays k (s.stays k w n)), idle)
      | inr o ↦
          let both : (r.rule.interest w || (set_up rs w).3) ≡ false = simp (c, o) at e in
          let (quiet, none_left) = or_false (r.rule.interest w) (set_up rs w).3 both in
          let (stays, idle) = set_up-Idle rs w a h none_left in
          simp (c, o) (stays, (stays r.rule.category_id (s.rests w h quiet), idle))
    ]
  ]

  -- When the loop ends, no rule that is left has been interested.
  abbrev pub Over : Result × EventLoop World × World → Type 0
  Over (success, l, w) = Unit
  Over (timeout, l, w) = Unit
  Over (exit, l, w) = Idle l.fd_rules w

  module _ (getsockopt : ℕ → SystemCall (ℕ × ℕ))
      (poll : List PollFd → SystemCall (ℕ × (ℕ → Revents))) where
    poll_rules-Over :
        (l : EventLoop World) (w : World)
        → All Rests l.fd_rules
        → P w
        → OnReturn Over (poll_rules getsockopt poll l w)
    unfolding poll_rules
    poll_rules-Over l w a h =
        let rules = (set_up l.fd_rules w).0 in
        let pollfds = (set_up l.fd_rules w).1 in
        let w' = (set_up l.fd_rules w).2 in
        let something = (set_up l.fd_rules w).3 in
        if-OnReturn Over (not something) (ok (exit, record l { fd_rules = rules }, w')) _
          (λ e. (set_up-Idle l.fd_rules w a h (ground (arith, e))).1)
          (λ _.
            bind-OnReturn (λ _. Unit {0}) Over (check_call (poll pollfds)) _
              (OnReturn-true (check_call (poll pollfds)))
              (λ (count, revents) _.
                if-OnReturn Over (count == 0) (ok (timeout, record l { fd_rules = rules }, w')) _
                  (λ _. tt)
                  (λ _.
                    bind-OnReturn (λ _. Unit {0}) Over
                      (dispatch getsockopt 0 pollfds revents rules w') _
                      (OnReturn-true (dispatch getsockopt 0 pollfds revents rules w'))
                      (λ _ _. tt))))

    module _ (R Q : ℕ → World → Type 0) where
      Rests-Leads : (rs : List (FdRule World)) → All (Leads Rests P R Q) rs → All Rests rs
      Rests-Leads [] a = tt
      Rests-Leads (r ∷ rs) (s, a) = (s.also, Rests-Leads rs a)

      poll_if-Over :
          (l : EventLoop World)
          → All Rests l.fd_rules
          → (x : Bool × List (BasicRule World) × World) → Fired Rests P R Q x
          → OnReturn Over (
              if x.0
              then ok (success, record l { non_fd_rules = x.1 }, x.2)
              else poll_rules getsockopt poll (record l { non_fd_rules = x.1 }) x.2)
      poll_if-Over l a (true, rules, w) f = tt
      poll_if-Over l a (false, rules, w) (b, h) =
          poll_rules-Over (record l { non_fd_rules = rules }) w a h

      pub wait_next_event-Over :
          (l : EventLoop World) (w : World)
          → Led Rests P R Q l
          → P w
          → OnReturn Over (wait_next_event getsockopt poll l w)
      unfolding wait_next_event
      wait_next_event-Over l w s h =
          bind-OnReturn (Fired Rests P R Q) Over (serve_non_fd l.non_fd_rules w) _
            (serve_non_fd-Fired Rests P R Q l.non_fd_rules w s.non_fd h)
            (λ x f. poll_if-Over l (Rests-Leads l.fd_rules s.fd) x f)
