-- ===== src/EventLoop/Leads.antt =====
-- What one rule does to the world when its turn comes, and the loop over the results of `poll`.
use os_stream_socket.Base.{
  ℕ, zero, suc, ◌≡◌, refl, ◌⊎◌, inl, inr, List, [], ◌∷◌, All, true, ◌||◌, if◌then◌else◌, Option,
  none, some, Outcome, ok, err, OnReturn, bind-OnReturn, if-OnReturn, elim-OnReturn, OnReturn-true,
  runtime_error, ◌>>=◌,
}
use os_stream_socket.FileDescriptor.{SystemCall}
use os_stream_socket.EventLoop.Rows.{Row, rules_of, dispatch_rows}
use os_stream_socket.EventLoop.{
  Direction, has_events, EventLoop, Result, success, timeout, exit, BasicRule, FdRule, PollFd,
  Revents, Verdict, keep, erase, serve, verdict, go_on, diagnose, erase_failed, on_error, on_ready,
  is_busy, is_defunct, is_ready, serve_loop,
}

-- `P` holds before, `R c` when a rule of category `c` has been asked and is interested, and `Q c` after
-- the callbacks of one rule of category `c`. `X` is what else is known of the rules.
module _ {World : Type 0} (X : FdRule World → Type 0) (P : World → Type 0)
    (R Q : ℕ → World → Type 0) where
  -- Clean-up: what holds before, and what rules have been asked for, still holds.
  abbrev pub Upkept : World → World → Type 0
  Upkept w w' = P w' × ((c : ℕ) → R c w → R c w')

  pub record Leads (r : FdRule World) : Type 0 where
    pub also : X r
    pub ends : (w : World) → P w → Upkept w (r.cancel w)
    pub recovers : (w : World) → P w → Upkept w (r.recover w).1
    pub asked : (w : World) → P w → r.rule.interest w ≡ true → R r.rule.category_id w
    pub calls :
        (w : World)
        → P w
        → R r.rule.category_id w
        → OnReturn (Q r.rule.category_id) (r.rule.callback w)

  -- A rule without a descriptor may be called again while it is interested.
  pub record Repeats (r : BasicRule World) : Type 0 where
    pub first : (w : World) → P w → r.interest w ≡ true → OnReturn (Q r.category_id) (r.callback w)
    pub again :
        (w : World)
        → Q r.category_id w
        → r.interest w ≡ true
        → OnReturn (Q r.category_id) (r.callback w)

  pub record Led (l : EventLoop World) : Type 0 where
    pub fd : All Leads l.fd_rules
    pub non_fd : All Repeats l.non_fd_rules

  -- Nothing was called, or one rule was.
  abbrev pub AtMostOne : World → Type 0
  AtMostOne w = P w ⊎ ((c : ℕ) × Q c w)

  -- If the loop ends or the time is over, nothing was called.
  abbrev pub Ended : Result → World → Type 0
  Ended success w = AtMostOne w
  Ended timeout w = P w
  Ended exit w = P w

  abbrev After : ℕ → World → Verdict World → Type 0
  After c w (keep w') = Upkept w w'
  After c w (erase w') = Upkept w w'
  After c w (serve w') = Q c w'

  serve_loop-Q :
      (n : ℕ) (r : BasicRule World) (w : World)
      → Repeats r
      → Q r.category_id w
      → OnReturn (Q r.category_id) (serve_loop n r w)
  unfolding serve_loop
  serve_loop-Q zero r w s q =
      if-OnReturn (Q r.category_id) (r.interest w) (err runtime_error) (ok w) (λ _. tt) (λ _. q)
  serve_loop-Q (suc n) r w s q =
      elim-OnReturn (Q r.category_id) (r.interest w) (r.callback w >>= λ w'. serve_loop n r w')
        (ok w)
        (λ e.
          bind-OnReturn (Q r.category_id) (Q r.category_id) (r.callback w) (λ w'. serve_loop n r w')
            (s.again w q e) (λ w' q'. serve_loop-Q n r w' s q'))
        (λ _. q)

  pub serve_loop-first :
      (n : ℕ) (r : BasicRule World) (w : World)
      → Repeats r
      → P w
      → r.interest w ≡ true
      → OnReturn (Q r.category_id) (serve_loop (suc n) r w)
  unfolding serve_loop
  serve_loop-first n r w s h e =
      elim-OnReturn (Q r.category_id) (r.interest w) (r.callback w >>= λ w'. serve_loop n r w')
        (ok w)
        (λ _.
          bind-OnReturn (Q r.category_id) (Q r.category_id) (r.callback w) (λ w'. serve_loop n r w')
            (s.first w h e) (λ w' q'. serve_loop-Q n r w' s q'))
        (λ f. absurd (cc (e, f)))

  erase_failed-After :
      (option : SystemCall (ℕ × ℕ)) (r : FdRule World) (w w' : World)
      → Leads r
      → Upkept w w'
      → OnReturn (After r.rule.category_id w) (erase_failed option r w')
  unfolding erase_failed
  erase_failed-After option r w w' s (h, keeps) =
      let (h', keeps') = s.ends w' h in
      bind-OnReturn (λ _. Unit {0}) (After r.rule.category_id w) (diagnose option)
        (λ _. ok (erase (r.cancel w'))) (OnReturn-true (diagnose option))
        (λ _ _. (h', λ c x. keeps' c (keeps c x)))

  on_error-After :
      (option : SystemCall (ℕ × ℕ)) (rev : Revents) (r : FdRule World) (w : World)
      → Leads r
      → P w
      → OnReturn (After r.rule.category_id w) (on_error option rev r w)
  unfolding on_error
  on_error-After option rev r w s h =
      if-OnReturn (After r.rule.category_id w) rev.invalid (erase_failed option r w) _
        (λ _. erase_failed-After option r w w s (h, λ _ x. x))
        (λ _.
          if-OnReturn (After r.rule.category_id w) (r.recover w).0 (ok (keep (r.recover w).1))
            (erase_failed option r (r.recover w).1) (λ _. s.recovers w h)
            (λ _. erase_failed-After option r w (r.recover w).1 s (s.recovers w h)))

  on_ready-After :
      (r : FdRule World) (w : World)
      → Leads r
      → P w
      → R r.rule.category_id w
      → OnReturn (After r.rule.category_id w) (on_ready r w)
  unfolding on_ready
  on_ready-After r w s h x =
      bind-OnReturn (Q r.rule.category_id) (After r.rule.category_id w) (r.rule.callback w)
        (λ w'. if is_busy r w w' then err runtime_error else ok (serve w')) (s.calls w h x)
        (λ w' q.
          if-OnReturn (After r.rule.category_id w) (is_busy r w w') (err runtime_error)
            (ok (serve w')) (λ _. tt) (λ _. q))

  -- A rule whose pollfd asks for something has been asked.
  abbrev pub Asked : World → Row World → Type 0
  Asked w (r, p, rev) = has_events p.events ≡ true → R r.rule.category_id w

  is_ready-events :
      (events : Option Direction) (rev : Revents)
      → is_ready events rev ≡ true
      → has_events events ≡ true
  unfolding is_ready has_events
  is_ready-events none rev e = e
  is_ready-events (some direction) rev e = refl

  verdict-After :
      (option : SystemCall (ℕ × ℕ)) (p : PollFd) (rev : Revents) (r : FdRule World) (w : World)
      → Leads r
      → Asked w (r, p, rev)
      → P w
      → OnReturn (After r.rule.category_id w) (verdict option p rev r w)
  unfolding verdict
  verdict-After option p rev r w s asked h =
      let A : Verdict World → Type 0 = After r.rule.category_id w in
      if-OnReturn A (rev.error || rev.invalid) (on_error option rev r w) _
        (λ _. on_error-After option rev r w s h)
        (λ _.
          if-OnReturn A (is_defunct p rev r) (ok (erase (r.cancel w))) _ (λ _. s.ends w h)
            (λ _.
              if-OnReturn A (is_ready p.events rev) (on_ready r w) (ok (keep w))
                (λ e. on_ready-After r w s h (asked (is_ready-events p.events rev e)))
                (λ _. (h, λ _ x. x))))

  -- What the loop over the results leaves.
  abbrev pub Left : List (FdRule World) × World → Type 0
  Left (rules, w) = All Leads rules × AtMostOne w

  go_on-Left :
      (r : FdRule World) (rs : List (FdRule World))
      (next : World → Outcome (List (FdRule World) × World)) (w : World) (v : Verdict World)
      → Leads r
      → All Leads rs
      → After r.rule.category_id w v
      → ((w' : World) → Upkept w w' → OnReturn Left (next w'))
      → OnReturn Left (go_on r rs next v)
  unfolding go_on
  go_on-Left r rs next w (keep w') s a h step =
      bind-OnReturn Left Left (next w') (λ (rules, w''). ok (r ∷ rules, w'')) (step w' h)
        (λ x (all, q). ((s, all), q))
  go_on-Left r rs next w (erase w') s a h step = step w' h
  go_on-Left r rs next w (serve w') s a q step = ((s, a), inr (r.rule.category_id, q))

  Asked-Upkept :
      (rows : List (Row World)) (w w' : World)
      → Upkept w w'
      → All (Asked w) rows
      → All (Asked w') rows
  Asked-Upkept [] w w' u a = tt
  Asked-Upkept ((r, p, rev) ∷ rest) w w' u (x, a) =
      ((λ e. u.1 r.rule.category_id (x e)), Asked-Upkept rest w w' u a)

  module _ (getsockopt : ℕ → SystemCall (ℕ × ℕ)) where
    pub dispatch_rows-Left :
        (rows : List (Row World)) (w : World)
        → All Leads (rules_of rows)
        → All (Asked w) rows
        → P w
        → OnReturn Left (dispatch_rows getsockopt rows w)
    unfolding dispatch_rows
    dispatch_rows-Left [] w s a h = (tt, inl h)
    dispatch_rows-Left ((r, p, rev) ∷ rest) w (s, ss) (x, a) h =
        bind-OnReturn (After r.rule.category_id w) Left (verdict (getsockopt (r.fd w).fd) p rev r w)
          (λ v. go_on r (rules_of rest) (λ w'. dispatch_rows getsockopt rest w') v)
          (verdict-After (getsockopt (r.fd w).fd) p rev r w s x h)
          (λ v q.
            go_on-Left r (rules_of rest) _ w v s ss q
              (λ w' u. dispatch_rows-Left rest w' ss (Asked-Upkept rest w w' u a) u.0))
