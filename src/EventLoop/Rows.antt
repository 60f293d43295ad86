-- ===== src/EventLoop/Rows.antt =====
-- Every rule that stays is judged with its own pollfd, although the loop over the results goes by index
-- and erases rules on the way.
use os_stream_socket.Base.{
  ℕ, suc, ◌+◌, ◌≤◌, ◌≡◌, refl, sym, ap, ◌∙◌, List, [], ◌∷◌, length, get_elem?, some, Outcome, ok,
  err, ◌>>=◌, arith, Bool-cases, inl, inr,
}
use os_stream_socket.FileDescriptor.{SystemCall}
use os_stream_socket.EventLoop.{
  FdRule, PollFd, Revents, Verdict, keep, erase, serve, verdict, judge, go_on, dispatch, set_up,
  is_over,
}

-- A rule with its pollfd and what `poll` set in that.
abbrev pub Row : Type 0 → Type 0
Row World = FdRule World × PollFd × Revents

module _ {World : Type 0} where
  unfoldable pub rows : ℕ → List PollFd → (ℕ → Revents) → List (FdRule World) → List (Row World)
  rows idx [] revents rules = []
  rows idx (p ∷ ps) revents [] = []
  rows idx (p ∷ ps) revents (r ∷ rs) = (r, p, revents idx) ∷ rows (suc idx) ps revents rs

  abbrev pub rules_of : List (Row World) → List (FdRule World)
  rules_of [] = []
  rules_of ((r, p, rev) ∷ rest) = r ∷ rules_of rest

  pub rules_of-rows :
      (idx : ℕ) (ps : List PollFd) (revents : ℕ → Revents) (rs : List (FdRule World))
      → length rs ≤ length ps
      → rules_of (rows idx ps revents rs) ≡ rs
  unfolding rows
  rules_of-rows idx [] revents [] h = refl
  rules_of-rows idx (p ∷ ps) revents [] h = refl
  rules_of-rows idx [] revents (r ∷ rs) h = absurd (omega arith)
  rules_of-rows idx (p ∷ ps) revents (r ∷ rs) h =
      ap (λ l. r ∷ l) (rules_of-rows (suc idx) ps revents rs (omega arith))

  -- What follows a verdict is decided by what the rest does.
  go_on_ext :
      (r : FdRule World) (rs : List (FdRule World))
      (next next' : World → Outcome (List (FdRule World) × World)) (o : Outcome (Verdict World))
      → ((w : World) → next w ≡ next' w)
      → (o >>= λ v. go_on r rs next v) ≡ (o >>= λ v. go_on r rs next' v)
  unfolding go_on
  go_on_ext r rs next next' (ok (keep w)) h =
      ap (λ o. o >>= λ (rules, w'). ok (r ∷ rules, w')) (h w)
  go_on_ext r rs next next' (ok (erase w)) h = h w
  go_on_ext r rs next next' (ok (serve w)) h = refl
  go_on_ext r rs next next' (err fault) h = refl

  module _ (getsockopt : ℕ → SystemCall (ℕ × ℕ)) where
    -- The loop without an index.
    unfoldable pub dispatch_rows : List (Row World) → World → Outcome (List (FdRule World) × World)
    dispatch_rows [] w = ok ([], w)
    dispatch_rows ((r, p, rev) ∷ rest) w = verdict (getsockopt (r.fd w).fd) p rev r w >>= λ v.
        go_on r (rules_of rest) (λ w'. dispatch_rows rest w') v

    -- From any index on: `all` are the pollfds, and `ps` those from the index on.
    dispatch_from :
        (idx : ℕ) (all ps : List PollFd) (revents : ℕ → Revents) (rs : List (FdRule World))
        (w : World)
        → ((i : ℕ) → get_elem? all (idx + i) ≡ get_elem? ps i)
        → length rs ≤ length ps
        → dispatch getsockopt idx all revents rs w ≡ dispatch_rows (rows idx ps revents rs) w
    unfolding dispatch rows judge dispatch_rows
    dispatch_from idx all [] revents [] w same h = refl
    dispatch_from idx all (p ∷ ps) revents [] w same h = refl
    dispatch_from idx all [] revents (r ∷ rs) w same h = absurd (omega arith)
    dispatch_from idx all (p ∷ ps) revents (r ∷ rs) w same h =
        let here : get_elem? all idx ≡ some p = ap (get_elem? all) (omega arith) ∙ same 0 in
        ap
          (λ o. judge (getsockopt (r.fd w).fd) o (revents idx) r w >>= λ v.
            go_on r rs (λ w'. dispatch getsockopt (suc idx) all revents rs w') v)
          here
        ∙ go_on_ext r rs _ _ (verdict (getsockopt (r.fd w).fd) p (revents idx) r w) (λ w'.
          dispatch_from (suc idx) all ps revents rs w'
            (λ i. ap (get_elem? all) (omega arith) ∙ same (suc i)) (omega arith))
        ∙ ap
            (λ l. verdict (getsockopt (r.fd w).fd) p (revents idx) r w >>= λ v.
              go_on r l (λ w'. dispatch_rows (rows (suc idx) ps revents rs) w') v)
            (sym (rules_of-rows (suc idx) ps revents rs (omega arith)))

  -- A pollfd for each rule that stays.
  pub set_up-length :
      (rs : List (FdRule World)) (w : World) → length (set_up rs w).0 ≡ length (set_up rs w).1
  unfolding set_up
  set_up-length [] w = refl
  set_up-length (r ∷ rs) w = elim (Bool-cases r.rule.cancel_requested) [
    | inl e ↦ simp (e, set_up-length rs w)
    | inr e ↦ elim (Bool-cases (is_over r w)) [
      | inl o ↦ simp (e, o, set_up-length rs (r.cancel w))
      | inr o ↦ simp (e, o, set_up-length rs w)
    ]
  ]

  module _ (getsockopt : ℕ → SystemCall (ℕ × ℕ)) where
    pub dispatch-rows :
        (pollfds : List PollFd) (revents : ℕ → Revents) (rs : List (FdRule World)) (w : World)
        → length rs ≤ length pollfds
        → dispatch getsockopt 0 pollfds revents rs w
          ≡ dispatch_rows getsockopt (rows 0 pollfds revents rs) w
    dispatch-rows pollfds revents rs w h =
        dispatch_from getsockopt 0 pollfds pollfds revents rs w
          (λ i. ap (get_elem? pollfds) (omega arith)) h

    -- Over the rules and the pollfds that the set-up leaves, the loop over the results, which goes
    -- by an index that grows while rules are erased, is the loop over the rules paired with their
    -- own pollfds and results; the access by index never throws.
    pub dispatch-set_up :
        (rs : List (FdRule World)) (revents : ℕ → Revents) (w w' : World)
        → dispatch getsockopt 0 (set_up rs w).1 revents (set_up rs w).0 w'
          ≡ dispatch_rows getsockopt (rows 0 (set_up rs w).1 revents (set_up rs w).0) w'
    dispatch-set_up rs revents w w' =
        dispatch-rows (set_up rs w).1 revents (set_up rs w).0 w' (omega (arith, set_up-length rs w))
