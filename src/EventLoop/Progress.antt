-- ===== src/EventLoop/Progress.antt =====
-- Who is served: the first rule whose descriptor is ready.
use os_stream_socket.Base.{
  ℕ, ◌≤◌, ◌≡◌, sym, ap, ◌∙◌, List, [], ◌∷◌, ◌++◌, All, true, false, length, ok,
}
use os_stream_socket.FileDescriptor.{SystemCall}
use os_stream_socket.EventLoop.{
  FdRule, PollFd, Revents, verdict, go_on, dispatch, on_ready, is_busy, is_defunct, is_ready,
}
use os_stream_socket.EventLoop.Rows.{
  Row, rows, rules_of, rules_of-rows, dispatch_rows, dispatch-rows,
}

-- Nothing is wrong with the descriptor.
abbrev pub IsSound : Revents → Type 0
IsSound rev = (rev.error ≡ false) × (rev.invalid ≡ false) × (rev.hangup ≡ false)

module _ {World : Type 0} where
  abbrev pub IsQuiet : Row World → Type 0
  IsQuiet (r, p, rev) = IsSound rev × (is_ready p.events rev ≡ false)

  module _ (getsockopt : ℕ → SystemCall (ℕ × ℕ)) where
    dispatch_rows-first :
        (pre : List (Row World)) (r : FdRule World) (p : PollFd) (rev : Revents)
        (post : List (Row World)) (w w' : World)
        → All IsQuiet pre
        → IsSound rev
        → is_ready p.events rev ≡ true
        → r.rule.callback w ≡ ok w'
        → is_busy r w w' ≡ false
        → dispatch_rows getsockopt (pre ++ (r, p, rev) ∷ post) w
          ≡ ok (rules_of (pre ++ (r, p, rev) ∷ post), w')
    unfolding dispatch_rows verdict go_on on_ready is_defunct
    dispatch_rows-first [] r p rev post w w' q (e, i, h) ready calls busy =
        simp (e, i, h, ready, calls, busy)
    dispatch_rows-first ((r', p', rev') ∷ pre) r p rev post w w' (((e', i', h'), quiet), q) s ready
          calls busy =
        simp (e', i', h', quiet, dispatch_rows-first pre r p rev post w w' q s ready calls busy)

    -- If there is a pollfd for each rule, the first rules have descriptors that are not ready and
    -- have no error or hangup, and the next one's is ready without an error or hangup, then the
    -- loop over the results serves that one and no other, whatever is ready behind it, if its
    -- callback returns and the rule does not count as busy; all rules stay.
    pub dispatch-first :
        (pollfds : List PollFd) (revents : ℕ → Revents) (rules : List (FdRule World))
        (pre : List (Row World)) (r : FdRule World) (p : PollFd) (rev : Revents)
        (post : List (Row World)) (w w' : World)
        → length rules ≤ length pollfds
        → rows 0 pollfds revents rules ≡ pre ++ (r, p, rev) ∷ post
        → All IsQuiet pre
        → IsSound rev
        → is_ready p.events rev ≡ true
        → r.rule.callback w ≡ ok w'
        → is_busy r w w' ≡ false
        → dispatch getsockopt 0 pollfds revents rules w ≡ ok (rules, w')
    dispatch-first pollfds revents rules pre r p rev post w w' len same q s ready calls busy =
        dispatch-rows getsockopt pollfds revents rules w len
        ∙ ap (λ l. dispatch_rows getsockopt l w) same
        ∙ dispatch_rows-first pre r p rev post w w' q s ready calls busy
        ∙ ap (λ l. ok (rules_of l, w')) (sym same)
        ∙ ap (λ l. ok (l, w')) (rules_of-rows 0 pollfds revents rules len)
