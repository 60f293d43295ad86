-- ===== src/EventLoop.antt =====
-- The event loop of util/eventloop.hh and util/eventloop.cc, over any state `World` that the callbacks
-- share. A rule sees its file descriptor in the world. What `poll` and `getsockopt` answer are arguments.
-- No callback adds a rule or cancels one by its handle, as none in the repository does; a throw of any
-- kind is `err runtime_error`.
pub mod Rows
pub mod Leads
pub mod Turns
pub mod Idle
pub mod Progress
mod Tests
use os_stream_socket.Base.{
  ℕ, zero, suc, ◌+◌, List, [], ◌∷◌, ◌++◌, Bool, true, false, not, ◌&&◌, ◌||◌, ◌==◌, ltb,
  if◌then◌else◌, length, get_elem?, Option, none, some, Outcome, ok, err, runtime_error, ◌>>=◌,
}
use os_stream_socket.FileDescriptor.{
  FdWrapper, SystemCall, returned, failed, Errno, enotsock, eagain, einprogress, other_error,
}

pub data Direction : Type 0 where
  input : Direction
  output : Direction

pub data Result : Type 0 where
  success : Result
  timeout : Result
  exit : Result

-- What a `pollfd` asks for, if anything, and the bits that `poll` sets in it.
pub record PollFd : Type 0 where
  pub fd_num : ℕ
  pub events : Option Direction

pub record Revents : Type 0 where
  pub readable : Bool
  pub writable : Bool
  pub error : Bool
  pub hangup : Bool
  pub invalid : Bool

pub record BasicRule (World : Type 0) : Type 0 where
  pub category_id : ℕ
  pub interest : World → Bool
  pub callback : World → Outcome World
  pub cancel_requested : Bool

pub record FdRule (World : Type 0) : Type 0 where
  pub rule : BasicRule World
  pub fd : World → FdWrapper
  pub direction : Direction
  pub cancel : World → World
  pub recover : World → Bool × World

pub record EventLoop (World : Type 0) : Type 0 where
  pub rule_categories : List (List ℕ)
  pub fd_rules : List (FdRule World)
  pub non_fd_rules : List (BasicRule World)

unfoldable pub new : (World : Type 0) → EventLoop World
new World = record { rule_categories = []; fd_rules = []; non_fd_rules = [] }

-- What becomes of a rule when its turn comes.
pub data Verdict (World : Type 0) : Type 0 where
  keep : World → Verdict World
  erase : World → Verdict World
  serve : World → Verdict World

-- `CheckSystemCall` of util/exception.hh
unfoldable pub check_call {ℓ} : {A : Type ℓ} → SystemCall A → Outcome A
check_call (returned value) = ok value
check_call (failed errno) = err runtime_error

unfoldable pub is_input : Direction → Bool
is_input input = true
is_input output = false

-- `revents & events`
unfoldable pub is_ready : Option Direction → Revents → Bool
is_ready none rev = false
is_ready (some input) rev = rev.readable
is_ready (some output) rev = rev.writable

unfoldable pub has_events : Option Direction → Bool
has_events none = false
has_events (some direction) = true

-- The error of a polled descriptor: only a failure of `getsockopt` itself throws. The text that is
-- printed is left out.
unfoldable pub diagnose : SystemCall (ℕ × ℕ) → Outcome (Unit {0})
diagnose (returned (optlen, socket_error)) = if optlen == 4 then ok tt else err runtime_error
diagnose (failed enotsock) = ok tt
diagnose (failed eagain) = err runtime_error
diagnose (failed einprogress) = err runtime_error
diagnose (failed other_error) = err runtime_error

module _ {World : Type 0} where
  unfoldable pub add_category : List ℕ → EventLoop World → Outcome (ℕ × EventLoop World)
  add_category name l =
      if ltb (length l.rule_categories) 64
      then ok
          (length l.rule_categories, record l { rule_categories = l.rule_categories ++ name ∷ [] })
      else err runtime_error

  unfoldable pub add_fd_rule : FdRule World → EventLoop World → Outcome (EventLoop World)
  add_fd_rule r l =
      if ltb r.rule.category_id (length l.rule_categories)
      then ok (record l {
        fd_rules =
            l.fd_rules ++ record r { rule = record (r.rule) { cancel_requested = false } } ∷ [];
      })
      else err runtime_error

  -- `add_rule` with a name: a category of its own.
  unfoldable pub add_named_rule :
      List ℕ → (ℕ → FdRule World) → EventLoop World → Outcome (EventLoop World)
  unfolding add_category add_fd_rule
  add_named_rule name r l =
      add_category name l >>= λ (category_id, l'). add_fd_rule (r category_id) l'

  unfoldable pub add_rule : BasicRule World → EventLoop World → Outcome (EventLoop World)
  add_rule r l =
      if ltb r.category_id (length l.rule_categories)
      then ok
          (record l { non_fd_rules = l.non_fd_rules ++ record r { cancel_requested = false } ∷ [] })
      else err runtime_error

  -- What the handle of a rule does to the rule.
  unfoldable pub request_cancel : BasicRule World → BasicRule World
  request_cancel r = record r { cancel_requested = true }

  unfoldable pub service_count : FdRule World → World → ℕ
  unfolding is_input
  service_count r w = if is_input r.direction then (r.fd w).read_count else (r.fd w).write_count

  -- The loop over one rule: 128 rounds, and then it throws if the rule is still interested.
  unfoldable pub serve_loop : ℕ → BasicRule World → World → Outcome World
  serve_loop zero r w = if r.interest w then err runtime_error else ok w
  serve_loop (suc left) r w = elim (r.interest w) [
    | true ↦ r.callback w >>= λ w'. serve_loop left r w'
    | false ↦ ok w
  ]

  -- The loop over the rules without a descriptor: has one fired, what is left of them, and the world.
  unfoldable pub serve_non_fd :
      List (BasicRule World) → World → Outcome (Bool × List (BasicRule World) × World)
  unfolding serve_loop
  serve_non_fd [] w = ok (false, [], w)
  serve_non_fd (r ∷ rs) w =
      let rest = serve_non_fd rs w in
      if r.cancel_requested
      then rest
      else (if r.interest w
          then (serve_loop 128 r w >>= λ w'. ok (true, r ∷ rs, w'))
          else (rest >>= λ (fired, left, w'). ok (fired, r ∷ left, w')))

  -- Does a rule end before it is polled, and is its callback for that called?
  unfoldable pub is_over : FdRule World → World → Bool
  unfolding is_input
  is_over r w = (is_input r.direction && (r.fd w).eof) || (r.fd w).closed

  unfoldable pub poll_fd : FdRule World → World → PollFd
  poll_fd r w = record {
    fd_num = (r.fd w).fd;
    events = (if r.rule.interest w then some r.direction else none);
  }

  -- The loop that sets up the pollfds: the rules that stay, a pollfd for each, the world, and whether
  -- there is something to poll.
  unfoldable pub set_up :
      List (FdRule World) → World → List (FdRule World) × List PollFd × World × Bool
  unfolding is_over poll_fd
  set_up [] w = ([], [], w, false)
  set_up (r ∷ rs) w = elim r.rule.cancel_requested [
    | true ↦ set_up rs w
    | false ↦ elim (is_over r w) [
      | true ↦ set_up rs (r.cancel w)
      | false ↦
          let (rules, pollfds, w', something) = set_up rs w in
          (r ∷ rules, poll_fd r w ∷ pollfds, w', r.rule.interest w || something)
    ]
  ]

  unfoldable pub erase_failed : SystemCall (ℕ × ℕ) → FdRule World → World → Outcome (Verdict World)
  unfolding diagnose
  erase_failed option r w = diagnose option >>= λ _. ok (erase (r.cancel w))

  -- An error; a descriptor that is not open cannot recover.
  unfoldable pub on_error :
      SystemCall (ℕ × ℕ) → Revents → FdRule World → World → Outcome (Verdict World)
  unfolding erase_failed
  on_error option rev r w =
      let (recovered, w') = r.recover w in
      if rev.invalid
      then erase_failed option r w
      else (if recovered then ok (keep w') else erase_failed option r w')

  unfoldable pub is_defunct : PollFd → Revents → FdRule World → Bool
  unfolding is_ready has_events is_input
  is_defunct p rev r =
      rev.hangup
      && ((has_events p.events && not (is_ready p.events rev)) || not (is_input r.direction))

  -- Has the callback neither used nor closed the descriptor, with the rule still interested?
  unfoldable pub is_busy : FdRule World → World → World → Bool
  unfolding service_count
  is_busy r w w' =
      (service_count r w == service_count r w') && not (r.fd w').closed && r.rule.interest w'

  unfoldable pub on_ready : FdRule World → World → Outcome (Verdict World)
  unfolding is_busy
  on_ready r w =
      r.rule.callback w >>= λ w'. (if is_busy r w w' then err runtime_error else ok (serve w'))

  unfoldable pub verdict :
      SystemCall (ℕ × ℕ) → PollFd → Revents → FdRule World → World → Outcome (Verdict World)
  unfolding on_error is_defunct is_ready on_ready
  verdict option p rev r w =
      if rev.error || rev.invalid
      then on_error option rev r w
      else (if is_defunct p rev r
          then ok (erase (r.cancel w))
          else (if is_ready p.events rev then on_ready r w else ok (keep w)))

  -- `pollfds.at( idx )` throws beyond the last one.
  unfoldable pub judge :
      SystemCall (ℕ × ℕ) → Option PollFd → Revents → FdRule World → World → Outcome (Verdict World)
  unfolding verdict
  judge option none rev r w = err runtime_error
  judge option (some p) rev r w = verdict option p rev r w

  -- How the loop goes on after a rule, with the rules behind it and what the loop does on them.
  unfoldable pub go_on :
      FdRule World
      → List (FdRule World)
      → (World → Outcome (List (FdRule World) × World))
      → Verdict World
      → Outcome (List (FdRule World) × World)
  go_on r rs next (keep w) = next w >>= λ (rules, w'). ok (r ∷ rules, w')
  go_on r rs next (erase w) = next w
  go_on r rs next (serve w) = ok (r ∷ rs, w)

  -- What `poll` answers for the pollfds, and `getsockopt` for a descriptor's number.
  module _ (getsockopt : ℕ → SystemCall (ℕ × ℕ)) where
    -- The loop over the results.
    unfoldable pub dispatch :
        ℕ
        → List PollFd
        → (ℕ → Revents)
        → List (FdRule World)
        → World
        → Outcome (List (FdRule World) × World)
    unfolding judge go_on
    dispatch idx pollfds revents [] w = ok ([], w)
    dispatch idx pollfds revents (r ∷ rs) w =
        judge (getsockopt (r.fd w).fd) (get_elem? pollfds idx) (revents idx) r w >>= λ v.
        go_on r rs (λ w'. dispatch (suc idx) pollfds revents rs w') v

    module _ (poll : List PollFd → SystemCall (ℕ × (ℕ → Revents))) where
      unfoldable pub poll_rules :
          EventLoop World → World → Outcome (Result × EventLoop World × World)
      unfolding set_up check_call dispatch
      poll_rules l w =
          let (rules, pollfds, w', something) = set_up l.fd_rules w in
          if not something
          then ok (exit, record l { fd_rules = rules }, w')
          else (check_call (poll pollfds) >>= λ (count, revents).
              (if count == 0
                then ok (timeout, record l { fd_rules = rules }, w')
                else (dispatch 0 pollfds revents rules w' >>= λ (left, w'').
                    ok (success, record l { fd_rules = left }, w''))))

      unfoldable pub wait_next_event :
          EventLoop World → World → Outcome (Result × EventLoop World × World)
      unfolding serve_non_fd poll_rules
      wait_next_event l w = serve_non_fd l.non_fd_rules w >>= λ (fired, left, w').
          (let l' = record l { non_fd_rules = left } in
            if fired then ok (success, l', w') else poll_rules l' w')
