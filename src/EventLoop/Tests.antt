-- ===== src/EventLoop/Tests.antt =====
-- A world that is a number of bytes read, and a rule that reads one byte until there are two.
use os_stream_socket.Base.{
  ◌==◌, if◌then◌else◌, ℕ, ◌+◌, ◌≡◌, refl, List, [], ◌∷◌, true, false, ltb, length, some, ok, err,
  runtime_error, OnReturn, ap, arith,
}
use os_stream_socket.FileDescriptor.{FdWrapper, SystemCall, returned}
use os_stream_socket.EventLoop.{
  EventLoop, input, success, exit, FdRule, PollFd, Revents, dispatch, wait_next_event, serve_loop,
  is_ready, is_busy,
}
use os_stream_socket.EventLoop.Leads.{Leads}
use os_stream_socket.EventLoop.Turns.{Turn, wait_next_event-Turn}
use os_stream_socket.EventLoop.Rows.{rows}
use os_stream_socket.EventLoop.Progress.{dispatch-first}

abbrev descriptor : ℕ → FdWrapper
descriptor w = record {
  fd = 3;
  eof = false;
  closed = false;
  non_blocking = true;
  read_count = w;
  write_count = 0;
}

abbrev reader : FdRule ℕ
reader = record {
  rule = record {
    category_id = 0;
    interest = λ w. ltb w 2;
    callback = λ w. ok (w + 1);
    cancel_requested = false;
  };
  fd = descriptor;
  direction = input;
  cancel = λ w. w;
  recover = λ w. (false, w);
}

-- The callback of this one reads nothing.
abbrev idler : FdRule ℕ
idler = record reader {
  rule = record {
    category_id = 0;
    interest = λ w. true;
    callback = λ w. ok w;
    cancel_requested = false;
  };
}

abbrev two_rules : List (FdRule ℕ)
two_rules = reader ∷ reader ∷ []

abbrev loop : EventLoop ℕ
loop = record { rule_categories = [] ∷ []; fd_rules = two_rules; non_fd_rules = [] }

abbrev quiet : Revents
quiet = record {
  readable = false;
  writable = false;
  error = false;
  hangup = false;
  invalid = false;
}

abbrev ready : Revents
ready = record quiet { readable = true }

abbrev no_error : ℕ → SystemCall (ℕ × ℕ)
no_error fd = returned (4, 0)

abbrev all_ready : List PollFd → SystemCall (ℕ × (ℕ → Revents))
all_ready pollfds = returned (length pollfds, λ idx. ready)

abbrev pollfd : PollFd
pollfd = record { fd_num = 3; events = some input }

-- Both rules are ready, and one is served.
one_served : wait_next_event no_error all_ready loop 0 ≡ ok (success, loop, 1)
unfolding wait_next_event
one_served = refl

all_done : wait_next_event no_error all_ready loop 2 ≡ ok (exit, loop, 2)
unfolding wait_next_event
all_done = refl

busy_throws :
    wait_next_event no_error all_ready (record loop { fd_rules = idler ∷ [] }) 0 ≡ err runtime_error
unfolding wait_next_event
busy_throws = refl

-- A rule that is interested in 127 rounds and no more is served, with 129 it throws.
rounds_served : serve_loop 128 (record (reader.rule) { interest = λ w. ltb w 127 }) 0 ≡ ok 127
unfolding serve_loop
rounds_served = refl

rounds_throw :
    serve_loop 128 (record (reader.rule) { interest = λ w. ltb w 129 }) 0 ≡ err runtime_error
unfolding serve_loop
rounds_throw = refl

reader-Leads : Leads (λ r. Unit {0}) (λ w. w ≡ 0) (λ c w. Unit {0}) (λ c w. w ≡ 1) reader
reader-Leads = record {
  also = tt;
  ends = λ w h. (h, λ c x. x);
  recovers = λ w h. (h, λ c x. x);
  asked = λ w h e. tt;
  calls = λ w h x. ap (λ n. n + 1) h;
}

wait_next_event-Turn_example :
    OnReturn
      (Turn (λ r. Unit {0}) (λ w. w ≡ 0) (λ c w. Unit {0}) (λ c w. w ≡ 1))
      (wait_next_event no_error all_ready loop 0)
wait_next_event-Turn_example =
    wait_next_event-Turn (λ r. Unit {0}) (λ w. w ≡ 0) (λ c w. Unit {0}) (λ c w. w ≡ 1) no_error
      all_ready loop 0 (record { fd = (reader-Leads, (reader-Leads, tt)); non_fd = tt }) refl

abbrev second_ready : ℕ → Revents
second_ready idx = if idx == 0 then quiet else ready

dispatch-first_example :
    dispatch no_error 0 (pollfd ∷ pollfd ∷ []) second_ready two_rules 0 ≡ ok (two_rules, 1)
unfolding rows is_ready is_busy
dispatch-first_example =
    dispatch-first no_error (pollfd ∷ pollfd ∷ []) second_ready two_rules
      ((reader, pollfd, quiet) ∷ []) reader pollfd ready [] 0 1 (omega arith) refl
      (((refl, refl, refl), refl), tt) (refl, refl, refl) refl refl refl
