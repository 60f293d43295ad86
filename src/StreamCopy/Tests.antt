-- ===== src/StreamCopy/Tests.antt =====
-- A copy of two bytes to the socket, in two writes.
use os_stream_socket.Base.{
  Bool, Outcome, ◌>>=◌, ◌==◌, if◌then◌else◌, ℕ, ◌≡◌, refl, List, [], ◌∷◌, true, false, ok, OnReturn,
}
use os_stream_socket.ByteStream
use os_stream_socket.FileDescriptor.{FdWrapper, returned}
use os_stream_socket.EventLoop.{EventLoop, Revents}
use os_stream_socket.StreamCopy.{
  StreamCopy, Answers, Turn, input_rule, socket_out_rule, new, run, bidirectional_stream_copy,
}
use os_stream_socket.StreamCopy.Whole.{Conserved, bidirectional_stream_copy-Conserved}

abbrev descriptor : ℕ → FdWrapper
descriptor fd = record {
  fd = fd;
  eof = false;
  closed = false;
  non_blocking = false;
  read_count = 0;
  write_count = 0;
}

abbrev answers : Answers
answers = record {
  read_input = returned (5 ∷ 6 ∷ []);
  read_socket = returned [];
  write_socket = returned 1;
  write_output = returned 1;
  shutdown_socket = returned 0;
  close_output = returned 0;
}

abbrev ready : ℕ → Revents
ready idx = record {
  readable = true;
  writable = true;
  error = false;
  hangup = false;
  invalid = false;
}

abbrev quiet : Revents
quiet = record {
  readable = false;
  writable = false;
  error = false;
  hangup = false;
  invalid = false;
}

-- Of the pollfds the one with this index is ready.
abbrev only : ℕ → ℕ → Revents
only k idx = if k == idx then ready idx else quiet

abbrev turn : ℕ → Turn
turn idx = record {
  answers = answers;
  poll = λ pollfds. returned (1, only idx);
  getsockopt = λ fd. returned (4, 0);
}

abbrev turns : List Turn
turns = turn 0 ∷ turn 1 ∷ []

abbrev small : StreamCopy
unfolding new
small = record (new (descriptor 0) (descriptor 3) (descriptor 1) answers) {
  outbound = ByteStream.new 4;
  inbound = ByteStream.new 4;
}

abbrev two_rules : EventLoop StreamCopy
two_rules = record {
  rule_categories = [] ∷ [] ∷ [];
  fd_rules = input_rule 0 ∷ socket_out_rule 1 ∷ [];
  non_fd_rules = [];
}

abbrev traffic : Outcome (Bool × EventLoop StreamCopy × StreamCopy) → Outcome (List ℕ × List ℕ)
traffic ran = ran >>= λ (ended, l, c). ok (c.typed, c.sent)

-- Two bytes are typed, and one is sent.
one_sent : traffic (run turns two_rules small) ≡ ok (5 ∷ 6 ∷ [], 5 ∷ [])
unfolding run ByteStream.new small input_rule socket_out_rule ByteStream.has_error
    ByteStream.is_finished
one_sent = refl

-- With nothing to send the loop ends.
ends_idle :
    (run turns (record two_rules { fd_rules = socket_out_rule 1 ∷ [] }) small >>= λ (ended, l, c).
    ok ended)
    ≡ ok true
unfolding run ByteStream.new small socket_out_rule ByteStream.is_finished
ends_idle = refl

bidirectional_stream_copy-Conserved_example : OnReturn Conserved (
    bidirectional_stream_copy
      (λ fd. returned 2)
      (λ fd flags. returned 0)
      (λ k. k ∷ [])
      (descriptor 0)
      (descriptor 3)
      (descriptor 1)
      answers
      turns)
bidirectional_stream_copy-Conserved_example =
    bidirectional_stream_copy-Conserved (λ fd. returned 2) (λ fd flags. returned 0) (λ k. k ∷ [])
      (descriptor 0) (descriptor 3) (descriptor 1) answers turns ((tt, tt), ((tt, tt), tt))
