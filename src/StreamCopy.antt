-- ===== src/StreamCopy.antt =====
-- The copy of a terminal to and from a socket, apps/bidirectional_stream_copy.cc, over the event loop.
-- What the system calls answer in a turn of the loop is an argument of the turn, and so is the text of the
-- rules' names. All that has passed through the descriptors is kept next to the source's state.
pub mod Conserve
pub mod Rounds
pub mod Rules
pub mod Whole
mod Tests
use os_stream_socket.Base.{
  ℕ, List, [], ◌∷◌, ◌++◌, Bool, true, false, not, ◌&&◌, ◌||◌, ◌==◌, ltb, if◌then◌else◌, take,
  replicate, Outcome, ok, err, ◌>>=◌,
}
use os_stream_socket.ByteStream.{ByteStream}
use os_stream_socket.ByteStream
use os_stream_socket.Socket
use os_stream_socket.Socket.{shut_wr}
use os_stream_socket.FileDescriptor.{
  FdWrapper, SystemCall, set_blocking, check_system_call, read, write, close, register_write,
}
use os_stream_socket.EventLoop
use os_stream_socket.EventLoop.{
  EventLoop, Result, success, timeout, exit, FdRule, PollFd, Revents, add_named_rule,
  wait_next_event,
}

-- What the system calls return in one turn of the loop.
pub record Answers : Type 0 where
  pub read_input : SystemCall (List ℕ)
  pub read_socket : SystemCall (List ℕ)
  pub write_socket : SystemCall ℕ
  pub write_output : SystemCall ℕ
  pub shutdown_socket : SystemCall ℕ
  pub close_output : SystemCall ℕ

pub record StreamCopy : Type 0 where
  pub outbound : ByteStream
  pub inbound : ByteStream
  pub outbound_shutdown : Bool
  pub inbound_shutdown : Bool
  pub input : FdWrapper
  pub socket : FdWrapper
  pub output : FdWrapper
  pub answers : Answers
  pub typed : List ℕ
  pub sent : List ℕ
  pub received : List ℕ
  pub printed : List ℕ

-- Read from a descriptor into a stream: what was read, the descriptor and the stream.
unfoldable pub pull :
    SystemCall (List ℕ) → FdWrapper → ByteStream → Outcome (List ℕ × FdWrapper × ByteStream)
unfolding read ByteStream.push ByteStream.close ByteStream.available_capacity
pull answer fd s =
    read answer (replicate (ByteStream.available_capacity s) 0) fd >>= λ (bytes, fd'). ok (
      bytes,
      fd',
      if fd'.eof then ByteStream.close (ByteStream.push bytes s) else ByteStream.push bytes s,
    )

-- Write from a stream to a descriptor, and pop only what was written.
unfoldable pub pour :
    SystemCall ℕ → FdWrapper → ByteStream → Outcome (List ℕ × FdWrapper × ByteStream)
unfolding write ByteStream.pop ByteStream.peek ByteStream.bytes_buffered
pour answer fd s =
    if ByteStream.bytes_buffered s == 0
    then ok ([], fd, s)
    else (write answer (ByteStream.peek s ∷ []) fd >>= λ (written, fd').
        ok (take written (ByteStream.peek s), fd', ByteStream.pop written s))

unfoldable pub shutdown_write : SystemCall ℕ → FdWrapper → Outcome FdWrapper
unfolding Socket.shutdown
shutdown_write answer fd = Socket.shutdown shut_wr answer fd

-- Has a stream room, without an error in either?
unfoldable pub wants_more : ByteStream → ByteStream → Bool
wants_more s other =
    not (ByteStream.has_error s)
    && ltb 0 (ByteStream.available_capacity s)
    && not (ByteStream.has_error other)

-- Is there something to write, or an end to pass on?
unfoldable pub wants_out : ByteStream → (shutdown : Bool) → Bool
wants_out s shutdown =
    not (ByteStream.bytes_buffered s == 0) || (ByteStream.is_finished s && not shutdown)

unfoldable pub from_input : StreamCopy → Outcome StreamCopy
unfolding pull
from_input c = pull c.answers.read_input c.input c.outbound >>= λ (bytes, fd, s).
    ok (record c { input = fd; outbound = s; typed = c.typed ++ bytes })

unfoldable pub shutdown_if : Bool → StreamCopy → Outcome StreamCopy
unfolding shutdown_write
shutdown_if finished c =
    if finished
    then (shutdown_write c.answers.shutdown_socket c.socket >>= λ fd.
        ok (record c { socket = fd; outbound_shutdown = true }))
    else ok c

unfoldable pub to_socket : StreamCopy → Outcome StreamCopy
unfolding pour shutdown_if
to_socket c = pour c.answers.write_socket c.socket c.outbound >>= λ (bytes, fd, s).
    shutdown_if (ByteStream.is_finished s)
      (record c { socket = fd; outbound = s; sent = c.sent ++ bytes })

unfoldable pub from_socket : StreamCopy → Outcome StreamCopy
unfolding pull
from_socket c = pull c.answers.read_socket c.socket c.inbound >>= λ (bytes, fd, s).
    ok (record c { socket = fd; inbound = s; received = c.received ++ bytes })

unfoldable pub close_if : Bool → StreamCopy → Outcome StreamCopy
unfolding close
close_if finished c =
    if finished
    then (close c.answers.close_output c.output >>= λ fd.
        ok (record c { output = fd; inbound_shutdown = true }))
    else ok c

unfoldable pub to_output : StreamCopy → Outcome StreamCopy
unfolding pour close_if
to_output c = pour c.answers.write_output c.output c.inbound >>= λ (bytes, fd, s).
    close_if (ByteStream.is_finished s)
      (record c { output = fd; inbound = s; printed = c.printed ++ bytes })

-- The cancellations.
unfoldable pub close_outbound : StreamCopy → StreamCopy
close_outbound c = record c { outbound = ByteStream.close c.outbound }

unfoldable pub close_inbound : StreamCopy → StreamCopy
close_inbound c = record c { inbound = ByteStream.close c.inbound }

-- The four rules, by their categories; none can recover.
unfoldable pub input_rule : ℕ → FdRule StreamCopy
unfolding from_input wants_more close_outbound
input_rule category_id = record {
  rule = record {
    category_id = category_id;
    interest = λ c. wants_more c.outbound c.inbound;
    callback = from_input;
    cancel_requested = false;
  };
  fd = λ c. c.input;
  direction = EventLoop.input;
  cancel = close_outbound;
  recover = λ c. (false, c);
}

unfoldable pub socket_out_rule : ℕ → FdRule StreamCopy
unfolding to_socket wants_out close_outbound
socket_out_rule category_id = record {
  rule = record {
    category_id = category_id;
    interest = λ c. wants_out c.outbound c.outbound_shutdown;
    callback = to_socket;
    cancel_requested = false;
  };
  fd = λ c. c.socket;
  direction = EventLoop.output;
  cancel = close_outbound;
  recover = λ c. (false, c);
}

unfoldable pub socket_in_rule : ℕ → FdRule StreamCopy
unfolding from_socket wants_more close_inbound
socket_in_rule category_id = record {
  rule = record {
    category_id = category_id;
    interest = λ c. wants_more c.inbound c.outbound;
    callback = from_socket;
    cancel_requested = false;
  };
  fd = λ c. c.socket;
  direction = EventLoop.input;
  cancel = close_inbound;
  recover = λ c. (false, c);
}

unfoldable pub output_rule : ℕ → FdRule StreamCopy
unfolding to_output wants_out close_inbound
output_rule category_id = record {
  rule = record {
    category_id = category_id;
    interest = λ c. wants_out c.inbound c.inbound_shutdown;
    callback = to_output;
    cancel_requested = false;
  };
  fd = λ c. c.output;
  direction = EventLoop.output;
  cancel = close_inbound;
  recover = λ c. (false, c);
}

abbrev pub buffer_size : ℕ
buffer_size = 1048576

unfoldable pub new : FdWrapper → FdWrapper → FdWrapper → Answers → StreamCopy
new input socket output answers = record {
  outbound = ByteStream.new buffer_size;
  inbound = ByteStream.new buffer_size;
  outbound_shutdown = false;
  inbound_shutdown = false;
  input = input;
  socket = socket;
  output = output;
  answers = answers;
  typed = [];
  sent = [];
  received = [];
  printed = [];
}

-- The four rules, by `name` the text of their names.
unfoldable pub add_rules :
    (name : ℕ → List ℕ) → EventLoop StreamCopy → Outcome (EventLoop StreamCopy)
unfolding add_named_rule input_rule socket_out_rule socket_in_rule output_rule
add_rules name l = add_named_rule (name 0) input_rule l >>= λ l.
    add_named_rule (name 1) socket_out_rule l >>= λ l.
    add_named_rule (name 2) socket_in_rule l >>= λ l. add_named_rule (name 3) output_rule l

-- A turn of the loop: what the system calls answer in it.
pub record Turn : Type 0 where
  pub answers : Answers
  pub poll : List PollFd → SystemCall (ℕ × (ℕ → Revents))
  pub getsockopt : ℕ → SystemCall (ℕ × ℕ)

unfoldable pub is_exit : Result → Bool
is_exit success = false
is_exit timeout = false
is_exit exit = true

-- The loop until completion, over the turns that there are: has it ended, the rules and the state.
unfoldable pub run :
    List Turn
    → EventLoop StreamCopy
    → StreamCopy
    → Outcome (Bool × EventLoop StreamCopy × StreamCopy)
unfolding wait_next_event is_exit
run [] l c = ok (false, l, c)
run (t ∷ ts) l c =
    wait_next_event t.getsockopt t.poll l (record c { answers = t.answers }) >>= λ (result, l', c').
    (let rest = run ts l' c' in if is_exit result then ok (true, l', c') else rest)

-- `bidirectional_stream_copy`: `fcntl` by its two calls on a descriptor's number.
unfoldable pub bidirectional_stream_copy :
    (get : ℕ → SystemCall ℕ) (set : ℕ → ℕ → SystemCall ℕ) (name : ℕ → List ℕ)
    → FdWrapper
    → FdWrapper
    → FdWrapper
    → Answers
    → List Turn
    → Outcome (Bool × EventLoop StreamCopy × StreamCopy)
unfolding set_blocking add_rules new run
bidirectional_stream_copy get set name input socket output answers turns =
    set_blocking false (get socket.fd) (set socket.fd) socket >>= λ socket'.
    set_blocking false (get input.fd) (set input.fd) input >>= λ input'.
    set_blocking false (get output.fd) (set output.fd) output >>= λ output'.
    add_rules name (EventLoop.new StreamCopy) >>= λ l.
    run turns l (new input' socket' output' answers)
