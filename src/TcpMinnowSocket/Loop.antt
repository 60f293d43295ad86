-- ===== src/TcpMinnowSocket/Loop.antt =====
-- The rules, the loop of the peer's thread, and the two ways to a connection.
use os_stream_socket.Base.{
  ℕ, List, [], ◌∷◌, Bool, true, false, not, ◌||◌, ◌==◌, if◌then◌else◌, sub64, Outcome, ok, err,
  runtime_error, ◌>>=◌,
}
use os_stream_socket.TcpPeer.{TcpPeer, TcpConfig}
use os_stream_socket.TcpPeer
use os_stream_socket.TcpOverIp.{FdAdapterConfig}
use os_stream_socket.FileDescriptor.{FdWrapper, SystemCall}
use os_stream_socket.EventLoop
use os_stream_socket.EventLoop.{
  EventLoop, Result, success, timeout, exit, FdRule, PollFd, Revents, add_named_rule,
  wait_next_event,
}
use os_stream_socket.StreamCopy.{is_exit}
use os_stream_socket.TcpMinnowSocket.{
  Adapter, Answers, TcpMinnowSocket, collect_segments, push, push_bytes, may_push, end_outbound,
  read_bytes, may_read, may_send, receive_segment, send_segments,
}

module _ {State : Type 0} (adapter : Adapter State) where
  -- The four rules; those without a cancellation of their own do nothing for it.
  unfoldable pub receive_rule : ℕ → FdRule (TcpMinnowSocket State)
  unfolding receive_segment
  receive_rule category_id = record {
    rule = record {
      category_id = category_id;
      interest = λ t. TcpPeer.active t.tcp;
      callback = receive_segment adapter;
      cancel_requested = false;
    };
    fd = λ t. adapter.fd t.datagram_adapter;
    direction = EventLoop.input;
    cancel = λ t. t;
    recover = λ t. (false, t);
  }

  unfoldable pub push_rule : ℕ → FdRule (TcpMinnowSocket State)
  unfolding push_bytes may_push end_outbound
  push_rule category_id = record {
    rule = record {
      category_id = category_id;
      interest = may_push;
      callback = push_bytes;
      cancel_requested = false;
    };
    fd = λ t. t.thread_data;
    direction = EventLoop.input;
    cancel = end_outbound;
    recover = λ t. (false, t);
  }

  unfoldable pub read_rule : ℕ → FdRule (TcpMinnowSocket State)
  unfolding read_bytes may_read
  read_rule category_id = record {
    rule = record {
      category_id = category_id;
      interest = may_read;
      callback = read_bytes;
      cancel_requested = false;
    };
    fd = λ t. t.thread_data;
    direction = EventLoop.output;
    cancel = λ t. t;
    recover = λ t. (false, t);
  }

  unfoldable pub send_rule : ℕ → FdRule (TcpMinnowSocket State)
  unfolding send_segments may_send
  send_rule category_id = record {
    rule = record {
      category_id = category_id;
      interest = may_send;
      callback = send_segments adapter;
      cancel_requested = false;
    };
    fd = λ t. adapter.fd t.datagram_adapter;
    direction = EventLoop.output;
    cancel = λ t. t;
    recover = λ t. (false, t);
  }

  -- The rules of `_initialize_TCP`, by `name` the text of their names.
  unfoldable pub add_rules :
      (name : ℕ → List ℕ)
      → EventLoop (TcpMinnowSocket State)
      → Outcome (EventLoop (TcpMinnowSocket State))
  unfolding add_named_rule receive_rule push_rule read_rule send_rule
  add_rules name l = add_named_rule (name 0) receive_rule l >>= λ l.
      add_named_rule (name 1) push_rule l >>= λ l.
      add_named_rule (name 2) read_rule l >>= λ l. add_named_rule (name 3) send_rule l

  -- The tick after an event, if the peer is active: the new base time.
  unfoldable pub tick : ℕ → TcpMinnowSocket State → Outcome (ℕ × TcpMinnowSocket State)
  unfolding collect_segments
  tick base_time t =
      let ms = sub64 t.answers.now base_time in
      if TcpPeer.active t.tcp
      then (collect_segments (record t { tcp = TcpPeer.tick ms t.tcp }) >>= λ t'.
          adapter.tick ms t'.datagram_adapter >>= λ a.
          ok (t'.answers.now, record t' { datagram_adapter = a }))
      else ok (base_time, t)

-- A turn of the loop: what the system calls answer in it.
pub record Turn : Type 0 where
  pub answers : Answers
  pub poll : List PollFd → SystemCall (ℕ × (ℕ → Revents))
  pub getsockopt : ℕ → SystemCall (ℕ × ℕ)

module _ {State : Type 0} (adapter : Adapter State) where
  -- `_tcp_loop`, over the turns that there are: has it ended, the rules and the socket.
  unfoldable pub tcp_loop :
      (condition : TcpMinnowSocket State → Bool)
      → ℕ
      → List Turn
      → EventLoop (TcpMinnowSocket State)
      → TcpMinnowSocket State
      → Outcome (Bool × EventLoop (TcpMinnowSocket State) × TcpMinnowSocket State)
  unfolding wait_next_event is_exit tick
  tcp_loop condition base_time [] l t = ok (not (condition t), l, t)
  tcp_loop condition base_time (turn ∷ turns) l t =
      if condition t
      then (wait_next_event turn.getsockopt turn.poll l (record t { answers = turn.answers })
          >>= λ (result, l', t').
              (if is_exit result || t'.answers.abort
                then ok (true, l', t')
                else (tick adapter base_time t' >>= λ (next_time, t'').
                    tcp_loop condition next_time turns l' t'')))
      else ok (true, l, t)

  -- `_initialize_TCP`: the rules, and the socket with a new peer.
  unfoldable pub initialize_tcp :
      (name : ℕ → List ℕ)
      → TcpConfig
      → (random : ℕ) → FdWrapper
      → State
      → Answers
      → Outcome (EventLoop (TcpMinnowSocket State) × TcpMinnowSocket State)
  unfolding add_rules
  initialize_tcp name config random thread_data a answers =
      add_rules adapter name (EventLoop.new (TcpMinnowSocket State)) >>= λ l. ok (
        l,
        record {
          thread_data = thread_data;
          datagram_adapter = a;
          tcp = TcpPeer.new config random;
          outgoing_segments = [];
          inbound_shutdown = false;
          outbound_shutdown = false;
          fully_acked = false;
          answers = answers;
          taken = [];
          given = [];
        },
      )

  unfoldable pub check_syn : TcpMinnowSocket State → Outcome (TcpMinnowSocket State)
  check_syn t = if t.tcp.sender.sequence_numbers_in_flight == 1 then ok t else err runtime_error

  -- `connect`; has `_tcp` a value already?
  unfoldable pub connect :
      (initialized : Bool) (name : ℕ → List ℕ)
      → TcpConfig
      → (random : ℕ) → FdAdapterConfig
      → ℕ
      → List Turn
      → FdWrapper
      → State
      → Answers
      → Outcome (Bool × EventLoop (TcpMinnowSocket State) × TcpMinnowSocket State)
  unfolding initialize_tcp push collect_segments check_syn tcp_loop
  connect initialized name config random c_ad base_time turns thread_data a answers =
      if initialized
      then err runtime_error
      else (initialize_tcp name config random thread_data a answers >>= λ (l, t).
          push (record t { datagram_adapter = adapter.set_config c_ad t.datagram_adapter }) >>= λ t.
          collect_segments t >>= λ t. check_syn t >>= λ t.
          tcp_loop (λ t. t.tcp.sender.sequence_numbers_in_flight == 1) base_time turns l t)

  -- Is the handshake of the passive side still going on?
  unfoldable pub is_accepting : TcpMinnowSocket State → Bool
  is_accepting t =
      not (TcpPeer.peer_has_ackno t.tcp) || not (t.tcp.sender.sequence_numbers_in_flight == 0)

  unfoldable pub listen_and_accept :
      (initialized : Bool) (name : ℕ → List ℕ)
      → TcpConfig
      → (random : ℕ) → FdAdapterConfig
      → ℕ
      → List Turn
      → FdWrapper
      → State
      → Answers
      → Outcome (Bool × EventLoop (TcpMinnowSocket State) × TcpMinnowSocket State)
  unfolding initialize_tcp is_accepting tcp_loop
  listen_and_accept initialized name config random c_ad base_time turns thread_data a answers =
      if initialized
      then err runtime_error
      else (initialize_tcp name config random thread_data a answers >>= λ (l, t).
          tcp_loop is_accepting base_time turns l (record t {
            datagram_adapter =
                adapter.set_listening true (adapter.set_config c_ad t.datagram_adapter);
          }))
