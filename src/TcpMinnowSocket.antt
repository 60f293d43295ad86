-- ===== src/TcpMinnowSocket.antt =====
-- The socket over a TCP peer, util/tcp_minnow_socket.hh and util/tcp_minnow_socket.cc, as the thread of the
-- peer sees it from `_initialize_TCP` until `_tcp` is reset: `_tcp` has a value in between. The adapter is a
-- parameter, as it is a template parameter in the source; what the system calls on the stream socket to the
-- owner answer, and the time that has gone by, are arguments. The bytes that have come from the owner and
-- gone to it are kept next to the source's state.
pub mod Loop
pub mod Owner
pub mod Collect
mod Tests
use os_stream_socket.Base.{
  ℕ, zero, suc, ◌+◌, List, [], ◌∷◌, ◌++◌, Bool, true, false, not, ◌&&◌, ◌||◌, ◌==◌, ltb,
  if◌then◌else◌, length, sub64, Option, none, some, Outcome, ok, err, runtime_error, out_of_fuel,
  ◌>>=◌,
}
use os_stream_socket.ByteStream.{ByteStream}
use os_stream_socket.ByteStream
use os_stream_socket.TcpSegment.{TcpSegment}
use os_stream_socket.TcpPeer.{TcpPeer, TcpConfig}
use os_stream_socket.TcpPeer
use os_stream_socket.TcpOverIp.{FdAdapterConfig}
use os_stream_socket.FileDescriptor.{FdWrapper, SystemCall}
use os_stream_socket.EventLoop
use os_stream_socket.EventLoop.{
  EventLoop, Result, success, timeout, exit, FdRule, PollFd, Revents, add_named_rule,
  wait_next_event,
}
use os_stream_socket.StreamCopy.{pull, pour, shutdown_write, is_exit}

-- What is used of the adapter.
pub record Adapter (State : Type 0) : Type 0 where
  pub fd : State → FdWrapper
  pub read : State → Outcome (Option TcpSegment × State)
  pub write : TcpSegment → State → Outcome State
  pub tick : ℕ → State → Outcome State
  pub set_config : FdAdapterConfig → State → State
  pub set_listening : Bool → State → State

-- What the calls on the stream socket to the owner return in a turn of the loop, and the abort flag, which
-- the owner sets, and the time after it.
pub record Answers : Type 0 where
  pub read_data : SystemCall (List ℕ)
  pub write_data : SystemCall ℕ
  pub shutdown_data : SystemCall ℕ
  pub abort : Bool
  pub now : ℕ

pub record TcpMinnowSocket (State : Type 0) : Type 0 where
  pub thread_data : FdWrapper
  pub datagram_adapter : State
  pub tcp : TcpPeer
  pub outgoing_segments : List TcpSegment
  pub inbound_shutdown : Bool
  pub outbound_shutdown : Bool
  pub fully_acked : Bool
  pub answers : Answers
  pub taken : List ℕ
  pub given : List ℕ

-- The loop of `collect_segments`: the peer, and the queue.
unfoldable pub collect_loop : ℕ → TcpPeer → List TcpSegment → Outcome (TcpPeer × List TcpSegment)
collect_loop zero p queue = err out_of_fuel
collect_loop (suc fuel) p queue = TcpPeer.maybe_send p >>= λ (seg, p'). elim seg [
  | none ↦ ok (p', queue)
  | some s ↦ collect_loop fuel p' (queue ++ s ∷ [])
]

-- A round for each message that is queued or may come of the bytes that are buffered, for a SYN, a FIN and an
-- empty message, and the last one.
unfoldable pub collect_fuel : TcpPeer → ℕ
collect_fuel p = length p.sender.send_messages + length p.outbound_stream.stream + 5

-- Rule 2 when the stream of the owner has ended.
unfoldable pub note_shutdown : FdWrapper → Bool → Bool
note_shutdown fd shutdown = if fd.eof then true else shutdown

-- Has the inbound stream come to its end?
unfoldable pub is_over : ByteStream → Bool
is_over s = ByteStream.is_finished s || ByteStream.has_error s

module _ {State : Type 0} where
  unfoldable pub collect_segments : TcpMinnowSocket State → Outcome (TcpMinnowSocket State)
  unfolding collect_loop collect_fuel
  collect_segments t =
      collect_loop (collect_fuel t.tcp) t.tcp t.outgoing_segments >>= λ (tcp, queue).
      ok (record t { tcp = tcp; outgoing_segments = queue })

  unfoldable pub push : TcpMinnowSocket State → Outcome (TcpMinnowSocket State)
  push t = TcpPeer.push t.tcp >>= λ tcp. ok (record t { tcp = tcp })

  -- The flag behind the debugging output.
  unfoldable pub note_acked : TcpMinnowSocket State → TcpMinnowSocket State
  note_acked t = record t {
    fully_acked =
        t.fully_acked || (t.thread_data.eof && (t.tcp.sender.sequence_numbers_in_flight == 0));
  }

  unfoldable pub received :
      Option TcpSegment → TcpMinnowSocket State → Outcome (TcpMinnowSocket State)
  unfolding collect_segments
  received none t = ok t
  received (some seg) t =
      TcpPeer.receive seg t.tcp >>= λ tcp. collect_segments (record t { tcp = tcp })

  -- Rule 2: what the owner writes goes into the outbound stream.
  unfoldable pub push_bytes : TcpMinnowSocket State → Outcome (TcpMinnowSocket State)
  unfolding pull note_shutdown push collect_segments
  push_bytes t = pull t.answers.read_data t.thread_data t.tcp.outbound_stream >>= λ (bytes, fd, s).
      push (record t {
        thread_data = fd;
        tcp = record (t.tcp) { outbound_stream = s };
        outbound_shutdown = note_shutdown fd t.outbound_shutdown;
        taken = t.taken ++ bytes;
      })
      >>= λ t'. collect_segments t'

  unfoldable pub may_push : TcpMinnowSocket State → Bool
  may_push t =
      TcpPeer.active t.tcp
      && not t.outbound_shutdown
      && ltb 0 (ByteStream.available_capacity t.tcp.outbound_stream)

  -- The cancellation of rule 2.
  unfoldable pub end_outbound : TcpMinnowSocket State → TcpMinnowSocket State
  end_outbound t = record t {
    tcp = record (t.tcp) { outbound_stream = ByteStream.close t.tcp.outbound_stream };
    outbound_shutdown = true;
  }

  unfoldable pub shutdown_if : Bool → TcpMinnowSocket State → Outcome (TcpMinnowSocket State)
  unfolding shutdown_write
  shutdown_if over t =
      if over
      then (shutdown_write t.answers.shutdown_data t.thread_data >>= λ fd.
          ok (record t { thread_data = fd; inbound_shutdown = true }))
      else ok t

  -- Rule 3: the inbound stream goes to the owner.
  unfoldable pub read_bytes : TcpMinnowSocket State → Outcome (TcpMinnowSocket State)
  unfolding pour is_over shutdown_if
  read_bytes t = pour t.answers.write_data t.thread_data t.tcp.inbound_stream >>= λ (bytes, fd, s).
      shutdown_if (is_over s) (record t {
        thread_data = fd;
        tcp = record (t.tcp) { inbound_stream = s };
        given = t.given ++ bytes;
      })

  unfoldable pub may_read : TcpMinnowSocket State → Bool
  unfolding is_over
  may_read t =
      not (ByteStream.bytes_buffered t.tcp.inbound_stream == 0)
      || (is_over t.tcp.inbound_stream && not t.inbound_shutdown)

  unfoldable pub may_send : TcpMinnowSocket State → Bool
  may_send t = not (length t.outgoing_segments == 0)

  module _ (adapter : Adapter State) where
    -- Rule 1: from the network to the peer.
    unfoldable pub receive_segment : TcpMinnowSocket State → Outcome (TcpMinnowSocket State)
    unfolding received note_acked
    receive_segment t = adapter.read t.datagram_adapter >>= λ (seg, a).
        received seg (record t { datagram_adapter = a }) >>= λ t'. ok (note_acked t')

    -- Rule 4: the loop over the queue.
    unfoldable pub write_all : List TcpSegment → State → Outcome State
    write_all [] a = ok a
    write_all (seg ∷ rest) a = adapter.write seg a >>= λ a'. write_all rest a'

    unfoldable pub send_segments : TcpMinnowSocket State → Outcome (TcpMinnowSocket State)
    unfolding write_all
    send_segments t = write_all t.outgoing_segments t.datagram_adapter >>= λ a.
        ok (record t { datagram_adapter = a; outgoing_segments = [] })
