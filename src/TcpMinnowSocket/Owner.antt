-- ===== src/TcpMinnowSocket/Owner.antt =====
-- The bytes between the owner and the peer.
use os_stream_socket.Base.{
  ℕ, ◌+◌, ◌^◌, ◌<◌, ◌≡◌, ap, sym, subst, ◌∙◌, List, [], ◌++◌, append_assoc, length, length-append,
  Bool, ok, OnReturn, bind-OnReturn, if-OnReturn, OnReturn-true, arith,
}
use os_stream_socket.ByteStream.{ByteStream}
use os_stream_socket.ByteStream
use os_stream_socket.FileDescriptor.{FdWrapper}
use os_stream_socket.TcpSegment.{TcpSegment}
use os_stream_socket.TcpSender.Push.{left}
use os_stream_socket.TcpSender.Invariant.{payloads}
use os_stream_socket.TcpPeer.{TcpPeer}
use os_stream_socket.StreamCopy.{pull, pour, shutdown_write}
use os_stream_socket.StreamCopy.Conserve.{IsDelivery, Pulled, Poured, pull-Pulled, pour-Poured}
use os_stream_socket.TcpMinnowSocket.{
  TcpMinnowSocket, push, push_bytes, read_bytes, shutdown_if, is_over, note_shutdown,
}
use os_stream_socket.TcpMinnowSocket.Collect.{
  IsLive, pending, carried, push-Pushes, collect_segments-Collected,
}

with_bytes-IsLive :
    (p : TcpPeer) (bytes : List ℕ) (fd : FdWrapper) (s : ByteStream)
    → IsLive p
    → p.sender.next_abs_seqno + left p.sender p.outbound_stream + length bytes + 2 ^ 16 < 2 ^ 64
    → Pulled p.outbound_stream (bytes, fd, s)
    → IsLive (record p { outbound_stream = s })
with_bytes-IsLive p bytes fd s v far (valid, e) = record {
  sending = v.sending;
  outbound = valid;
  ready = v.ready;
  far = omega (arith, far, ap length e, length-append p.outbound_stream.stream bytes);
}

module _ {State : Type 0} where
  -- What the owner has got, and then what is in the stream for it.
  abbrev pub inbound_bytes : TcpMinnowSocket State → List ℕ
  inbound_bytes t = t.given ++ t.tcp.inbound_stream.stream

  abbrev Same : TcpMinnowSocket State → TcpMinnowSocket State → Type 0
  Same t t' =
      ByteStream.Invariant.IsValid t'.tcp.inbound_stream × (inbound_bytes t' ≡ inbound_bytes t)

  shutdown_if-Same :
      (b : Bool) (t u : TcpMinnowSocket State) → Same t u → OnReturn (Same t) (shutdown_if b u)
  unfolding shutdown_if
  shutdown_if-Same b t u h =
      if-OnReturn (Same t) b _ (ok u)
        (λ _.
          bind-OnReturn (λ _. Unit {0}) (Same t)
            (shutdown_write u.answers.shutdown_data u.thread_data) _
            (OnReturn-true (shutdown_write u.answers.shutdown_data u.thread_data)) (λ fd _. h))
        (λ _. h)

  pub read_bytes-Same :
      (t : TcpMinnowSocket State)
      → ByteStream.Invariant.IsValid t.tcp.inbound_stream
      → OnReturn (Same t) (read_bytes t)
  unfolding read_bytes
  read_bytes-Same t v =
      bind-OnReturn (Poured t.tcp.inbound_stream) (Same t)
        (pour t.answers.write_data t.thread_data t.tcp.inbound_stream) _
        (pour-Poured t.answers.write_data t.thread_data t.tcp.inbound_stream v)
        (λ (bytes, fd, s) (valid, e).
          shutdown_if-Same (is_over s) t
            (record t {
              thread_data = fd;
              tcp = record (t.tcp) { inbound_stream = s };
              given = t.given ++ bytes;
            })
            (valid, append_assoc t.given bytes s.stream ∙ ap (λ l. t.given ++ l) e))

  -- What `push_bytes` does with the bytes that it reads.
  pub record Passed (t : TcpMinnowSocket State) (bytes : List ℕ) (t' : TcpMinnowSocket State)
      : Type 0 where
    pub live : IsLive t'.tcp
    pub taken : t'.taken ≡ t.taken ++ bytes
    pub sent :
        (segs : List TcpSegment) × (t'.outgoing_segments ≡ t.outgoing_segments ++ segs)
        × (carried segs ++ t'.tcp.outbound_stream.stream ≡ pending t.tcp ++ bytes)
    pub empty : t'.tcp.sender.send_messages ≡ []

  -- Under these conditions on the peer, also with the bytes that are read added, if there is room
  -- in the outbound stream and the read from the owner returns `bytes` and does not ask to be
  -- repeated, then the rule that pushes bytes returns: the new segments in the queue carry, in
  -- order, what was on its way before and then `bytes`, except for what is left in the outbound
  -- stream.
  pub push_bytes-Passed :
      (t : TcpMinnowSocket State) (bytes : List ℕ) (fd : FdWrapper) (s : ByteStream)
      → IsLive t.tcp
      → 0 < ByteStream.available_capacity t.tcp.outbound_stream
      → IsDelivery t.answers.read_data
      → pull t.answers.read_data t.thread_data t.tcp.outbound_stream ≡ ok (bytes, fd, s)
      → t.tcp.sender.next_abs_seqno
          + left t.tcp.sender t.tcp.outbound_stream
          + length bytes
          + 2 ^ 16
        < 2 ^ 64
      → (t' : TcpMinnowSocket State) × (push_bytes t ≡ ok t') × Passed t bytes t'
  unfolding push_bytes push
  push_bytes-Passed t bytes fd s v room h e far =
      let pulled =
        subst (OnReturn (Pulled t.tcp.outbound_stream)) e
          (pull-Pulled t.answers.read_data t.thread_data t.tcp.outbound_stream v.outbound room h) in
      let p : TcpPeer = record (t.tcp) { outbound_stream = s } in
      let (q, e', live, less, same, rest) =
        push-Pushes p (with_bytes-IsLive t.tcp bytes fd s v far pulled) in
      let u : TcpMinnowSocket State = record t {
        thread_data = fd;
        tcp = q;
        outbound_shutdown = note_shutdown fd t.outbound_shutdown;
        taken = t.taken ++ bytes;
      } in
      let (t', run, c) = collect_segments-Collected u live in
      let (segs, queued, moved) = c.drained.behind in
      (
        t',
        rw (e, e') run,
        record {
          live = c.drained.live;
          taken = ap (λ x. x.taken) c.same;
          sent = (
            segs,
            queued,
            moved
                ∙ same
                ∙ ap (λ l. payloads p.sender.send_messages ++ l) pulled.1
                ∙ sym (
                    append_assoc (payloads p.sender.send_messages) t.tcp.outbound_stream.stream
                      bytes),
          );
          empty = c.drained.empty;
        },
      )
