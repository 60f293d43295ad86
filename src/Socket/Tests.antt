-- ===== src/Socket/Tests.antt =====
-- A socket that sends and receives.
use os_stream_socket.Base.{ℕ, Option, none, some, ◌≡◌, refl, [], ◌∷◌, true, false, ok}
use os_stream_socket.FileDescriptor.{FdWrapper, returned, failed, eagain}
use os_stream_socket.Socket.{shut_rdwr, shutdown, recv}

abbrev source : ℕ
source = 9

abbrev socket : FdWrapper
socket = record {
  fd = 3;
  eof = false;
  closed = false;
  non_blocking = true;
  read_count = 0;
  write_count = 0;
}

recv_two :
    recv none (returned (5 ∷ 6 ∷ [], some source)) socket
    ≡ ok (5 ∷ 6 ∷ [], some source, record socket { read_count = 1 })
unfolding recv
recv_two = refl

abbrev nowhere : Option ℕ
nowhere = none

-- A call that would block counts as a read of an empty datagram.
recv_blocked :
    recv nowhere (failed eagain) socket ≡ ok ([], nowhere, record socket { read_count = 1 })
unfolding recv
recv_blocked = refl

shutdown_both :
    shutdown shut_rdwr (returned 0) socket ≡ ok (record socket { read_count = 1; write_count = 1 })
unfolding shutdown
shutdown_both = refl
