-- ===== src/FileDescriptor/Tests.antt =====
-- A descriptor that reads and writes.
use os_stream_socket.Base.{◌≡◌, refl, [], ◌∷◌, true, false, ok}
use os_stream_socket.FileDescriptor.{FdWrapper, returned, failed, eagain, read, write, set_blocking}

abbrev descriptor : FdWrapper
descriptor = record {
  fd = 3;
  eof = false;
  closed = false;
  non_blocking = true;
  read_count = 0;
  write_count = 0;
}

read_two :
    read (returned (5 ∷ 6 ∷ [])) (0 ∷ 0 ∷ 0 ∷ []) descriptor
    ≡ ok (5 ∷ 6 ∷ [], record descriptor { read_count = 1 })
unfolding read
read_two = refl

read_end :
    read (returned []) (0 ∷ []) descriptor
    ≡ ok ([], record descriptor { read_count = 1; eof = true })
unfolding read
read_end = refl

-- Nothing has been read, and three bytes are in the buffer.
read_blocked : read (failed eagain) (0 ∷ 0 ∷ 0 ∷ []) descriptor ≡ ok (0 ∷ 0 ∷ 0 ∷ [], descriptor)
unfolding read
read_blocked = refl

write_part :
    write (returned 1) ((5 ∷ 6 ∷ []) ∷ []) descriptor
    ≡ ok (1, record descriptor { write_count = 1 })
unfolding write
write_part = refl

unblock :
    set_blocking true (returned 2050) (λ flags. returned flags) descriptor
    ≡ ok (record descriptor { non_blocking = false })
unfolding set_blocking
unblock = refl
