-- ===== src/FileDescriptor.antt =====
-- File descriptors: util/file_descriptor.hh and util/file_descriptor.cc. The result of each system call is
-- an argument: what it returns, for `read` the bytes that it delivers, or the error that it sets. Every
-- throw is `err runtime_error`. A `FileDescriptor` is a handle on an `FdWrapper`, passed in and handed back.
pub mod Transfer
mod Tests
use os_stream_socket.Base.{
  ℕ, ◌+◌, ◌-◌, ◌*◌, ◌/◌, ◌%◌, List, [], ◌∷◌, ◌++◌, Bool, true, false, not, ◌&&◌, ◌==◌, ltb,
  if◌then◌else◌, length, take, drop, replicate, flatten, add32, Outcome, ok, err, runtime_error,
  ◌>>=◌,
}

-- The errors of <errno.h> that the code tells apart.
pub data Errno : Type 0 where
  eagain : Errno
  einprogress : Errno
  enotsock : Errno
  other_error : Errno

pub data SystemCall {ℓ} (Value : Type ℓ) : Type ℓ where
  returned : (value : Value) → SystemCall Value
  failed : (errno : Errno) → SystemCall Value

pub record FdWrapper : Type 0 where
  pub fd : ℕ
  pub eof : Bool
  pub closed : Bool
  pub non_blocking : Bool
  pub read_count : ℕ
  pub write_count : ℕ

-- `errno == EAGAIN or errno == EINPROGRESS`
unfoldable pub is_again : Errno → Bool
is_again eagain = true
is_again einprogress = true
is_again enotsock = false
is_again other_error = false

unfoldable pub check_system_call : FdWrapper → SystemCall ℕ → Outcome ℕ
unfolding is_again
check_system_call w (returned value) = ok value
check_system_call w (failed errno) =
    if w.non_blocking && is_again errno then ok 0 else err runtime_error

-- `flags & O_NONBLOCK`, the bit 04000.
unfoldable pub has_nonblock : ℕ → Bool
has_nonblock flags = flags / 2048 % 2 == 1

-- A negative number throws before the call of fcntl, and is no number here.
unfoldable pub new : ℕ → SystemCall ℕ → Outcome FdWrapper
unfolding check_system_call has_nonblock
new fd flags =
    let w : FdWrapper = record {
      fd = fd;
      eof = false;
      closed = false;
      non_blocking = false;
      read_count = 0;
      write_count = 0;
    } in
    check_system_call w flags >>= λ bits. ok (record w { non_blocking = has_nonblock bits })

unfoldable pub close : SystemCall ℕ → FdWrapper → Outcome FdWrapper
unfolding check_system_call
close result w = check_system_call w result >>= λ _. ok (record w { eof = true; closed = true })

abbrev pub read_buffer_size : ℕ
read_buffer_size = 16384

unfoldable pub register_read : FdWrapper → FdWrapper
register_read w = record w { read_count = add32 w.read_count 1 }

unfoldable pub register_write : FdWrapper → FdWrapper
register_write w = record w { write_count = add32 w.write_count 1 }

-- An empty buffer gets the default size.
unfoldable pub sized : List ℕ → List ℕ
sized [] = replicate read_buffer_size 0
sized (x ∷ xs) = x ∷ xs

unfoldable pub note_eof : ℕ → FdWrapper → FdWrapper
note_eof bytes_read w = if bytes_read == 0 then record w { eof = true } else w

-- `read( buffer )`: the buffer afterwards. If the call would block, it is not cut.
unfoldable pub read : SystemCall (List ℕ) → List ℕ → FdWrapper → Outcome (List ℕ × FdWrapper)
unfolding is_again sized note_eof register_read
read (returned got) buffer w =
    if ltb (length (sized buffer)) (length got)
    then err runtime_error
    else ok (got, note_eof (length got) (register_read w))
read (failed errno) buffer w =
    if w.non_blocking && is_again errno then ok (sized buffer, w) else err runtime_error

-- The last buffer gets the default size.
unfoldable pub size_last : List (List ℕ) → List (List ℕ)
size_last [] = []
size_last (b ∷ []) = replicate read_buffer_size 0 ∷ []
size_last (b ∷ c ∷ cs) = b ∷ size_last (c ∷ cs)

-- The bytes fill one buffer after the other, and each is cut to what is left for it.
unfoldable pub fill : List (List ℕ) → List ℕ → List (List ℕ)
fill [] got = []
fill (b ∷ bs) got = take (length b) got ∷ fill bs (drop (length b) got)

-- `read( buffers )`
unfoldable pub readv :
    SystemCall (List ℕ) → List (List ℕ) → FdWrapper → Outcome (List (List ℕ) × FdWrapper)
unfolding is_again size_last fill register_read
readv result [] w = ok ([], w)
readv (returned got) (b ∷ bs) w =
    if ltb (length (flatten (size_last (b ∷ bs)))) (length got)
    then err runtime_error
    else ok (fill (size_last (b ∷ bs)) got, register_read w)
readv (failed errno) (b ∷ bs) w =
    if w.non_blocking && is_again errno then ok (size_last (b ∷ bs), w) else err runtime_error

unfoldable pub write : SystemCall ℕ → List (List ℕ) → FdWrapper → Outcome (ℕ × FdWrapper)
unfolding check_system_call register_write
write result buffers w = check_system_call w result >>= λ bytes_written.
    (if bytes_written == 0 && not (length (flatten buffers) == 0)
      then err runtime_error
      else (if ltb (length (flatten buffers)) bytes_written
          then err runtime_error
          else ok (bytes_written, register_write w)))

-- The flags that are set: the bit is taken out of them, or put in.
unfoldable pub blocking_flags : Bool → ℕ → ℕ
unfolding has_nonblock
blocking_flags blocking flags =
    if has_nonblock flags
    then (if blocking then flags - 2048 else flags)
    else (if blocking then flags else flags + 2048)

unfoldable pub set_blocking :
    Bool → (get : SystemCall ℕ) → (set : ℕ → SystemCall ℕ) → FdWrapper → Outcome FdWrapper
unfolding check_system_call blocking_flags
set_blocking blocking get set w = check_system_call w get >>= λ flags.
    check_system_call w (set (blocking_flags blocking flags)) >>= λ _.
    ok (record w { non_blocking = not blocking })
