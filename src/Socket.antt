-- ===== src/Socket.antt =====
-- Sockets: util/socket.hh and util/socket.cc, over the results of the system calls, as for file descriptors.
-- An address is any value; the one that `recvfrom` leaves when it fails is an argument.
mod Tests
use os_stream_socket.Base.{
  ◌≡◌, refl, arith, ℕ, ◌+◌, List, [], ◌∷◌, Bool, true, false, not, ◌&&◌, ◌||◌, ◌==◌, ltb,
  if◌then◌else◌, length, Outcome, ok, err, runtime_error, ◌>>=◌,
}
use os_stream_socket.FileDescriptor.{
  FdWrapper, SystemCall, returned, failed, is_again, check_system_call, read_buffer_size,
  register_read, register_write,
}
use os_stream_socket.FileDescriptor

pub data How : Type 0 where
  shut_rd : How
  shut_wr : How
  shut_rdwr : How
  invalid : How

unfoldable pub count_shutdown : How → FdWrapper → Outcome FdWrapper
unfolding register_read register_write
count_shutdown shut_rd s = ok (register_read s)
count_shutdown shut_wr s = ok (register_write s)
count_shutdown shut_rdwr s = ok (register_write (register_read s))
count_shutdown invalid s = err runtime_error

unfoldable pub shutdown : How → SystemCall ℕ → FdWrapper → Outcome FdWrapper
unfolding check_system_call count_shutdown
shutdown how result s = check_system_call s result >>= λ _. count_shutdown how s

-- `getsockopt`: the length and the value of an option. A call that would block leaves the value that was
-- there `before` and the length of an int.
unfoldable pub get_option : (before : ℕ) → SystemCall (ℕ × ℕ) → FdWrapper → Outcome (ℕ × ℕ)
unfolding is_again
get_option before (returned option) s = ok option
get_option before (failed errno) s =
    if s.non_blocking && is_again errno then ok (4, before) else err runtime_error

unfoldable pub check_option : ℕ → ℕ × ℕ → Outcome (Unit {0})
check_option expected (len, value) =
    if not (len == 4) || not (value == expected) then err runtime_error else ok tt

-- The three options that a socket is checked for.
pub record Options (A : Type 0) : Type 0 where
  pub domain : A
  pub type : A
  pub protocol : A

unfoldable pub from_descriptor :
    Options (SystemCall (ℕ × ℕ)) → Options ℕ → FdWrapper → Outcome FdWrapper
unfolding get_option check_option
from_descriptor actual expected s = get_option 0 actual.domain s >>= λ domain.
    check_option expected.domain domain >>= λ _. get_option domain.1 actual.type s >>= λ type.
    check_option expected.type type >>= λ _. get_option type.1 actual.protocol s >>= λ protocol.
    check_option expected.protocol protocol >>= λ _. ok s

-- `bind`, `connect` and `listen`: the socket is as it was.
unfoldable pub call_only : SystemCall ℕ → FdWrapper → Outcome FdWrapper
unfolding check_system_call
call_only result s = check_system_call s result >>= λ _. ok s

-- What `recvfrom` gives: the whole datagram, as with MSG_TRUNC its length is returned, and its source.
unfoldable pub recv {ℓ} :
    {Address : Type ℓ}
    → Address
    → SystemCall (List ℕ × Address)
    → FdWrapper
    → Outcome (List ℕ × Address × FdWrapper)
unfolding is_again register_read
recv unset (returned (datagram, source)) s =
    if ltb read_buffer_size (length datagram)
    then err runtime_error
    else ok (datagram, source, register_read s)
recv unset (failed errno) s =
    if s.non_blocking && is_again errno then ok ([], unset, register_read s) else err runtime_error

-- `send` and `sendto`; how much has been sent is not looked at.
unfoldable pub send : SystemCall ℕ → FdWrapper → Outcome FdWrapper
unfolding check_system_call register_write
send result s = check_system_call s result >>= λ _. ok (register_write s)

-- The new socket, and the one that listens. The flags of the new descriptor and its options are read.
unfoldable pub accept :
    SystemCall ℕ
    → (flags : SystemCall ℕ) → Options (SystemCall (ℕ × ℕ))
    → Options ℕ
    → FdWrapper
    → Outcome (FdWrapper × FdWrapper)
unfolding check_system_call register_read FileDescriptor.new from_descriptor
accept result flags actual expected s = check_system_call (register_read s) result >>= λ fd.
    FileDescriptor.new fd flags >>= λ new.
    from_descriptor actual expected new >>= λ new. ok (new, register_read s)

unfoldable pub throw_if_error : SystemCall (ℕ × ℕ) → FdWrapper → Outcome (Unit {0})
unfolding get_option check_option
throw_if_error option s = get_option 0 option s >>= λ error. check_option 0 error

-- A socket that is taken has the three options that were asked for.
pub from_descriptor-options :
    (actual : Options (ℕ × ℕ)) (expected : Options ℕ) (s t : FdWrapper)
    → from_descriptor
        (record {
          domain = returned actual.domain;
          type = returned actual.type;
          protocol = returned actual.protocol;
        })
        expected
        s
      ≡ ok t
    → (t ≡ s)
      × (actual.domain.1 ≡ expected.domain)
      × (actual.type.1 ≡ expected.type)
      × (actual.protocol.1 ≡ expected.protocol)
unfolding from_descriptor get_option check_option
from_descriptor-options actual expected s t e =
    (ground (arith, e), ground (arith, e), ground (arith, e), ground (arith, e))
