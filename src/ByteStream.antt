-- ===== src/ByteStream.antt =====
-- The byte stream of src/byte_stream.hh and src/byte_stream.cc, with the helper `read` of
-- src/byte_stream_helpers.cc. `Writer` and `Reader` are views of one object with no state of their
-- own, so both are functions on the record. A byte is any number: bytes are moved, never computed
-- with.
pub mod Invariant
pub mod Order
pub mod Read
mod Tests
use os_stream_socket.Base.{
  ℕ, zero, suc, min, List, [], ◌++◌, Bool, true, false, ◌&&◌, not, add64, sub64, length, take, drop,
  ltb, ◌==◌, if◌then◌else◌, Outcome, ok, err, runtime_error, out_of_fuel,
}

pub record ByteStream : Type 0 where
  pub capacity : ℕ
  pub stream : List ℕ
  pub bytes_read : ℕ
  pub bytes_write : ℕ
  pub error : Bool
  pub closed : Bool

unfoldable pub new : ℕ → ByteStream
new capacity = record {
  capacity = capacity;
  stream = [];
  bytes_read = 0;
  bytes_write = 0;
  error = false;
  closed = false;
}

-- Writer

unfoldable pub available_capacity : ByteStream → ℕ
available_capacity s = sub64 s.capacity (length s.stream)

unfoldable pub push : List ℕ → ByteStream → ByteStream
push bytes s =
    let length_write = min (length bytes) (sub64 s.capacity (length s.stream)) in
    record s {
      stream = s.stream ++ take length_write bytes;
      bytes_write = add64 s.bytes_write length_write;
    }

unfoldable pub close : ByteStream → ByteStream
close s = record s { closed = true }

unfoldable pub set_error : ByteStream → ByteStream
set_error s = record s { error = true }

unfoldable pub is_closed : ByteStream → Bool
is_closed s = s.closed

unfoldable pub bytes_pushed : ByteStream → ℕ
bytes_pushed s = s.bytes_write

-- Reader

unfoldable pub peek : ByteStream → List ℕ
peek s = s.stream

unfoldable pub is_finished : ByteStream → Bool
is_finished s = s.closed && (s.bytes_write == s.bytes_read)

unfoldable pub has_error : ByteStream → Bool
has_error s = s.error

unfoldable pub pop : ℕ → ByteStream → ByteStream
pop len s =
    if ltb (length s.stream) len
    then record s { error = true }
    else record s { stream = drop len s.stream; bytes_read = add64 s.bytes_read len }

unfoldable pub bytes_buffered : ByteStream → ℕ
bytes_buffered s = sub64 s.bytes_write s.bytes_read

unfoldable pub bytes_popped : ByteStream → ℕ
bytes_popped s = s.bytes_read

-- One round of the loop of `read`: what `out` holds after it, and the stream.
unfoldable pub read_round : ℕ → List ℕ → ByteStream → List ℕ × ByteStream
unfolding pop peek
read_round len out s =
    let view = take (sub64 len (length out)) (peek s) in (out ++ view, pop (length view) s)

-- The loop of `read`. An empty view while bytes are said to be buffered throws.
unfoldable pub read_loop : ℕ → ℕ → List ℕ → ByteStream → Outcome (List ℕ × ByteStream)
unfolding read_round bytes_buffered peek
read_loop zero len out s = err out_of_fuel
read_loop (suc fuel) len out s =
    let (out', s') = read_round len out s in
    let rest = read_loop fuel len out' s' in
    if not (bytes_buffered s == 0) && ltb (length out) len
    then (if length (peek s) == 0 then err runtime_error else rest)
    else ok (out, s)

-- Each round removes a byte at least, so one round more than there are bytes is enough.
unfoldable pub read : ℕ → ByteStream → Outcome (List ℕ × ByteStream)
unfolding read_loop
read len s = read_loop (suc (length s.stream)) len [] s
