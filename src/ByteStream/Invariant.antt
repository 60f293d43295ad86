-- ===== src/ByteStream/Invariant.antt =====
-- The representation invariant of a byte stream and what each operation does under it.
use os_stream_socket.Base.{
  ℕ, ◌+◌, ◌-◌, ◌^◌, ◌≤◌, ◌<◌, ◌≡◌, List, [], true, min, length, take, length-append, length-take,
  length-drop, eq_nil_of_length, add64, sub64, arith,
}
use os_stream_socket.ByteStream.{
  ByteStream, new, push, pop, close, set_error, available_capacity, bytes_buffered, is_finished,
  peek,
}

-- The buffer fits, and the two counters, which may wrap, differ by its size.
pub record IsValid (s : ByteStream) : Type 0 where
  pub fits : length s.stream ≤ s.capacity
  pub small : s.capacity < 2 ^ 64
  pub read_word : s.bytes_read < 2 ^ 64
  pub counted : add64 s.bytes_read (length s.stream) ≡ s.bytes_write

pub new-IsValid : (capacity : ℕ) → capacity < 2 ^ 64 → IsValid (new capacity)
unfolding new
new-IsValid capacity h = omega arith

-- What `available_capacity` returns: the free room, with no wrap.
pub available_capacity_lem :
    (s : ByteStream) → IsValid s → available_capacity s ≡ s.capacity - length s.stream
unfolding available_capacity
available_capacity_lem s v = omega arith

pub bytes_buffered_lem : (s : ByteStream) → IsValid s → bytes_buffered s ≡ length s.stream
unfolding bytes_buffered
bytes_buffered_lem s v = omega arith

pub length_stream-push :
    (bytes : List ℕ) (s : ByteStream)
    → IsValid s
    → length (push bytes s).stream
      ≡ length s.stream + min (length bytes) (s.capacity - length s.stream)
unfolding push
length_stream-push bytes s v = omega (
  arith,
  length-append s.stream (take (min (length bytes) (sub64 s.capacity (length s.stream))) bytes),
  length-take (min (length bytes) (sub64 s.capacity (length s.stream))) bytes,
)

pub push-IsValid : (bytes : List ℕ) (s : ByteStream) → IsValid s → IsValid (push bytes s)
push-IsValid bytes s v = record {
  fits = unfold push in omega (arith, length_stream-push bytes s v);
  small = unfold push in v.small;
  read_word = unfold push in v.read_word;
  counted = unfold push in omega (arith, length_stream-push bytes s v);
}

pub pop-IsValid : (len : ℕ) (s : ByteStream) → IsValid s → IsValid (pop len s)
unfolding pop
pop-IsValid len s v = ground (arith, length-drop len s.stream)

pub close-IsValid : (s : ByteStream) → IsValid s → IsValid (close s)
unfolding close
close-IsValid s v = omega arith

pub set_error-IsValid : (s : ByteStream) → IsValid s → IsValid (set_error s)
unfolding set_error
set_error-IsValid s v = omega arith

-- A valid stream reports that it is finished exactly when it is closed and nothing is left to
-- read, although the test compares two counters that may have wrapped.
pub is_finished_iff :
    (s : ByteStream)
    → IsValid s
    → (is_finished s ≡ true → (s.closed ≡ true) × (peek s ≡ []))
      × (s.closed ≡ true → peek s ≡ [] → is_finished s ≡ true)
unfolding is_finished peek
is_finished_iff s v = (
  (λ h. (ground arith, eq_nil_of_length s.stream (ground arith))),
  (λ c e. let empty : length s.stream ≡ 0 = ground arith in ground arith),
)
