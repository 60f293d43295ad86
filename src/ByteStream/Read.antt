-- ===== src/ByteStream/Read.antt =====
-- The helper `read` of src/byte_stream_helpers.cc.
use os_stream_socket.Base.{
  ℕ, zero, suc, ◌-◌, ◌≤◌, ◌<◌, ◌^◌, ◌≡◌, refl, ◌∙◌, List, [], min, length, take, length-take,
  length-drop, eq_nil_of_length, ◌⊎◌, sub64, ok, arith,
}
use os_stream_socket.ByteStream.{ByteStream, pop, peek, read_round, read_loop, read}
use os_stream_socket.ByteStream.Invariant.{IsValid, pop-IsValid, bytes_buffered_lem}

-- The loop ends when the stream is empty or `out` holds what was asked for.
read_loop_done :
    (fuel len : ℕ) (out : List ℕ) (s : ByteStream)
    → IsValid s
    → (length s.stream ≡ 0) ⊎ (len ≤ length out)
    → read_loop (suc fuel) len out s ≡ ok (out, s)
unfolding read_loop
read_loop_done fuel len out s v h = ground (arith, bytes_buffered_lem s v)

read_loop_more :
    (fuel len : ℕ) (out : List ℕ) (s : ByteStream)
    → IsValid s
    → 0 < length s.stream
    → length out < len
    → read_loop (suc fuel) len out s
      ≡ read_loop fuel len (read_round len out s).0 (read_round len out s).1
unfolding read_loop
read_loop_more fuel len out s v h k = ground (arith, bytes_buffered_lem s v)

pop-zero : (s : ByteStream) → IsValid s → pop 0 s ≡ s
unfolding pop
pop-zero s v = ground arith

-- The first round takes all that it can.
read_round_lem :
    (len : ℕ) (s : ByteStream)
    → len < 2 ^ 64
    → read_round len [] s ≡ (take len s.stream, pop (min len (length s.stream)) s)
unfolding read_round peek
read_round_lem len s w =
    let e : sub64 len 0 ≡ len = omega arith in rw (e, length-take len s.stream) refl

-- After it the buffer is empty or enough is read.
round_ends :
    (len : ℕ) (s : ByteStream)
    → (length (pop (min len (length s.stream)) s).stream ≡ 0) ⊎ (len ≤ length (take len s.stream))
unfolding pop
round_ends len s =
    ground (arith, length-take len s.stream, length-drop (min len (length s.stream)) s.stream)

read_start : (len : ℕ) (s : ByteStream) → read len s ≡ read_loop (suc (length s.stream)) len [] s
unfolding read
read_start len s = refl

read_loop_nothing :
    (len : ℕ) (s : ByteStream)
    → IsValid s
    → min len (length s.stream) ≡ 0
    → read_loop (suc (length s.stream)) len [] s
      ≡ ok (take len s.stream, pop (min len (length s.stream)) s)
read_loop_nothing len s v e =
    read_loop_done (length s.stream) len [] s v (ground arith)
    ∙ rw
        (
          e,
          pop-zero s v,
          eq_nil_of_length (take len s.stream) (omega (arith, length-take len s.stream)),
        )
        refl

read_loop_some :
    (len k : ℕ) (s : ByteStream)
    → IsValid s
    → len < 2 ^ 64
    → 0 < len
    → length s.stream ≡ suc k
    → read_loop (suc (length s.stream)) len [] s
      ≡ ok (take len s.stream, pop (min len (length s.stream)) s)
read_loop_some len k s v w pos e =
    read_loop_more (length s.stream) len [] s v (omega arith) pos
    ∙ rw (read_round_lem len s w) (
        rw e (
          read_loop_done k len (take len s.stream) (pop (min len (suc k)) s) (pop-IsValid _ s v)
            (rw e at (round_ends len s))))

-- On a valid stream and for a 64-bit `len`, `read` returns, without throwing and without running
-- out of rounds: it hands over the first `len` bytes of the buffer, or all of them if there are
-- fewer, and pops as many.
pub read_lem :
    (len : ℕ) (s : ByteStream)
    → IsValid s
    → len < 2 ^ 64
    → read len s ≡ ok (take len s.stream, pop (min len (length s.stream)) s)
read_lem len s v w = read_start len s ∙ by_size (min len (length s.stream)) refl
  where
    by_size :
        (n : ℕ)
        → min len (length s.stream) ≡ n
        → read_loop (suc (length s.stream)) len [] s
          ≡ ok (take len s.stream, pop (min len (length s.stream)) s)
    by_size zero e = read_loop_nothing len s v e
    by_size (suc n) e = read_loop_some len (length s.stream - 1) s v w (omega arith) (omega arith)
