-- ===== src/StreamCopy/Conserve.antt =====
-- No byte is lost, repeated or reordered on the way.
use os_stream_socket.Base.{
  le→ltb, sub64, ℕ, zero, suc, ◌≤◌, ◌<◌, ◌≡◌, refl, ap, List, [], ◌∷◌, ◌++◌, append-nil, Bool, true,
  false, not, ◌&&◌, ◌==◌, ltb, if◌then◌else◌, length, take, replicate, length-replicate,
  take-append-drop, take_all, min, ok, err, runtime_error, OnReturn, bind-OnReturn, if-OnReturn,
  OnReturn-true, arith,
}
use os_stream_socket.ByteStream.{ByteStream}
use os_stream_socket.ByteStream
use os_stream_socket.ByteStream.Invariant.{
  new-IsValid, available_capacity_lem, bytes_buffered_lem, push-IsValid, pop-IsValid, close-IsValid,
}
use os_stream_socket.FileDescriptor.{
  FdWrapper, SystemCall, returned, failed, is_again, read, write, sized, note_eof, register_read,
  check_system_call,
}
use os_stream_socket.StreamCopy.{pull, pour}

-- A read that does not ask to be repeated.
abbrev pub IsDelivery : SystemCall (List ℕ) → Type 0
IsDelivery (returned bytes) = Unit
IsDelivery (failed errno) = is_again errno ≡ false

sized-replicate : (n : ℕ) → 0 < n → sized (replicate n 0) ≡ replicate n 0
unfolding sized
sized-replicate zero h = absurd (omega arith)
sized-replicate (suc n) h = refl

-- What is read goes to the end of the stream, all of it.
abbrev pub Pulled : ByteStream → List ℕ × FdWrapper × ByteStream → Type 0
Pulled s (bytes, fd, s') = ByteStream.Invariant.IsValid s' × (s'.stream ≡ s.stream ++ bytes)

push-all :
    (bytes : List ℕ) (s : ByteStream)
    → length bytes ≤ ByteStream.available_capacity s
    → (ByteStream.push bytes s).stream ≡ s.stream ++ bytes
unfolding ByteStream.push ByteStream.available_capacity
push-all bytes s h =
    ap (λ xs. s.stream ++ xs)
      (take_all (min (length bytes) (sub64 s.capacity (length s.stream))) bytes (omega (arith, h)))

push-Pulled :
    (bytes : List ℕ) (eof : Bool) (fd : FdWrapper) (s : ByteStream)
    → ByteStream.Invariant.IsValid s
    → length bytes ≤ ByteStream.available_capacity s
    → Pulled s (
      bytes,
      fd,
      if eof then ByteStream.close (ByteStream.push bytes s) else ByteStream.push bytes s,
    )
push-Pulled bytes true fd s v h = (
  close-IsValid (ByteStream.push bytes s) (push-IsValid bytes s v),
  unfold ByteStream.close in push-all bytes s h,
)
push-Pulled bytes false fd s v h = (push-IsValid bytes s v, push-all bytes s h)

-- What is read fits the buffer that is read into.
read-Fits :
    (answer : SystemCall (List ℕ)) (buffer : List ℕ) (fd : FdWrapper)
    → sized buffer ≡ buffer
    → IsDelivery answer
    → OnReturn (λ (bytes, fd'). length bytes ≤ length buffer) (read answer buffer fd)
unfolding read
read-Fits (failed errno) buffer fd same h =
    if-OnReturn _ (fd.non_blocking && is_again errno) (ok (sized buffer, fd)) (err runtime_error)
      (λ e. absurd (ground (arith, e, h))) (λ _. tt)
read-Fits (returned bytes) buffer fd same h =
    if-OnReturn _ (ltb (length (sized buffer)) (length bytes)) (err runtime_error)
      (ok (bytes, note_eof (length bytes) (register_read fd))) (λ _. tt)
      (λ e. ground (arith, e, ap length same))

pub pull-Pulled :
    (answer : SystemCall (List ℕ)) (fd : FdWrapper) (s : ByteStream)
    → ByteStream.Invariant.IsValid s
    → 0 < ByteStream.available_capacity s
    → IsDelivery answer
    → OnReturn (Pulled s) (pull answer fd s)
unfolding pull
pull-Pulled answer fd s v room h =
    let buffer = replicate (ByteStream.available_capacity s) 0 in
    bind-OnReturn (λ (bytes, fd'). length bytes ≤ length buffer) (Pulled s) (read answer buffer fd)
      _ (read-Fits answer buffer fd (sized-replicate (ByteStream.available_capacity s) room) h)
      (λ (bytes, fd') fits.
        push-Pulled bytes fd'.eof fd' s v
          (omega (arith, fits, length-replicate {A = ℕ} (ByteStream.available_capacity s) 0)))

-- What is written leaves the front of the stream.
abbrev pub Poured : ByteStream → List ℕ × FdWrapper × ByteStream → Type 0
Poured s (bytes, fd, s') = ByteStream.Invariant.IsValid s' × (bytes ++ s'.stream ≡ s.stream)

write-Fits :
    (answer : SystemCall ℕ) (s : ByteStream) (fd : FdWrapper)
    → OnReturn (λ (n, fd'). n ≤ length s.stream) (write answer (s.stream ∷ []) fd)
unfolding write
write-Fits answer s fd =
    bind-OnReturn (λ _. Unit {0}) _ (check_system_call fd answer) _
      (OnReturn-true (check_system_call fd answer))
      (λ n _.
        if-OnReturn _ (n == 0 && not (length (s.stream ++ []) == 0)) (err runtime_error) _ (λ _. tt)
          (λ _.
            if-OnReturn _ (ltb (length (s.stream ++ [])) n) (err runtime_error) _ (λ _. tt)
              (λ e. ground (arith, e, ap length (append-nil s.stream)))))

stream-pop :
    (n : ℕ) (s : ByteStream)
    → n ≤ length s.stream
    → take n s.stream ++ (ByteStream.pop n s).stream ≡ s.stream
unfolding ByteStream.pop
stream-pop n s h = rw (le→ltb (length s.stream) n h) (take-append-drop n s.stream)

pub pour-Poured :
    (answer : SystemCall ℕ) (fd : FdWrapper) (s : ByteStream)
    → ByteStream.Invariant.IsValid s
    → OnReturn (Poured s) (pour answer fd s)
unfolding pour ByteStream.peek
pour-Poured answer fd s v =
    if-OnReturn (Poured s) (ByteStream.bytes_buffered s == 0) (ok ([], fd, s)) _ (λ _. (v, refl))
      (λ _.
        bind-OnReturn (λ (n, fd'). n ≤ length s.stream) (Poured s) (write answer (s.stream ∷ []) fd)
          _ (write-Fits answer s fd) (λ (n, fd') h. (pop-IsValid n s v, stream-pop n s h)))
