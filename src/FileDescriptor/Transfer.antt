-- ===== src/FileDescriptor/Transfer.antt =====
-- What reading and writing do with the bytes.
use os_stream_socket.Base.{
  ℕ, ◌≤◌, ◌<◌, ◌≡◌, refl, sym, ap, ◌∙◌, List, [], ◌∷◌, ◌++◌, true, false, ltb, length, take, drop,
  flatten, length-append, length-drop, take-append-drop, eq_nil_of_length, ok, err, runtime_error,
  arith,
}
use os_stream_socket.FileDescriptor.{
  FdWrapper, SystemCall, returned, failed, Errno, is_again, read, readv, write, fill, size_last,
  sized, register_read, register_write, check_system_call,
}

-- Filling loses no byte that there is room for.
pub flatten-fill :
    (bs : List (List ℕ)) (got : List ℕ)
    → length got ≤ length (flatten bs)
    → flatten (fill bs got) ≡ got
unfolding fill
flatten-fill [] got h = sym (eq_nil_of_length got (omega arith))
flatten-fill (b ∷ bs) got h =
    ap (λ xs. take (length b) got ++ xs)
      (flatten-fill bs (drop (length b) got)
        (omega (arith, length-drop (length b) got, length-append b (flatten bs))))
    ∙ take-append-drop (length b) got

-- A vector of buffers that is read into holds the bytes that came, in order.
pub readv_lem :
    (got : List ℕ) (b : List ℕ) (bs : List (List ℕ)) (w : FdWrapper)
    → length got ≤ length (flatten (size_last (b ∷ bs)))
    → (bufs : List (List ℕ)) × (readv (returned got) (b ∷ bs) w ≡ ok (bufs, register_read w))
      × (flatten bufs ≡ got)
unfolding readv
readv_lem got b bs w h =
    let fits : ltb (length (flatten (size_last (b ∷ bs)))) (length got) ≡ false = ground arith in
    (fill (size_last (b ∷ bs)) got, rw fits refl, flatten-fill (size_last (b ∷ bs)) got h)

-- A call that would block leaves the whole buffer as it was.
pub read_again :
    (errno : Errno) (buffer : List ℕ) (w : FdWrapper)
    → w.non_blocking ≡ true
    → is_again errno ≡ true
    → read (failed errno) buffer w ≡ ok (sized buffer, w)
unfolding read
read_again errno buffer w n a = rw (a) (simp n)

-- A call of `writev` that would block throws, although it is let through as 0 before.
pub write_again :
    (errno : Errno) (buffers : List (List ℕ)) (w : FdWrapper)
    → is_again errno ≡ true
    → 0 < length (flatten buffers)
    → write (failed errno) buffers w ≡ err runtime_error
unfolding write check_system_call
write_again errno buffers w a h = ground (arith, a, h)

-- What `write` returns is at most what there is to write, and is no 0 unless that is.
pub record Written (n : ℕ) (buffers : List (List ℕ)) (w w' : FdWrapper) : Type 0 where
  pub fits : n ≤ length (flatten buffers)
  pub some_of_it : 0 < length (flatten buffers) → 0 < n
  pub counted : w' ≡ register_write w

pub write-Written :
    (result : SystemCall ℕ) (buffers : List (List ℕ)) (n : ℕ) (w w' : FdWrapper)
    → write result buffers w ≡ ok (n, w')
    → Written n buffers w w'
unfolding write check_system_call
write-Written (returned k) buffers n w w' e = record {
  fits = ground (arith, e);
  some_of_it = ground (arith, e);
  counted = ground (arith, e);
}
write-Written (failed errno) buffers n w w' e = record {
  fits = ground (arith, e);
  some_of_it = ground (arith, e);
  counted = ground (arith, e);
}
