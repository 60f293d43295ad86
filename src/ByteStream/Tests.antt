-- ===== src/ByteStream/Tests.antt =====
-- Runs of the byte stream, and its theorems at concrete streams.
use os_stream_socket.Base.{◌-◌, ◌^◌, ◌≡◌, refl, List, [], ◌∷◌, ◌++◌, true, false, arith, ok, min}
use os_stream_socket.ByteStream.{ByteStream, push, pop, read, read_loop, peek}
use os_stream_socket.ByteStream.Invariant.{IsValid}
use os_stream_socket.ByteStream.Order.{
  Op, pushes, pops, closes, run, all_accepted, all_removed, run_order,
}
use os_stream_socket.ByteStream.Read.{read_lem}

-- Room for three bytes, two of them taken, and counters about to wrap.
abbrev nearly_full : ByteStream
nearly_full = record {
  capacity = 3;
  stream = 7 ∷ 8 ∷ [];
  bytes_read = 2 ^ 64 - 1;
  bytes_write = 1;
  error = false;
  closed = false;
}

nearly_full-IsValid : IsValid nearly_full
nearly_full-IsValid = omega arith

abbrev script : List Op
script = pushes (1 ∷ 2 ∷ []) ∷ pops 2 ∷ pops 5 ∷ closes ∷ []

push_is_cut : (push (1 ∷ 2 ∷ 3 ∷ []) nearly_full).stream ≡ 7 ∷ 8 ∷ 1 ∷ []
unfolding push
push_is_cut = refl

pop_too_much_fails : (pop 3 nearly_full).error ≡ true
unfolding pop
pop_too_much_fails = refl

read_all : read 9 nearly_full ≡ ok (7 ∷ 8 ∷ [], pop 2 nearly_full)
unfolding read read_loop pop
read_all = refl

run_order_example :
    all_removed nearly_full script ++ peek (run nearly_full script)
    ≡ peek nearly_full ++ all_accepted nearly_full script
run_order_example = run_order script nearly_full

read_lem_example : read 1 nearly_full ≡ ok (7 ∷ [], pop (min 1 2) nearly_full)
read_lem_example = read_lem 1 nearly_full nearly_full-IsValid (omega arith)
