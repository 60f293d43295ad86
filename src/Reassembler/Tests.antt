-- ===== src/Reassembler/Tests.antt =====
-- Runs of the reassembler, and its theorems at concrete substrings.
use os_stream_socket.Base.{
  ℕ, zero, suc, ◌+◌, ◌<◌, ◌≤◌, ◌≡◌, ◌⊎◌, refl, [], ◌∷◌, ◌++◌, true, false, get_or, arith, ok, err,
  out_of_bounds,
}
use os_stream_socket.ByteStream
use os_stream_socket.ByteStream.{ByteStream, peek}
use os_stream_socket.Reassembler
use os_stream_socket.Reassembler.{
  Reassembler, insert, initialize, store_substring, assemble, finish,
}
use os_stream_socket.Reassembler.Flags.{leading}
use os_stream_socket.Reassembler.Substring.{room_of}
use os_stream_socket.Reassembler.Assemble.{segment}
use os_stream_socket.Reassembler.Insert.{IsReady, Inserted, insert-Inserted, insert_progress}
use os_stream_socket.Reassembler.Prefix.{
  Session, start, Reach, here, next, inserts, Reach-prefix, Reach-IsPrefix, new-IsReady,
}
use os_stream_socket.Reassembler.Faults.{insert_out_of_bounds, insert_closes_early}

-- The stream a, b, c and so on.
abbrev letters : ℕ → ℕ
letters i = 97 + i

abbrev four : ByteStream
four = record {
  capacity = 4;
  stream = [];
  bytes_read = 0;
  bytes_write = 0;
  error = false;
  closed = false;
}

abbrev fresh : Reassembler
fresh = record {
  base_index = 0;
  unassembled_size = 0;
  buffer = [];
  flag = [];
  eof = false;
  initialized = false;
}

fresh-IsReady : IsReady letters fresh four
unfolding Reassembler.new ByteStream.new
fresh-IsReady = new-IsReady letters 4 (omega arith)

-- `c` waits at its place.
abbrev waiting : Reassembler
waiting = record {
  base_index = 0;
  unassembled_size = 1;
  buffer = 0 ∷ 0 ∷ 99 ∷ 0 ∷ [];
  flag = false ∷ false ∷ true ∷ false ∷ [];
  eof = false;
  initialized = true;
}

keeps_c : insert 2 (99 ∷ []) false four fresh ≡ ok (waiting, four)
unfolding insert initialize store_substring assemble finish leading ByteStream.available_capacity
keeps_c = refl

ab : (j : ℕ) → j < 2 → get_or (97 ∷ 98 ∷ []) j 0 ≡ letters (0 + j)
ab zero h = refl
ab (suc zero) h = refl
ab (suc (suc j)) h = absurd (omega arith)

c_alone : (j : ℕ) → j < 1 → get_or (99 ∷ []) j 0 ≡ letters (2 + j)
c_alone zero h = refl
c_alone (suc j) h = absurd (omega arith)

insert-Inserted_example :
    (r' : Reassembler) × (output' : ByteStream) × (insert 2 (99 ∷ []) false four fresh
      ≡ ok (r', output'))
    × Inserted letters 2 (99 ∷ []) false fresh four r' output'
insert-Inserted_example =
    insert-Inserted letters 2 (99 ∷ []) false four fresh fresh-IsReady c_alone (omega arith)
      (omega arith) (omega arith)

abbrev done : Reassembler
done = record {
  base_index = 2;
  unassembled_size = 0;
  buffer = 0 ∷ 0 ∷ 0 ∷ 0 ∷ [];
  flag = false ∷ false ∷ false ∷ false ∷ [];
  eof = false;
  initialized = true;
}

abbrev two_in : ByteStream
two_in = record four { stream = 97 ∷ 98 ∷ []; bytes_write = 2 }

delivers_ab : insert 0 (97 ∷ 98 ∷ []) false four fresh ≡ ok (done, two_in)
unfolding insert initialize store_substring assemble finish leading ByteStream.available_capacity
    ByteStream.push
delivers_ab = refl

insert_progress_example : (0 + room_of four ≤ 2) ⊎ (0 + 2 ≤ 2)
insert_progress_example =
    insert_progress letters 0 (97 ∷ 98 ∷ []) false four fresh fresh-IsReady ab (omega arith)
      (omega arith) (omega arith) {r' = done} {output' = two_in} delivers_ab (omega arith)

abbrev delivered : Session
delivered = record { reassembler = done; output = two_in; taken = [] }

-- `start 4`, written out.
start_four : start 4 ≡ record { reassembler = fresh; output = four; taken = [] }
unfolding Reassembler.new ByteStream.new
start_four = refl

Reach-delivered : Reach letters (start 4) delivered
unfolding Reassembler.new ByteStream.new
Reach-delivered = next here (
    inserts (start 4) delivered 0 (97 ∷ 98 ∷ []) false ab (omega arith) (omega arith) (omega arith)
      delivers_ab refl)

Reach-prefix_example :
    ([] ++ peek two_in ≡ segment letters 0 2) × (2 ≡ ByteStream.bytes_pushed two_in)
Reach-prefix_example = Reach-prefix letters 4 {s = delivered} (omega arith) Reach-delivered

done-IsReady : IsReady letters done two_in
done-IsReady = (Reach-IsPrefix letters 4 {s = delivered} (omega arith) Reach-delivered).ready

insert_out_of_bounds_example : insert 7 (104 ∷ []) false two_in done ≡ err out_of_bounds
insert_out_of_bounds_example =
    insert_out_of_bounds letters 7 (104 ∷ []) two_in done done-IsReady refl (omega arith)
      (omega arith) (omega arith) false

insert_closes_early_example :
    (r' : Reassembler) × (output' : ByteStream) × (insert 3 [] true two_in done ≡ ok (r', output'))
    × (ByteStream.is_closed output' ≡ true)
    × (ByteStream.bytes_pushed output' ≡ ByteStream.bytes_pushed two_in)
    × (ByteStream.bytes_pushed output' < 3)
insert_closes_early_example =
    insert_closes_early letters 3 two_in done done-IsReady refl (omega arith)
