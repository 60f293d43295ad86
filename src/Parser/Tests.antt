-- ===== src/Parser/Tests.antt =====
-- A list of buffers that loses the rest of its first buffer and a byte of the second.
use os_stream_socket.Base.{
  ℕ, zero, suc, ◌≡◌, refl, [], ◌∷◌, err, out_of_bounds, out_of_fuel, false, arith,
}
use os_stream_socket.Parser.{
  Parser, BufferList, new, buffer_list, append_all, append, integer, check_size, read_unless,
  read_bytes, take_byte, string_loop, skip_prefix, remove_prefix, remove_loop, peek, substr, front,
}
use os_stream_socket.Parser.Bytes.{IsBufferList, Removes, remove_prefix_lem}

abbrev two_buffers : BufferList
two_buffers = record { size = 5; buffers = (1 ∷ 2 ∷ 3 ∷ []) ∷ (4 ∷ 5 ∷ 6 ∷ []) ∷ []; skip = 1 }

two_buffers-IsBufferList : IsBufferList two_buffers
two_buffers-IsBufferList = record { size = refl; inside = omega arith; word = omega arith }

remove_prefix_lem_example : Removes 3 two_buffers (remove_prefix 3 two_buffers)
remove_prefix_lem_example = remove_prefix_lem 3 two_buffers two_buffers-IsBufferList (omega arith)

-- A parser whose first buffer is empty: there is a byte, and `integer` does not find it.
abbrev empty_first : Parser
empty_first = record {
  input = record { size = 1; buffers = [] ∷ (7 ∷ []) ∷ []; skip = 0 };
  error = false;
}

new-empty_first : new ([] ∷ (7 ∷ []) ∷ []) ≡ empty_first
unfolding new buffer_list append_all append
new-empty_first = refl

integer-empty_first : integer 1 0 empty_first ≡ err out_of_bounds
unfolding integer check_size read_unless read_bytes take_byte peek substr front
integer-empty_first = refl

-- Whatever the fuel, the loop of `string` uses it up.
string_loop-empty_first : (fuel : ℕ) → string_loop fuel 1 empty_first ≡ err out_of_fuel
unfolding string_loop peek substr skip_prefix remove_prefix remove_loop
string_loop-empty_first zero = refl
string_loop-empty_first (suc fuel) = rw (string_loop-empty_first fuel) refl
