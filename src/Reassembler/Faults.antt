-- ===== src/Reassembler/Faults.antt =====
-- Inputs at which `insert` does not do what its header promises.
use os_stream_socket.Base.{
  ℕ, zero, suc, ◌+◌, ◌^◌, ◌≤◌, ◌<◌, ◌≡◌, refl, ap, ◌∙◌, List, [], ◌∷◌, Bool, true, false, length,
  get_elem?, get_or, arith, ok, err, out_of_bounds, none, add64, sub64, min, lt→ltb, le→ltb,
}
use os_stream_socket.ByteStream.{ByteStream, available_capacity}
use os_stream_socket.ByteStream
use os_stream_socket.ByteStream.Invariant.{available_capacity_lem}
use os_stream_socket.Reassembler.{
  Reassembler, insert, store, store_byte, store_substring, initialize, assemble, finish,
}
use os_stream_socket.Reassembler.Flags.{leading_zero}
use os_stream_socket.Reassembler.Insert.{IsReady, initialize_cases, initialize-Same}

get_elem?_beyond {ℓ} : {A : Type ℓ} (xs : List A) (i : ℕ) → length xs ≤ i → get_elem? xs i ≡ none
get_elem?_beyond [] i h = refl
get_elem?_beyond (x ∷ xs) zero h = absurd (omega arith)
get_elem?_beyond (x ∷ xs) (suc i) h = get_elem?_beyond xs i (omega arith)

store_fault :
    (at from : ℕ → ℕ) (rounds : ℕ) (bytes : List ℕ) (r : Reassembler)
    → 0 < rounds
    → length r.flag ≤ at 0
    → store at from rounds 0 bytes r ≡ err out_of_bounds
unfolding store
store_fault at from zero bytes r h k = absurd (omega arith)
store_fault at from (suc rounds) bytes r h k =
    rw (get_elem?_beyond r.flag (at 0) k, store_byte) refl

module _ (truth : ℕ → ℕ) (first : ℕ) (bytes : List ℕ) (output : ByteStream) (r : Reassembler)
    (ready : IsReady truth r output) (running : r.initialized ≡ true)
    (word : first + length bytes < 2 ^ 64) (far : r.base_index + output.capacity < first)
    (some_bytes : 0 < length bytes) where
  substring_out_of_bounds : store_substring first bytes output r ≡ err out_of_bounds
  unfolding store_substring
  substring_out_of_bounds = rw (lt→ltb r.base_index first (omega arith)) (
      store_fault (λ i. sub64 (add64 i first) r.base_index) (λ i. i) _ bytes r
        (omega (arith, available_capacity_lem output ready.valid))
        (omega (arith, (ready.started running).flags)))

  -- Once the reassembler has started and is in step with its output, a call with a non-empty
  -- substring that starts more than a whole capacity past the next byte is not discarded: the code
  -- accesses `flag` outside its bounds.
  pub insert_out_of_bounds :
      (is_last : Bool) → insert first bytes is_last output r ≡ err out_of_bounds
  unfolding insert
  insert_out_of_bounds is_last =
      rw (initialize_cases output r running, substring_out_of_bounds) refl

empty_substring :
    (first : ℕ) (output : ByteStream) (r : Reassembler)
    → r.base_index < first
    → store_substring first [] output r ≡ ok r
unfolding store_substring store
empty_substring first output r gap =
    rw (lt→ltb r.base_index first gap)
      (let none_left : (n : ℕ) → min n 0 ≡ 0 = λ n. omega arith in rw none_left refl)

nothing_known :
    (output : ByteStream) (r : Reassembler)
    → get_or r.flag 0 false ≡ false
    → assemble output r ≡ ok (r, output)
unfolding assemble
nothing_known output r waits =
    rw (leading_zero r.flag waits) (rw (le→ltb (length r.buffer) 0 (omega arith)) refl)

finish_empty :
    (output : ByteStream) (r : Reassembler)
    → r.unassembled_size ≡ 0
    → (finish true (r, output)).1 ≡ ByteStream.close output
unfolding finish
finish_empty output r none_pending = ground arith

insert_nothing :
    (first : ℕ) (output : ByteStream) (r : Reassembler)
    → r.base_index < first
    → r.unassembled_size ≡ 0
    → get_or r.flag 0 false ≡ false
    → insert first [] true output r
      ≡ ok ((finish true (initialize output r, output)).0, ByteStream.close output)
unfolding insert
insert_nothing first output r gap none_pending waits =
    let same = initialize-Same output r in
    let s = initialize output r in
    rw (empty_substring first output s (omega (arith, same.base))) (
      rw (nothing_known output s (same.flags 0 ∙ waits)) (
        ap (λ o. ok ((finish true (s, output)).0, o))
          (finish_empty output s (same.pending ∙ none_pending))))

-- An empty last substring past the next byte closes the output at once if nothing is pending in a
-- reassembler that is in step with its output, though the bytes before it have not been pushed.
pub insert_closes_early :
    (truth : ℕ → ℕ) (first : ℕ) (output : ByteStream) (r : Reassembler)
    → IsReady truth r output
    → r.unassembled_size ≡ 0
    → r.base_index < first
    → (r' : Reassembler) × (output' : ByteStream) × (insert first [] true output r
        ≡ ok (r', output'))
      × (ByteStream.is_closed output' ≡ true)
      × (ByteStream.bytes_pushed output' ≡ ByteStream.bytes_pushed output)
      × (ByteStream.bytes_pushed output' < first)
unfolding ByteStream.is_closed ByteStream.bytes_pushed ByteStream.close
insert_closes_early truth first output r ready none_pending gap = (
  (finish true (initialize output r, output)).0,
  ByteStream.close output,
  insert_nothing first output r gap none_pending ready.waits,
  refl,
  refl,
  omega (arith, ready.synced),
)
