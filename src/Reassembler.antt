-- ===== src/Reassembler.antt =====
-- The reassembler of src/reassembler.hh and src/reassembler.cc. An access outside a vector or a
-- string, whose behaviour C++ leaves undefined, is the result `err out_of_bounds`.
pub mod Flags
pub mod Window
pub mod Substring
pub mod Assemble
pub mod Insert
pub mod Prefix
pub mod Faults
mod Tests
use os_stream_socket.Base.{
  ℕ, zero, suc, ◌+◌, min, max, List, [], ◌∷◌, ◌++◌, Bool, true, false, ◌&&◌, Option, none, some,
  length, get_elem?, set, take, drop, replicate, ltb, ◌==◌, if◌then◌else◌, add64, sub64, Outcome,
  ok, err, out_of_bounds, ◌>>=◌,
}
use os_stream_socket.ByteStream.{ByteStream}
use os_stream_socket.ByteStream
use Flags.{leading}

pub record Reassembler : Type 0 where
  pub base_index : ℕ
  pub unassembled_size : ℕ
  pub buffer : List ℕ
  pub flag : List Bool
  pub eof : Bool
  pub initialized : Bool

unfoldable pub new : Reassembler
new = record {
  base_index = 0;
  unassembled_size = 0;
  buffer = [];
  flag = [];
  eof = false;
  initialized = false;
}

unfoldable pub bytes_pending : Reassembler → ℕ
bytes_pending r = r.unassembled_size

-- On the first call the vectors get the size of the room that `output` has then.
unfoldable pub initialize : ByteStream → Reassembler → Reassembler
initialize output r =
    let size = ByteStream.available_capacity output in
    if r.initialized then r else record r {
      flag = r.flag ++ replicate size false;
      buffer = r.buffer ++ replicate size 0;
      initialized = true;
    }

-- `buffer[at] = data[from]`
unfoldable pub write_byte : ℕ → Option ℕ → Reassembler → Outcome Reassembler
write_byte at none r = err out_of_bounds
write_byte at (some byte) r =
    if ltb at (length r.buffer)
    then ok (record r {
      flag = set r.flag at true;
      buffer = set r.buffer at byte;
      unassembled_size = add64 r.unassembled_size 1;
    })
    else err out_of_bounds

-- The body of both loops: a byte is kept unless one is there already.
unfoldable pub store_byte : ℕ → Option ℕ → Reassembler → Outcome Reassembler
unfolding write_byte
store_byte at byte r = elim (get_elem? r.flag at) [
  | none ↦ err out_of_bounds
  | some known ↦ if known then ok r else write_byte at byte r
]

-- A loop of `rounds` rounds that starts at `i` and moves byte `from i` to place `at i`.
unfoldable pub store : (ℕ → ℕ) → (ℕ → ℕ) → ℕ → ℕ → List ℕ → Reassembler → Outcome Reassembler
unfolding store_byte
store at from zero i bytes r = ok r
store at from (suc rounds) i bytes r =
    store_byte (at i) (get_elem? bytes (from i)) r >>= store at from rounds (i + 1) bytes

-- What of the substring falls into the window is stored.
unfoldable pub store_substring : ℕ → List ℕ → ByteStream → Reassembler → Outcome Reassembler
unfolding store
store_substring first_index bytes output r =
    let start_index = max r.base_index first_index in
    let end_index =
      min (add64 r.base_index (ByteStream.available_capacity output))
        (add64 first_index (length bytes)) in
    let len = sub64 end_index start_index in
    if ltb r.base_index first_index
    then store (λ i. sub64 (add64 i first_index) r.base_index) (λ i. i) (min len (length bytes)) 0
        bytes r
    else (if ltb r.base_index (add64 first_index (length bytes))
        then store (λ i. i) (λ i. sub64 (add64 i r.base_index) first_index)
            (min len (length r.flag)) 0 bytes r
        else ok r)

-- The bytes up to the first unknown one go to `output`, and the window moves behind them.
unfoldable pub assemble : ByteStream → Reassembler → Outcome (Reassembler × ByteStream)
assemble output r =
    let cnt = leading r.flag in
    if ltb (length r.buffer) cnt
    then err out_of_bounds
    else (if cnt == 0
        then ok (r, output)
        else ok (
          record r {
            flag = drop cnt r.flag ++ replicate cnt false;
            buffer = drop cnt r.buffer ++ replicate cnt 0;
            unassembled_size = sub64 r.unassembled_size cnt;
            base_index = add64 r.base_index cnt;
          },
          ByteStream.push (take cnt r.buffer) output,
        ))

unfoldable pub finish : Bool → Reassembler × ByteStream → Reassembler × ByteStream
finish is_last_substring (r, output) =
    let eof' = (if is_last_substring then true else r.eof) in
    (
      record r { eof = eof' },
      if ((r.unassembled_size == 0) && eof') then ByteStream.close output else output,
    )

unfoldable pub insert :
    ℕ → List ℕ → Bool → ByteStream → Reassembler → Outcome (Reassembler × ByteStream)
insert first_index bytes is_last_substring output r =
    store_substring first_index bytes output (initialize output r) >>= λ stored.
    assemble output stored >>= λ assembled. ok (finish is_last_substring assembled)
