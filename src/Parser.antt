-- ===== src/Parser.antt =====
-- The parser of util/parser.hh over the buffers of util/buffer.hh, a `Buffer` being the list of its
-- bytes. A throw is `err runtime_error`; the first character of an empty view, which C++ leaves
-- undefined, is `err out_of_bounds`. A field that a C++ reference lets the parser set is passed in
-- with its old value and handed back.
pub mod Bytes
pub mod Read
mod Tests
use os_stream_socket.Base.{
  ℕ, zero, suc, ◌+◌, ◌-◌, ◌*◌, ◌%◌, ◌^◌, min, List, [], ◌∷◌, ◌++◌, Bool, true, false, length, take,
  drop, flatten, ltb, ◌==◌, if◌then◌else◌, add64, sub64, Outcome, ok, err, runtime_error,
  out_of_bounds, out_of_fuel, ◌>>=◌,
}

-- The list of buffers of which `skip` bytes of the first are taken.
pub record BufferList : Type 0 where
  pub size : ℕ
  pub buffers : List (List ℕ)
  pub skip : ℕ

unfoldable pub append : List ℕ → BufferList → BufferList
append str l = record l { size = add64 l.size (length str); buffers = l.buffers ++ str ∷ [] }

unfoldable pub append_all : List (List ℕ) → BufferList → BufferList
unfolding append
append_all [] l = l
append_all (x ∷ xs) l = append_all xs (append x l)

unfoldable pub buffer_list : List (List ℕ) → BufferList
unfolding append_all
buffer_list buffers = append_all buffers (record { size = 0; buffers = []; skip = 0 })

unfoldable pub empty : BufferList → Bool
empty l = l.size == 0

-- What is left of a buffer: `substr` throws past its end.
unfoldable pub substr : ℕ → List ℕ → Outcome (List ℕ)
substr from str = if ltb (length str) from then err runtime_error else ok (drop from str)

unfoldable pub peek : BufferList → Outcome (List ℕ)
unfolding substr
peek l = elim l.buffers [ [] ↦ err runtime_error | b ∷ bs ↦ substr l.skip b ]

-- `buffer_.pop_front()` once the first buffer is used up.
unfoldable pub pop_used : List (List ℕ) → BufferList → BufferList
pop_used [] l = l
pop_used (b ∷ bs) l = if l.skip == length b then record l { buffers = bs; skip = 0 } else l

-- One round of the loop of `remove_prefix`.
unfoldable pub remove_now : ℕ → BufferList → BufferList
unfolding pop_used
remove_now now l =
    pop_used l.buffers (record l { skip = add64 l.skip now; size = sub64 l.size now })

unfoldable pub has_buffers : BufferList → Bool
has_buffers l = elim l.buffers [ [] ↦ false | b ∷ bs ↦ true ]

unfoldable pub remove_loop : ℕ → ℕ → BufferList → Outcome BufferList
unfolding has_buffers
remove_loop zero len l = err out_of_fuel
remove_loop (suc fuel) zero l = ok l
remove_loop (suc fuel) (suc n) l = elim (has_buffers l) [
  | false ↦ ok l
  | true ↦ peek l >>= λ view.
      remove_loop fuel (sub64 (suc n) (min (suc n) (length view)))
        (remove_now (min (suc n) (length view)) l)
]

-- Every round but the last uses a buffer up.
unfoldable pub remove_prefix : ℕ → BufferList → Outcome BufferList
remove_prefix len l = remove_loop (suc (suc (length l.buffers))) len l

-- All that is left, as buffers. The list is not used afterwards.
unfoldable pub dump_all : BufferList → Outcome (List (List ℕ))
unfolding empty
dump_all l =
    let rest = elim l.buffers as (λ bs. Outcome (List (List ℕ))) [
      | [] ↦ err out_of_bounds
      | b ∷ bs ↦ (if l.skip == 0 then ok b else substr l.skip b) >>= λ first. ok (first ∷ bs)
    ] in
    if empty l then ok [] else rest

-- The same as one buffer: a single one is taken over, others are appended to each other.
unfoldable pub joined : List (List ℕ) → List ℕ
joined [] = []
joined (b ∷ []) = b
joined (b ∷ c ∷ cs) = flatten (b ∷ c ∷ cs)

unfoldable pub dump_string : BufferList → Outcome (List ℕ)
unfolding dump_all joined
dump_string l = dump_all l >>= λ concat. ok (joined concat)

pub record Parser : Type 0 where
  pub input : BufferList
  pub error : Bool

unfoldable pub new : List (List ℕ) → Parser
new buffers = record { input = buffer_list buffers; error = false }

unfoldable pub check_size : ℕ → Parser → Parser
check_size size p = if ltb p.input.size size then record p { error = true } else p

unfoldable pub set_error : Parser → Parser
set_error p = record p { error = true }

unfoldable pub skip_prefix : ℕ → Parser → Outcome Parser
skip_prefix n p = remove_prefix n p.input >>= λ l. ok (record p { input = l })

-- The first byte: `input_.peek().front()`, and `input_.remove_prefix( 1 )`.
unfoldable pub front : List ℕ → Outcome ℕ
front [] = err out_of_bounds
front (x ∷ xs) = ok x

unfoldable pub take_byte : Parser → Outcome (ℕ × Parser)
unfolding front skip_prefix
take_byte p = peek p.input >>= λ view. front view >>= λ x. skip_prefix 1 p >>= λ p'. ok (x, p')

-- The loop of `integer` for a type of `bytes` bytes: the shift leaves the low byte 0, so that `|=`
-- adds. The branch for one byte is a single round of it.
unfoldable pub read_bytes : ℕ → ℕ → ℕ → Parser → Outcome (ℕ × Parser)
unfolding take_byte
read_bytes bytes zero out p = ok (out, p)
read_bytes bytes (suc rounds) out p =
    take_byte p >>= λ (x, p'). read_bytes bytes rounds (out * 2 ^ 8 % 2 ^ (8 * bytes) + x) p'

unfoldable pub read_unless : Bool → ℕ → ℕ → Parser → Outcome (ℕ × Parser)
read_unless true bytes out p = ok (out, p)
read_unless false bytes out p = read_bytes bytes bytes 0 p

unfoldable pub integer : ℕ → ℕ → Parser → Outcome (ℕ × Parser)
unfolding check_size read_unless
integer bytes out p = let p' = check_size bytes p in read_unless p'.error bytes out p'

-- The loops `for ( auto& b : array ) parser.integer( b )` over an array of bytes.
unfoldable pub integers : List ℕ → Parser → Outcome (List ℕ × Parser)
unfolding integer
integers [] p = ok ([], p)
integers (old ∷ olds) p =
    integer 1 old p >>= λ (x, p'). integers olds p' >>= λ (xs, p''). ok (x ∷ xs, p'')

-- The loop of `string` with `left` characters to go.
unfoldable pub string_loop : ℕ → ℕ → Parser → Outcome (List ℕ × Parser)
string_loop zero left p = err out_of_fuel
string_loop (suc fuel) zero p = ok ([], p)
string_loop (suc fuel) (suc n) p = peek p.input >>= λ rest.
    skip_prefix (length (take (suc n) rest)) p >>= λ p'.
    string_loop fuel (suc n - length (take (suc n) rest)) p' >>= λ (out, p'').
    ok (take (suc n) rest ++ out, p'')

unfoldable pub string : ℕ → List ℕ → Parser → Outcome (List ℕ × Parser)
unfolding check_size string_loop
string fuel out p =
    let p' = check_size (length out) p in
    elim p'.error [ true ↦ ok (out, p') | false ↦ string_loop fuel (length out) p' ]

unfoldable pub all_remaining : Parser → Outcome (List (List ℕ))
unfolding dump_all
all_remaining p = dump_all p.input

unfoldable pub remaining_string : Parser → Outcome (List ℕ)
unfolding dump_string
remaining_string p = dump_string p.input
