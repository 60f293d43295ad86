-- ===== src/Serializer.antt =====
-- The serializer of util/parser.hh.
pub mod RoundTrip
use os_stream_socket.Base.{
  ℕ, zero, suc, ◌*◌, ◌/◌, ◌%◌, ◌^◌, List, [], ◌∷◌, ◌++◌, ◌≡◌, refl, sym, ap, ◌∙◌, append_assoc,
  append-nil, map,
}

pub record Serializer : Type 0 where
  pub output : List (List ℕ)
  pub buffer : List ℕ

unfoldable pub new : Serializer
new = record { output = []; buffer = [] }

-- The bytes of `integer`, the highest first: `val >> ( ( len - i - 1 ) * 8 )`, cut to a byte.
abbrev pub encode : ℕ → ℕ → List ℕ
encode zero val = []
encode (suc k) val = (val / 2 ^ (8 * k) % 2 ^ 8) ∷ encode k val

unfoldable pub integer : ℕ → ℕ → Serializer → Serializer
integer len val s = record s { buffer = s.buffer ++ encode len val }

-- The loops `for ( const auto& b : array ) serializer.integer( b )` over an array of bytes.
unfoldable pub integers : List ℕ → Serializer → Serializer
unfolding integer
integers [] s = s
integers (x ∷ xs) s = integers xs (integer 1 x s)

unfoldable pub flush : Serializer → Serializer
flush s = record { output = s.output ++ s.buffer ∷ []; buffer = [] }

unfoldable pub push_buffer : List ℕ → Serializer → Serializer
unfolding flush
push_buffer buf s = let s' = flush s in record s' { output = s'.output ++ buf ∷ [] }

unfoldable pub push_buffers : List (List ℕ) → Serializer → Serializer
unfolding push_buffer
push_buffers [] s = s
push_buffers (b ∷ bs) s = push_buffers bs (push_buffer b s)

unfoldable pub finished : Serializer → List (List ℕ)
unfolding flush
finished s = (flush s).output
