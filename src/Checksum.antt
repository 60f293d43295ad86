-- ===== src/Checksum.antt =====
-- The internet checksum of util/checksum.hh.
use os_stream_socket.Base.{
  ℕ, zero, suc, ◌+◌, ◌-◌, ◌*◌, ◌/◌, ◌%◌, ◌^◌, List, [], ◌∷◌, Bool, true, false, not, ltb,
  if◌then◌else◌, add32, Outcome, ok, err, out_of_fuel, ◌>>=◌,
}
pub mod Fold
mod Tests

pub record InternetChecksum : Type 0 where
  pub sum : ℕ
  pub parity : Bool

unfoldable pub new : ℕ → InternetChecksum
new sum = record { sum = sum; parity = false }

-- The high byte of a 16-bit word comes first.
unfoldable pub add_byte : ℕ → InternetChecksum → InternetChecksum
add_byte i c = record {
  sum = add32 c.sum (if c.parity then i else i * 2 ^ 8 % 2 ^ 16);
  parity = not c.parity;
}

unfoldable pub add : List ℕ → InternetChecksum → InternetChecksum
unfolding add_byte
add [] c = c
add (x ∷ xs) c = add xs (add_byte x c)

unfoldable pub add_all : List (List ℕ) → InternetChecksum → InternetChecksum
unfolding add
add_all [] c = c
add_all (b ∷ bs) c = add_all bs (add b c)

-- The loop of `value`.
unfoldable pub fold : ℕ → ℕ → Outcome ℕ
fold zero ret = err out_of_fuel
fold (suc fuel) ret = elim (ltb 0xffff ret) [
  | true ↦ fold fuel ((ret / 2 ^ 16 + ret % 2 ^ 16) % 2 ^ 32)
  | false ↦ ok ret
]

-- Two rounds bring a sum of 32 bits below 2 ^ 16, and one more ends the loop.
unfoldable pub value : InternetChecksum → Outcome ℕ
value c = fold 3 c.sum >>= λ ret. ok ((2 ^ 32 - 1 - ret) % 2 ^ 16)
