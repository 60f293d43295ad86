-- ===== src/Base/Words.antt =====
-- Machine words: a number below 2 ^ w, with the wrap-around of the C++ operators written out.
use Prim.Native.Nat.{ℕ, ◌+◌, ◌-◌, ◌%◌, ◌^◌}

-- uint64_t (and size_t) `+` and `-`
abbrev pub add64 : ℕ → ℕ → ℕ
add64 a b = (a + b) % 2 ^ 64

abbrev pub sub64 : ℕ → ℕ → ℕ
sub64 a b = (a + 2 ^ 64 - b) % 2 ^ 64

-- uint32_t `+` and `-`, and the conversion to uint32_t
abbrev pub add32 : ℕ → ℕ → ℕ
add32 a b = (a + b) % 2 ^ 32

abbrev pub sub32 : ℕ → ℕ → ℕ
sub32 a b = (a + 2 ^ 32 - b) % 2 ^ 32

abbrev pub to_u32 : ℕ → ℕ
to_u32 a = a % 2 ^ 32

-- uint16_t `-=`: the difference of the promoted operands, converted back
abbrev pub sub16 : ℕ → ℕ → ℕ
sub16 a b = (a + 2 ^ 64 - b) % 2 ^ 64 % 2 ^ 16

abbrev pub to_u16 : ℕ → ℕ
to_u16 a = a % 2 ^ 16
