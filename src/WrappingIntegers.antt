-- ===== src/WrappingIntegers.antt =====
-- The 32-bit sequence numbers of src/wrapping_integers.hh and src/wrapping_integers.cc.
pub mod Unwrap
mod Tests
use os_stream_socket.Base.{
  ℕ, ◌+◌, ◌-◌, ◌%◌, ◌^◌, ◌<◌, Bool, ltb, ◌==◌, if◌then◌else◌, add32, to_u32, add64, sub64,
}

pub record Wrap32 : Type 0 where
  pub raw_value : ℕ

abbrev pub IsWord : Wrap32 → Type 0
IsWord w = w.raw_value < 2 ^ 32

-- `operator+`
unfoldable pub plus : Wrap32 → ℕ → Wrap32
plus w n = record { raw_value = add32 w.raw_value n }

-- `operator==`
unfoldable pub same : Wrap32 → Wrap32 → Bool
same a b = a.raw_value == b.raw_value

-- The argument of `operator+` is a uint32_t, so `n` is converted first.
unfoldable pub wrap : ℕ → Wrap32 → Wrap32
unfolding plus
wrap n zero_point = plus zero_point (to_u32 n)

abbrev pub absolute_delta : ℕ → ℕ → ℕ
absolute_delta a b = if ltb a b then b - a else a - b

-- The offset of `seqno` from `isn`, going forwards round the circle.
unfoldable pub offset : ℕ → ℕ → ℕ
offset seqno isn = if ltb seqno isn then sub64 (2 ^ 32) (sub64 isn seqno) else sub64 seqno isn

-- The two candidates for the absolute number, the one that wins a tie first: `tmp` and `last_tmp`.
unfoldable pub candidates : ℕ → ℕ → ℕ × ℕ
candidates tmp checkpoint =
    if ltb tmp checkpoint
    then (let rest = to_u32 (sub64 checkpoint tmp % 2 ^ 32) in
        (sub64 checkpoint rest, add64 (sub64 checkpoint rest) (2 ^ 32)))
    else (let rest = to_u32 (sub64 tmp checkpoint % 2 ^ 32) in
        (add64 checkpoint rest, sub64 (add64 checkpoint rest) (2 ^ 32)))

unfoldable pub unwrap : Wrap32 → Wrap32 → ℕ → ℕ
unfolding offset candidates
unwrap w zero_point checkpoint =
    let (tmp, last_tmp) = candidates (offset w.raw_value zero_point.raw_value) checkpoint in
    if ltb (absolute_delta checkpoint last_tmp) (absolute_delta checkpoint tmp)
    then last_tmp
    else tmp
