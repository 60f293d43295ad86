-- ===== src/WrappingIntegers/Tests.antt =====
-- Runs of `wrap` and `unwrap`, and their theorems at concrete numbers.
use os_stream_socket.Base.{ℕ, ◌<◌, ◌-◌, ◌^◌, ◌≤◌, ◌≡◌, ◌+◌, ◌*◌, refl, arith}
use os_stream_socket.WrappingIntegers.{Wrap32, wrap, unwrap, absolute_delta}
use os_stream_socket.WrappingIntegers.Unwrap.{unwrap_closest, unwrap-wrap}

abbrev isn : Wrap32
isn = record { raw_value = 2 ^ 32 - 2 }

abbrev three : Wrap32
three = record { raw_value = 3 }

wraps_round : wrap 5 isn ≡ three
unfolding wrap
wraps_round = refl

unwraps_near_checkpoint : unwrap three isn (3 * 2 ^ 32 - 1) ≡ 3 * 2 ^ 32 + 5
unfolding unwrap
unwraps_near_checkpoint = refl

unwrap_closest_example :
    (unwrap three isn (2 ^ 63) < 2 ^ 64)
    × (wrap (unwrap three isn (2 ^ 63)) isn ≡ three)
    × ((n : ℕ)
        → n < 2 ^ 64
        → wrap n isn ≡ three
        → absolute_delta (2 ^ 63) (unwrap three isn (2 ^ 63)) ≤ absolute_delta (2 ^ 63) n)
unwrap_closest_example = unwrap_closest three isn (2 ^ 63) (omega arith) (omega arith) (omega arith)

unwrap-wrap_example : unwrap (wrap 5000000000 isn) isn 4000000000 ≡ 5000000000
unwrap-wrap_example =
    unwrap-wrap 5000000000 isn 4000000000 (omega arith) (omega arith) (omega arith) (omega arith)
