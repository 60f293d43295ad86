-- ===== src/WrappingIntegers/Unwrap.antt =====
-- `unwrap` inverts `wrap`, and of all inverses it finds the one nearest to the checkpoint.
use os_stream_socket.Base.{ℕ, ◌%◌, ◌^◌, ◌≤◌, ◌<◌, ◌≡◌, refl, subst, ltb, if◌then◌else◌, arith}
use os_stream_socket.WrappingIntegers.{
  Wrap32, IsWord, plus, wrap, offset, candidates, unwrap, absolute_delta,
}

pub wrap-IsWord : (n : ℕ) (zero_point : Wrap32) → IsWord (wrap n zero_point)
unfolding wrap plus
wrap-IsWord n z = omega arith

-- The offset of what `n` wraps to is `n`, up to whole circles.
offset-wrap : (n : ℕ) (z : Wrap32) → IsWord z → offset (wrap n z).raw_value z.raw_value ≡ n % 2 ^ 32
unfolding offset wrap plus
offset-wrap n z hz = ground arith

offset-lt : (a b : ℕ) → a < 2 ^ 32 → b < 2 ^ 32 → offset a b < 2 ^ 32
unfolding offset
offset-lt a b ha hb = ground arith

-- A number that is the offset of `w`, up to whole circles, wraps to `w`.
wrap_of_offset :
    (n : ℕ) (w z : Wrap32)
    → IsWord w
    → IsWord z
    → n % 2 ^ 32 ≡ offset w.raw_value z.raw_value
    → wrap n z ≡ w
unfolding offset wrap plus
wrap_of_offset n w z hw hz h = ground arith

pick : ℕ → ℕ → ℕ
unfolding candidates
pick tmp checkpoint =
    let (a, b) = candidates tmp checkpoint in
    if ltb (absolute_delta checkpoint b) (absolute_delta checkpoint a) then b else a

-- Both candidates are words and lie over the offset.
record Over (tmp : ℕ) (n : ℕ) : Type 0 where
  word : n < 2 ^ 64
  over : n % 2 ^ 32 ≡ tmp

candidates-Over :
    (tmp checkpoint : ℕ)
    → tmp < 2 ^ 32
    → checkpoint < 2 ^ 64
    → Over tmp (candidates tmp checkpoint).0 × Over tmp (candidates tmp checkpoint).1
unfolding candidates
candidates-Over tmp cp ht hc = ground arith

-- No number over the offset is nearer to the checkpoint than the chosen one.
pick_closest :
    (tmp cp n : ℕ)
    → tmp < 2 ^ 32
    → cp < 2 ^ 64
    → n < 2 ^ 64
    → n % 2 ^ 32 ≡ tmp
    → absolute_delta cp (pick tmp cp) ≤ absolute_delta cp n
unfolding pick candidates
pick_closest tmp cp n ht hc hn e = ground arith

pick-Over : (tmp cp : ℕ) → tmp < 2 ^ 32 → cp < 2 ^ 64 → Over tmp (pick tmp cp)
unfolding pick
pick-Over tmp cp ht hc = ground (arith, candidates-Over tmp cp ht hc)

unwrap-pick : (w z : Wrap32) (cp : ℕ) → unwrap w z cp ≡ pick (offset w.raw_value z.raw_value) cp
unfolding unwrap pick
unwrap-pick w z cp = refl

unwrap-Over :
    (w z : Wrap32) (cp : ℕ)
    → IsWord w
    → IsWord z
    → cp < 2 ^ 64
    → Over (offset w.raw_value z.raw_value) (unwrap w z cp)
unwrap-Over w z cp hw hz hc =
    rw (unwrap-pick w z cp) (pick-Over _ cp (offset-lt w.raw_value z.raw_value hw hz) hc)

pub unwrap_word :
    (w z : Wrap32) (cp : ℕ) → IsWord w → IsWord z → cp < 2 ^ 64 → unwrap w z cp < 2 ^ 64
unwrap_word w z cp hw hz hc = (unwrap-Over w z cp hw hz hc).word

-- Wrapping the result of `unwrap` gives the 32-bit sequence number back, whatever the 64-bit
-- checkpoint.
pub wrap-unwrap :
    (w z : Wrap32) (cp : ℕ) → IsWord w → IsWord z → cp < 2 ^ 64 → wrap (unwrap w z cp) z ≡ w
wrap-unwrap w z cp hw hz hc =
    wrap_of_offset (unwrap w z cp) w z hw hz (unwrap-Over w z cp hw hz hc).over

unwrap_nearest :
    (n : ℕ) (z : Wrap32) (cp : ℕ)
    → IsWord z
    → n < 2 ^ 64
    → cp < 2 ^ 64
    → absolute_delta cp (unwrap (wrap n z) z cp) ≤ absolute_delta cp n
unwrap_nearest n z cp hz hn hc =
    let e = offset-wrap n z hz in
    rw (unwrap-pick (wrap n z) z cp, e) (pick_closest (n % 2 ^ 32) cp n (omega arith) hc hn refl)

-- For a 32-bit sequence number and a 64-bit checkpoint, `unwrap` returns a 64-bit number that
-- wraps to the sequence number, and no other 64-bit number that does is nearer to the checkpoint,
-- also where a candidate wraps past 0 or past 2 ^ 64.
pub unwrap_closest :
    (w z : Wrap32) (cp : ℕ)
    → IsWord w
    → IsWord z
    → cp < 2 ^ 64
    → (unwrap w z cp < 2 ^ 64)
      × (wrap (unwrap w z cp) z ≡ w)
      × ((n : ℕ)
          → n < 2 ^ 64
          → wrap n z ≡ w
          → absolute_delta cp (unwrap w z cp) ≤ absolute_delta cp n)
unwrap_closest w z cp hw hz hc = (
  unwrap_word w z cp hw hz hc,
  wrap-unwrap w z cp hw hz hc,
  λ n hn e.
      subst (λ q. absolute_delta cp (unwrap q z cp) ≤ absolute_delta cp n) e
        (unwrap_nearest n z cp hz hn hc),
)

near_unique :
    (n m cp : ℕ)
    → n % 2 ^ 32 ≡ m % 2 ^ 32
    → absolute_delta cp m ≤ absolute_delta cp n
    → absolute_delta cp n < 2 ^ 31
    → m ≡ n
near_unique n m cp e h k = ground arith

-- A 64-bit number less than 2 ^ 31 away from the 64-bit checkpoint survives the round trip through
-- a 32-bit sequence number.
pub unwrap-wrap :
    (n : ℕ) (z : Wrap32) (cp : ℕ)
    → IsWord z
    → n < 2 ^ 64
    → cp < 2 ^ 64
    → absolute_delta cp n < 2 ^ 31
    → unwrap (wrap n z) z cp ≡ n
unwrap-wrap n z cp hz hn hc near =
    near_unique n (unwrap (wrap n z) z cp) cp
      (omega
        (arith, (unwrap-Over (wrap n z) z cp (wrap-IsWord n z) hz hc).over, offset-wrap n z hz))
      (unwrap_nearest n z cp hz hn hc) near
