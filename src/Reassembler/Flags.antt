-- ===== src/Reassembler/Flags.antt =====
-- The vector `flag`: which bytes of the window are known.
use os_stream_socket.Base.{
  ℕ, zero, suc, ◌+◌, ◌≤◌, ◌<◌, ◌≡◌, refl, List, [], ◌∷◌, ◌++◌, Bool, true, false, some, length,
  get_elem?, get_or, set, drop, replicate, arith,
}

-- How many known bytes stand before the first unknown one.
unfoldable pub leading : List Bool → ℕ
leading [] = 0
leading (true ∷ flags) = suc (leading flags)
leading (false ∷ flags) = 0

-- How many bytes are known.
unfoldable pub known : List Bool → ℕ
known [] = 0
known (true ∷ flags) = suc (known flags)
known (false ∷ flags) = known flags

pub leading-le-length : (flags : List Bool) → leading flags ≤ length flags
unfolding leading
leading-le-length [] = omega arith
leading-le-length (true ∷ flags) = omega (arith, leading-le-length flags)
leading-le-length (false ∷ flags) = omega arith

pub known-le-length : (flags : List Bool) → known flags ≤ length flags
unfolding known
known-le-length [] = omega arith
known-le-length (true ∷ flags) = omega (arith, known-le-length flags)
known-le-length (false ∷ flags) = omega (arith, known-le-length flags)

pub get_or-leading : (flags : List Bool) → get_or flags (leading flags) false ≡ false
unfolding leading
get_or-leading [] = refl
get_or-leading (true ∷ flags) = get_or-leading flags
get_or-leading (false ∷ flags) = refl

pub get_or_below_leading :
    (flags : List Bool) (i : ℕ) → i < leading flags → get_or flags i false ≡ true
unfolding leading
get_or_below_leading [] i h = absurd (omega arith)
get_or_below_leading (true ∷ flags) zero h = refl
get_or_below_leading (true ∷ flags) (suc i) h = get_or_below_leading flags i (omega arith)
get_or_below_leading (false ∷ flags) i h = absurd (omega arith)

pub known-set :
    (flags : List Bool) (i : ℕ)
    → get_elem? flags i ≡ some false
    → known (set flags i true) ≡ known flags + 1
unfolding known
known-set [] i h = cc
known-set (true ∷ flags) zero h = cc
known-set (false ∷ flags) zero h = omega arith
known-set (true ∷ flags) (suc i) h = omega (arith, known-set flags i h)
known-set (false ∷ flags) (suc i) h = omega (arith, known-set flags i h)

known-append : (xs ys : List Bool) → known (xs ++ ys) ≡ known xs + known ys
unfolding known
known-append [] ys = omega arith
known-append (true ∷ xs) ys = omega (arith, known-append xs ys)
known-append (false ∷ xs) ys = known-append xs ys

pub known-replicate : (n : ℕ) → known (replicate n false) ≡ 0
unfolding known
known-replicate zero = refl
known-replicate (suc n) = known-replicate n

known-drop-leading :
    (flags : List Bool) → known (drop (leading flags) flags) + leading flags ≡ known flags
unfolding known leading
known-drop-leading [] = refl
known-drop-leading (true ∷ flags) = omega (arith, known-drop-leading flags)
known-drop-leading (false ∷ flags) = omega arith

-- Moving the window past the leading bytes forgets just these.
pub known-shift :
    (flags : List Bool)
    → known (drop (leading flags) flags ++ replicate (leading flags) false) + leading flags
      ≡ known flags
known-shift flags = omega (
  arith,
  known-append (drop (leading flags) flags) (replicate (leading flags) false),
  known-replicate (leading flags),
  known-drop-leading flags,
)

pub leading_zero : (flags : List Bool) → get_or flags 0 false ≡ false → leading flags ≡ 0
unfolding leading
leading_zero [] h = refl
leading_zero (true ∷ flags) h = cc
leading_zero (false ∷ flags) h = refl
