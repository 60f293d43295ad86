-- ===== src/Checksum/Fold.antt =====
-- The checksum is the sum of the 16-bit words of the data, taken modulo 65535.
use os_stream_socket.Base.{
  ℕ, suc, ◌+◌, ◌-◌, ◌*◌, ◌/◌, ◌%◌, ◌^◌, ◌≤◌, ◌<◌, ◌≡◌, refl, sym, ap, ◌∙◌, List, [], ◌∷◌, ◌++◌,
  Bool, true, false, ltb, ◌==◌, if◌then◌else◌, add32, ok, arith, Bool-cases, inl, inr, ltb→lt,
  ltb→le, flatten, length,
}
use os_stream_socket.Parser.Read.{IsBytes}
use os_stream_socket.Checksum.{InternetChecksum, add_byte, add, add_all, fold, value}

-- The representative of a sum modulo 65535: 0 for 0 only, and otherwise from 1 to 65535.
abbrev pub residue : ℕ → ℕ
residue s = if s == 0 then 0 else ((s - 1) % 65535 + 1)

fold_done : (fuel s : ℕ) → s ≤ 0xffff → fold (suc fuel) s ≡ ok s
unfolding fold
fold_done fuel s h = ground arith

fold_more :
    (fuel s : ℕ) → 0xffff < s → s < 2 ^ 32 → fold (suc fuel) s ≡ fold fuel (s / 2 ^ 16 + s % 2 ^ 16)
unfolding fold
fold_more fuel s h w =
    let e : (s / 2 ^ 16 + s % 2 ^ 16) % 2 ^ 32 ≡ s / 2 ^ 16 + s % 2 ^ 16 = omega arith in
    ground (arith, e)

residue_small : (s : ℕ) → s ≤ 0xffff → residue s ≡ s
residue_small s h = ground arith

residue_fold : (s : ℕ) → residue (s / 2 ^ 16 + s % 2 ^ 16) ≡ residue s
residue_fold s = ground arith

-- Two rounds are enough for 32 bits.
fold_lem : (s : ℕ) → s < 2 ^ 32 → fold 3 s ≡ ok (residue s)
fold_lem s w = elim (Bool-cases (ltb 0xffff s)) [
  | inr small ↦
      fold_done 2 s (ltb→le 0xffff s small) ∙ ap ok (sym (residue_small s (ltb→le 0xffff s small)))
  | inl big ↦
      let t = s / 2 ^ 16 + s % 2 ^ 16 in
      fold_more 2 s (ltb→lt 0xffff s big) w
      ∙ (elim (Bool-cases (ltb 0xffff t)) [
        | inr small ↦
            fold_done 1 t (ltb→le 0xffff t small)
            ∙ ap ok (sym (residue_small t (ltb→le 0xffff t small)))
        | inl more ↦
            let le : t / 2 ^ 16 + t % 2 ^ 16 ≤ 0xffff = omega (arith, w, ltb→lt 0xffff t more) in
            fold_more 1 t (ltb→lt 0xffff t more) (omega (arith, w))
            ∙ fold_done 0 (t / 2 ^ 16 + t % 2 ^ 16) le
            ∙ ap ok (sym (residue_small (t / 2 ^ 16 + t % 2 ^ 16) le) ∙ residue_fold t)
      ])
      ∙ ap ok (residue_fold s)
]

-- What `value` returns for a sum.
abbrev pub checksum_of : ℕ → ℕ
checksum_of s = 0xffff - residue s

pub value_lem : (c : InternetChecksum) → c.sum < 2 ^ 32 → value c ≡ ok (checksum_of c.sum)
unfolding value
value_lem c w =
    let e : (2 ^ 32 - 1 - residue c.sum) % 2 ^ 16 ≡ 0xffff - residue c.sum = ground arith in
    rw (fold_lem c.sum w) (ap ok e)

-- The sum of the words of the data, without a bound on it.
abbrev pub word_sum : Bool → List ℕ → ℕ
word_sum parity [] = 0
word_sum false (x ∷ xs) = x * 2 ^ 8 + word_sum true xs
word_sum true (x ∷ xs) = x + word_sum false xs

add-append : (xs ys : List ℕ) (c : InternetChecksum) → add (xs ++ ys) c ≡ add ys (add xs c)
unfolding add
add-append [] ys c = refl
add-append (x ∷ xs) ys c = add-append xs ys (add_byte x c)

-- Adding a list of buffers to a checksum is adding their bytes as one buffer, also when a buffer
-- has an odd number of bytes.
pub add_all-flatten :
    (bs : List (List ℕ)) (c : InternetChecksum) → add_all bs c ≡ add (flatten bs) c
unfolding add_all add
add_all-flatten [] c = refl
add_all-flatten (b ∷ bs) c = add_all-flatten bs (add b c) ∙ sym (add-append b (flatten bs) c)

abbrev at_sum : ℕ → Bool → InternetChecksum
at_sum s parity = record { sum = s; parity = parity }

add-from :
    (xs : List ℕ) (s : ℕ) (parity : Bool)
    → IsBytes xs
    → s + word_sum parity xs < 2 ^ 32
    → (add xs (at_sum s parity)).sum ≡ s + word_sum parity xs
unfolding add add_byte
add-from [] s parity v h = omega arith
add-from (x ∷ xs) s false (small, v) h =
    let e : add32 s (x * 2 ^ 8 % 2 ^ 16) ≡ s + x * 2 ^ 8 = omega (arith, small, h) in
    ap (λ n. (add xs (at_sum n true)).sum) e
    ∙ add-from xs (s + x * 2 ^ 8) true v (omega (arith, h))
    ∙ omega arith
add-from (x ∷ xs) s true (small, v) h =
    let e : add32 s x ≡ s + x = omega (arith, small, h) in
    ap (λ n. (add xs (at_sum n false)).sum) e
    ∙ add-from xs (s + x) false v (omega (arith, h))
    ∙ omega arith

-- Below 2 ^ 32 the sum is the sum of the words.
pub add_lem :
    (xs : List ℕ) (c : InternetChecksum)
    → IsBytes xs
    → c.sum + word_sum c.parity xs < 2 ^ 32
    → (add xs c).sum ≡ c.sum + word_sum c.parity xs
add_lem xs c v h = add-from xs c.sum c.parity v h

pub word_sum_le :
    (parity : Bool) (xs : List ℕ) → IsBytes xs → word_sum parity xs ≤ 65280 * length xs
word_sum_le parity [] v = omega arith
word_sum_le false (x ∷ xs) (small, v) = omega (arith, small, word_sum_le true xs v)
word_sum_le true (x ∷ xs) (small, v) = omega (arith, small, word_sum_le false xs v)

pub add_word : (xs : List ℕ) (c : InternetChecksum) → c.sum < 2 ^ 32 → (add xs c).sum < 2 ^ 32
unfolding add add_byte
add_word [] c h = h
add_word (x ∷ xs) c h = add_word xs (add_byte x c) (omega arith)

pub IsBytes-append : (xs ys : List ℕ) → IsBytes xs → IsBytes ys → IsBytes (xs ++ ys)
IsBytes-append [] ys v w = w
IsBytes-append (x ∷ xs) ys (h, v) w = (h, IsBytes-append xs ys v w)

-- Adding the checksum of a sum to it makes the checksum 0.
pub checksum_of-add : (s : ℕ) → checksum_of (s + checksum_of s) ≡ 0
checksum_of-add s = ground arith
