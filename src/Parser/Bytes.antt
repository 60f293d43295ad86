-- ===== src/Parser/Bytes.antt =====
-- A list of buffers stands for the bytes that are left in it, however they are split.
use os_stream_socket.Base.{
  ℕ, zero, suc, ◌+◌, ◌-◌, ◌^◌, ◌≤◌, ◌<◌, ◌≡◌, ◌⊎◌, refl, sym, ap, ap₂, subst, ◌∙◌, List, [], ◌∷◌,
  ◌++◌, false, min, length, drop, flatten, ◌==◌, add64, sub64, Outcome, ok, arith, Bool-cases, inl,
  inr, length-drop, length-append, drop-nil, drop-drop, drop-append_left, drop-append_right, le→ltb,
  append_assoc, append-nil, eq_nil_of_length,
}
use os_stream_socket.Parser.{
  BufferList, append, append_all, buffer_list, substr, peek, remove_now, remove_loop, remove_prefix,
  dump_all, joined, dump_string,
}

unfoldable pub bytes : BufferList → List ℕ
bytes l = drop l.skip (flatten l.buffers)

-- The bytes skipped are some of the first buffer.
abbrev pub IsInside : List (List ℕ) → ℕ → Type 0
IsInside [] skip = skip ≡ 0
IsInside (b ∷ bs) skip = skip ≤ length b

pub record IsBufferList (l : BufferList) : Type 0 where
  pub size : l.size ≡ length (flatten l.buffers) - l.skip
  pub inside : IsInside l.buffers l.skip
  pub word : length (flatten l.buffers) < 2 ^ 64

pub Removes : ℕ → BufferList → Outcome BufferList → Type 0
Removes len l m =
    (l' : BufferList) × (m ≡ ok l') × IsBufferList l' × (bytes l' ≡ drop len (bytes l))

abbrev list_of : ℕ → List (List ℕ) → ℕ → BufferList
list_of size buffers skip = record { size = size; buffers = buffers; skip = skip }

none_left : (len : ℕ) (l : BufferList) → len ≡ 0 → IsBufferList l → Removes len l (ok l)
unfolding Removes
none_left len l e v = (l, refl, v, rw e)

peek_lem :
    (b : List ℕ) (bs : List (List ℕ)) (z k : ℕ)
    → k ≤ length b
    → peek (list_of z (b ∷ bs) k) ≡ ok (drop k b)
unfolding peek
peek_lem b bs z k h = rw (le→ltb (length b) k h) refl

IsInside-zero : (bs : List (List ℕ)) → IsInside bs 0
IsInside-zero [] = refl
IsInside-zero (b ∷ bs) = omega arith

-- A buffer that is used up, and one that is not.
used-Removes :
    (len now z k : ℕ) (b : List ℕ) (bs : List (List ℕ)) (m : Outcome BufferList)
    → k + now ≡ length b
    → now ≤ len
    → Removes (len - now) (list_of (sub64 z now) bs 0) m
    → Removes len (list_of z (b ∷ bs) k) m
unfolding Removes bytes
used-Removes len now z k b bs m e le (l, run, v, left) =
    let n : k + len ≡ length b + (len - now) = omega (arith, e, le) in
    (
      l,
      run,
      v,
      left
          ∙ sym (
              drop-drop len k (b ++ flatten bs)
              ∙ ap (λ i. drop i (b ++ flatten bs)) n
              ∙ drop-append_right b (flatten bs) (len - now)),
    )

more-Removes :
    (len z k : ℕ) (bufs : List (List ℕ)) (m : Outcome BufferList)
    → Removes 0 (list_of (sub64 z len) bufs (k + len)) m
    → Removes len (list_of z bufs k) m
unfolding Removes bytes
more-Removes len z k bufs m (l, run, v, left) =
    (l, run, v, left ∙ sym (drop-drop len k (flatten bufs)))

loop-Removes :
    (fuel len z : ℕ) (bufs : List (List ℕ)) (k : ℕ)
    → IsBufferList (list_of z bufs k)
    → len < 2 ^ 64
    → (length bufs + 2 ≤ fuel) ⊎ ((len ≡ 0) × (1 ≤ fuel))
    → Removes len (list_of z bufs k) (remove_loop fuel len (list_of z bufs k))
unfolding remove_loop Removes remove_now bytes
loop-Removes zero len z bufs k v w f = absurd (omega arith)
loop-Removes (suc fuel) zero z bufs k v w f = none_left 0 _ refl v
loop-Removes (suc fuel) (suc n) z [] k v w f =
    (list_of z [] k, refl, v, drop-nil k ∙ sym (ap (drop (suc n)) (drop-nil k)))
loop-Removes (suc fuel) (suc n) z (b ∷ bs) k v w f =
    let now = min (suc n) (length (drop k b)) in
    let left : length (drop k b) ≡ length b - k = length-drop k b in
    let whole : length (b ++ flatten bs) ≡ length b + length (flatten bs) =
      length-append b (flatten bs) in
    rw (peek_lem b bs z k v.inside) (elim (Bool-cases (add64 k now == length b)) [
      | inl used ↦
          let up : k + now ≡ length b = ground (arith, left, whole, used, v.word, v.inside) in
          let same : sub64 (suc n) now ≡ suc n - now = omega (arith, w) in
          rw used (
            used-Removes (suc n) now z k b bs _ up (omega arith) (
              subst
                (λ i.
                  Removes i (list_of (sub64 z now) bs 0)
                    (remove_loop fuel (sub64 (suc n) now) (list_of (sub64 z now) bs 0)))
                same
                (loop-Removes fuel (sub64 (suc n) now) (sub64 z now) bs 0
                  (record {
                    size = omega (arith, v.size, v.word, whole, up, v.inside);
                    inside = IsInside-zero bs;
                    word = omega (arith, v.word, whole);
                  })
                  (omega arith)
                  (elim f [ inl e ↦ inl (omega (arith, e)) | inr e ↦ absurd (omega (arith, e)) ]))))
      | inr more ↦
          let all : now ≡ suc n = ground (arith, left, whole, more, v.word, v.inside) in
          let far : add64 k (suc n) ≡ k + suc n =
            omega (arith, all, left, whole, v.word, v.inside) in
          let done : sub64 (suc n) (suc n) ≡ 0 = omega (arith, w) in
          rw more (
            rw all (
              rw (far, done)
                (more-Removes (suc n) z k (b ∷ bs) _ (
                  loop-Removes fuel 0 (sub64 z (suc n)) (b ∷ bs) (k + suc n)
                    (record {
                      size = omega (arith, v.size, v.word, whole, all, left, v.inside);
                      inside = omega (arith, all, left);
                      word = v.word;
                    })
                    (omega arith)
                    (inr (
                      refl,
                      elim f [ inl e ↦ omega (arith, e) | inr e ↦ absurd (omega (arith, e)) ],
                    ))))))
    ])

-- On a list of buffers in which the size is the number of bytes left, the bytes taken lie in the
-- first buffer and there are fewer than 2 ^ 64, `remove_prefix` of a 64-bit length returns; it
-- never throws or runs out of rounds. The result is such a list again, and its bytes are those of
-- the list without that many at the front, however they are cut into buffers.
pub remove_prefix_lem :
    (len : ℕ) (l : BufferList) → IsBufferList l → len < 2 ^ 64 → Removes len l (remove_prefix len l)
unfolding remove_prefix
remove_prefix_lem len l v w =
    loop-Removes (suc (suc (length l.buffers))) len l.size l.buffers l.skip v w (inl (omega arith))

append_all_lem :
    (xs bs : List (List ℕ)) (z : ℕ)
    → z + length (flatten xs) < 2 ^ 64
    → append_all xs (list_of z bs 0) ≡ list_of (z + length (flatten xs)) (bs ++ xs) 0
unfolding append_all append
append_all_lem [] bs z h = ap₂ (λ n bs. list_of n bs 0) (omega arith) (sym (append-nil bs))
append_all_lem (x ∷ xs) bs z h =
    let whole : length (x ++ flatten xs) ≡ length x + length (flatten xs) =
      length-append x (flatten xs) in
    let e : add64 z (length x) ≡ z + length x = omega (arith, h, whole) in
    rw e (
      append_all_lem xs (bs ++ x ∷ []) (z + length x) (omega (arith, h, whole))
      ∙ ap₂ (λ n bs. list_of n bs 0) (omega (arith, whole)) (append_assoc bs (x ∷ []) xs))

-- A new list stands for the bytes of its buffers.
pub buffer_list_lem :
    (bufs : List (List ℕ))
    → length (flatten bufs) < 2 ^ 64
    → buffer_list bufs ≡ record { size = length (flatten bufs); buffers = bufs; skip = 0 }
unfolding buffer_list
buffer_list_lem bufs h =
    append_all_lem bufs [] 0 (omega arith) ∙ ap (λ n. list_of n bufs 0) (omega arith)

pub buffer_list-IsBufferList :
    (bufs : List (List ℕ)) → length (flatten bufs) < 2 ^ 64 → IsBufferList (buffer_list bufs)
buffer_list-IsBufferList bufs h =
    rw (buffer_list_lem bufs h)
      (record { size = omega arith; inside = IsInside-zero bufs; word = h })

pub Dumps : BufferList → Type 0
Dumps l = (out : List (List ℕ)) × (dump_all l ≡ ok out) × (flatten out ≡ bytes l)

dump-list :
    (z : ℕ) (bs : List (List ℕ)) (k : ℕ) → IsBufferList (list_of z bs k) → Dumps (list_of z bs k)
unfolding Dumps dump_all bytes substr
dump-list zero bs k v =
    ([], refl, sym (eq_nil_of_length _ (omega (arith, length-drop k (flatten bs), v.size))))
dump-list (suc z) [] k v = absurd (omega (arith, v.size))
dump-list (suc z) (b ∷ bs) zero v =
    let some_left : (suc z == 0) ≡ false = ground arith in (b ∷ bs, rw some_left refl, refl)
dump-list (suc z) (b ∷ bs) (suc k) v =
    let some_left : (suc z == 0) ≡ false = ground arith in
    let none_skipped : (suc k == 0) ≡ false = ground arith in
    (
      drop (suc k) b ∷ bs,
      rw (some_left, none_skipped, le→ltb (length b) (suc k) v.inside) refl,
      sym (drop-append_left (suc k) b (flatten bs) v.inside),
    )

-- What `dump_all` returns holds the bytes that are left.
pub dump_all_lem : (l : BufferList) → IsBufferList l → Dumps l
dump_all_lem l v = dump-list l.size l.buffers l.skip v

pub joined_lem : (out : List (List ℕ)) → joined out ≡ flatten out
unfolding joined
joined_lem [] = refl
joined_lem (b ∷ []) = sym (append-nil b)
joined_lem (b ∷ c ∷ cs) = refl

pub dump_string_lem : (l : BufferList) → IsBufferList l → dump_string l ≡ ok (bytes l)
unfolding Dumps dump_string
dump_string_lem l v = let (out, run, e) = dump_all_lem l v in rw run (ap ok (joined_lem out ∙ e))
