-- ===== src/Parser/Read.antt =====
-- Reading integers from the front of the first buffer.
use os_stream_socket.Base.{
  ℕ, suc, ◌+◌, ◌*◌, ◌%◌, ◌^◌, ◌≤◌, ◌<◌, ◌≡◌, refl, sym, ap, ap₂, ◌∙◌, List, [], ◌∷◌, ◌++◌, true,
  false, min, length, drop, flatten, ◌==◌, if◌then◌else◌, add64, sub64, Outcome, ok, arith,
  Bool-cases, inl, inr, length-append, le→ltb, append_assoc, ◌>>=◌, eq_nil_of_length,
}
use os_stream_socket.Parser.{
  BufferList, Parser, new, buffer_list, peek, remove_now, remove_loop, remove_prefix, take_byte,
  read_bytes, read_unless, check_size, integer, integers, dump_all, dump_string, joined,
  all_remaining, remaining_string, skip_prefix,
}
use os_stream_socket.Parser.Bytes.{
  bytes, buffer_list_lem, buffer_list-IsBufferList, joined_lem, dump_string_lem,
}

abbrev pub IsBytes : List ℕ → Type 0
IsBytes [] = Unit
IsBytes (x ∷ xs) = (x < 2 ^ 8) × IsBytes xs

-- Where a parser stands: `zs` is left of a buffer, and `bs` are the buffers behind it.
pub data Shape : BufferList → List ℕ → List (List ℕ) → Type 0 where
  between : (bs : List (List ℕ)) (z : ℕ) → Shape (record { size = z; buffers = bs; skip = 0 }) [] bs
  within :
      (passed : List ℕ) (x : ℕ) (xs : List ℕ) (bs : List (List ℕ)) (z : ℕ)
      → Shape
          (record { size = z; buffers = (passed ++ x ∷ xs) ∷ bs; skip = length passed })
          (x ∷ xs)
          bs

pub record At (p : Parser) (zs : List ℕ) (bs : List (List ℕ)) : Type 0 where
  pub fine : p.error ≡ false
  pub shape : Shape p.input zs bs
  pub size : p.input.size ≡ length zs + length (flatten bs)
  pub word : p.input.size < 2 ^ 64
  pub narrow : p.input.skip + length zs < 2 ^ 64

-- The outcome is `a`, and the parser stands at `zs` then.
pub Yields {ℓ} : {A : Type ℓ} → Outcome (A × Parser) → A → List ℕ → List (List ℕ) → Type ℓ
Yields m a zs bs = (p : Parser) × (m ≡ ok (a, p)) × At p zs bs

pub bind-Yields {ℓ κ} :
    {A : Type ℓ} {B : Type κ} (m : Outcome (A × Parser)) (f : A × Parser → Outcome (B × Parser))
    (a : A) (b : B) (zs ys : List ℕ) (bs cs : List (List ℕ))
    → Yields m a zs bs
    → ((p : Parser) → At p zs bs → Yields (f (a, p)) b ys cs)
    → Yields (m >>= f) b ys cs
unfolding Yields
bind-Yields m f a b zs ys bs cs (p, run, at) next =
    let (q, run', at') = next p at in (q, ap (λ o. o >>= f) run ∙ run', at')

drop_passed : (passed ys : List ℕ) → drop (length passed) (passed ++ ys) ≡ ys
drop_passed [] ys = refl
drop_passed (x ∷ xs) ys = drop_passed xs ys

-- The first byte is seen, and removing it moves on by one.
record Moves (x : ℕ) (xs : List ℕ) (bs : List (List ℕ)) (l : BufferList) (l' : BufferList)
    : Type 0 where
  seen : peek l ≡ ok (x ∷ xs)
  gone : remove_prefix 1 l ≡ ok l'
  shape : Shape l' xs bs
  size : l'.size ≡ sub64 l.size 1
  narrow : l'.skip + length xs ≤ l.skip + length (x ∷ xs)

peek_within :
    (passed ys : List ℕ) (bs : List (List ℕ)) (z : ℕ)
    → peek (record { size = z; buffers = (passed ++ ys) ∷ bs; skip = length passed }) ≡ ok ys
unfolding peek
peek_within passed ys bs z =
    rw (le→ltb (length (passed ++ ys)) (length passed) (omega (arith, length-append passed ys)))
      (ap ok (drop_passed passed ys))

Shape-Moves :
    {l : BufferList} {x : ℕ} {xs : List ℕ} {bs : List (List ℕ)}
    → Shape l (x ∷ xs) bs
    → l.skip + length (x ∷ xs) < 2 ^ 64
    → (l' : BufferList) × Moves x xs bs l l'
unfolding remove_prefix remove_loop remove_now
Shape-Moves (within passed x [] bs z) h =
    let at_end : (add64 (length passed) 1 == length (passed ++ x ∷ [])) ≡ true =
      ground (arith, length-append passed (x ∷ [])) in
    (
      record { size = sub64 z 1; buffers = bs; skip = 0 },
      record {
        seen = peek_within passed (x ∷ []) bs z;
        gone = rw (peek_within passed (x ∷ []) bs z) (rw at_end refl);
        shape = between bs (sub64 z 1);
        size = refl;
        narrow = omega arith;
      },
    )
Shape-Moves (within passed x (y ∷ ys) bs z) h =
    let inside : (add64 (length passed) 1 == length (passed ++ x ∷ y ∷ ys)) ≡ false =
      ground (arith, length-append passed (x ∷ y ∷ ys)) in
    let on : add64 (length passed) 1 ≡ length (passed ++ x ∷ []) =
      omega (arith, h, length-append passed (x ∷ [])) in
    let one : min 1 (length (x ∷ y ∷ ys)) ≡ 1 = omega arith in
    let moved : passed ++ x ∷ y ∷ ys ≡ (passed ++ x ∷ []) ++ y ∷ ys =
      sym (append_assoc passed (x ∷ []) (y ∷ ys)) in
    let l : BufferList = record {
      size = z;
      buffers = (passed ++ x ∷ y ∷ ys) ∷ bs;
      skip = length passed;
    } in
    let rest = λ (view : List ℕ).
      remove_loop (suc (suc (length bs))) (sub64 1 (min 1 (length view)))
        (remove_now (min 1 (length view)) l) in
    let stepped : rest (x ∷ y ∷ ys)
        ≡ ok (record {
          size = sub64 z 1;
          buffers = ((passed ++ x ∷ []) ++ y ∷ ys) ∷ bs;
          skip = length (passed ++ x ∷ []);
        }) =
      rw one (
        rw inside
          (ap₂ (λ b k. ok (record { size = sub64 z 1; buffers = b ∷ bs; skip = k })) moved on)) in
    (
      record {
        size = sub64 z 1;
        buffers = ((passed ++ x ∷ []) ++ y ∷ ys) ∷ bs;
        skip = length (passed ++ x ∷ []);
      },
      record {
        seen = peek_within passed (x ∷ y ∷ ys) bs z;
        gone = ap (λ o. o >>= rest) (peek_within passed (x ∷ y ∷ ys) bs z) ∙ stepped;
        shape = within (passed ++ x ∷ []) y ys bs (sub64 z 1);
        size = refl;
        narrow = omega (arith, length-append passed (x ∷ []));
      },
    )

pub take_byte-Yields :
    (p : Parser) (x : ℕ) (xs : List ℕ) (bs : List (List ℕ))
    → At p (x ∷ xs) bs
    → Yields (take_byte p) x xs bs
unfolding take_byte Yields
take_byte-Yields p x xs bs at =
    let (l, m) = Shape-Moves at.shape at.narrow in
    (
      record p { input = l },
      rw (m.seen, m.gone) refl,
      record {
        fine = at.fine;
        shape = m.shape;
        size = omega (arith, m.size, at.size, at.word);
        word = omega (arith, m.size);
        narrow = omega (arith, m.narrow, at.narrow);
      },
    )

-- The number that the bytes make after `out`, as the loop of `integer` computes it.
abbrev pub decode : ℕ → ℕ → List ℕ → ℕ
decode bytes out [] = out
decode bytes out (x ∷ xs) = decode bytes (out * 2 ^ 8 % 2 ^ (8 * bytes) + x) xs

read_bytes-Yields :
    (bytes out : ℕ) (p : Parser) (ys zs : List ℕ) (bs : List (List ℕ))
    → At p (ys ++ zs) bs
    → Yields (read_bytes bytes (length ys) out p) (decode bytes out ys) zs bs
unfolding read_bytes
read_bytes-Yields bytes out p [] zs bs at = unfold Yields in (p, refl, at)
read_bytes-Yields bytes out p (y ∷ ys) zs bs at =
    bind-Yields (take_byte p)
      (λ r. read_bytes bytes (length ys) (out * 2 ^ 8 % 2 ^ (8 * bytes) + r.0) r.1) y
      (decode bytes out (y ∷ ys)) (ys ++ zs) zs bs bs (take_byte-Yields p y (ys ++ zs) bs at)
      (λ q at'. read_bytes-Yields bytes (out * 2 ^ 8 % 2 ^ (8 * bytes) + y) q ys zs bs at')

pub eq-Yields {ℓ} :
    {A : Type ℓ} {m m' : Outcome (A × Parser)} (a : A) (zs : List ℕ) (bs : List (List ℕ))
    → m ≡ m'
    → Yields m' a zs bs
    → Yields m a zs bs
unfolding Yields
eq-Yields a zs bs e (p, run, at) = (p, e ∙ run, at)

enough :
    (bytes : ℕ) (p : Parser) (zs : List ℕ) (bs : List (List ℕ))
    → bytes ≤ length zs
    → At p zs bs
    → check_size bytes p ≡ p
unfolding check_size
enough bytes p zs bs h at = rw (le→ltb p.input.size bytes (omega (arith, h, at.size))) refl

-- An integer whose bytes stand in one buffer.
pub integer-Yields :
    (bytes out : ℕ) (p : Parser) (ys zs : List ℕ) (bs : List (List ℕ))
    → length ys ≡ bytes
    → At p (ys ++ zs) bs
    → Yields (integer bytes out p) (decode bytes 0 ys) zs bs
unfolding integer read_unless
integer-Yields bytes out p ys zs bs e at =
    eq-Yields (decode bytes 0 ys) zs bs
      (ap (λ q. read_unless q.error bytes out q)
          (enough bytes p (ys ++ zs) bs (omega (arith, e, length-append ys zs)) at)
        ∙ ap (λ b. read_unless b bytes out p) at.fine
        ∙ ap (λ n. read_bytes bytes n 0 p) (sym e))
      (read_bytes-Yields bytes 0 p ys zs bs at)

-- An array of bytes.
pub integers-Yields :
    (old : List ℕ) (p : Parser) (ys zs : List ℕ) (bs : List (List ℕ))
    → length old ≡ length ys
    → IsBytes ys
    → At p (ys ++ zs) bs
    → Yields (integers old p) ys zs bs
unfolding integers Yields
integers-Yields [] p [] zs bs e v at = (p, refl, at)
integers-Yields [] p (y ∷ ys) zs bs e v at = absurd (omega (arith, e))
integers-Yields (o ∷ os) p [] zs bs e v at = absurd (omega (arith, e))
integers-Yields (o ∷ os) p (y ∷ ys) zs bs e (small, v) at =
    let (q, run, at') = integer-Yields 1 o p (y ∷ []) (ys ++ zs) bs refl at in
    let (q', run', at'') = integers-Yields os q ys zs bs (omega (arith, e)) v at' in
    let same : decode 1 0 (y ∷ []) ≡ y = omega (arith, small) in
    (q', rw (run, run') (ap (λ x. ok (x ∷ ys, q')) same), at'')

-- A new parser stands at its first buffer.
pub new-At :
    (zs : List ℕ) (bs : List (List ℕ))
    → 0 < length zs
    → length (flatten (zs ∷ bs)) < 2 ^ 64
    → At (new (zs ∷ bs)) zs bs
unfolding new
new-At [] bs n h = absurd (omega arith)
new-At (x ∷ xs) bs n h = rw (buffer_list_lem ((x ∷ xs) ∷ bs) h) (record {
  fine = refl;
  shape = within [] x xs bs _;
  size = omega (arith, length-append (x ∷ xs) (flatten bs));
  word = h;
  narrow = omega (arith, h, length-append (x ∷ xs) (flatten bs));
})

pub done-Yields {ℓ} :
    {A : Type ℓ} (a : A) (p : Parser) (zs : List ℕ) (bs : List (List ℕ))
    → At p zs bs
    → Yields (ok (a, p)) a zs bs
unfolding Yields
done-Yields a p zs bs at = (p, refl, at)

-- What follows a reader that yields.
pub after-Yields {ℓ κ} :
    {A : Type ℓ} {B : Type κ} (m : Outcome (A × Parser)) (f : A × Parser → Outcome B) (a : A)
    (b : B) (zs : List ℕ) (bs : List (List ℕ))
    → Yields m a zs bs
    → ((p : Parser) → At p zs bs → f (a, p) ≡ ok b)
    → (m >>= f) ≡ ok b
unfolding Yields
after-Yields m f a b zs bs (p, run, at) next = ap (λ o. o >>= f) run ∙ next p at

remaining-between :
    {l : BufferList} {bs : List (List ℕ)}
    → Shape l [] bs
    → l.size ≡ length (flatten bs)
    → dump_all l ≡ ok (if length (flatten bs) == 0 then [] else bs)
unfolding dump_all
remaining-between (between [] z) e = ground (arith, e)
remaining-between (between (b ∷ bs) z) e =
    ap (λ n. if n == 0 then ok [] else ok (b ∷ bs)) e
    ∙ (elim (Bool-cases (length (flatten (b ∷ bs)) == 0)) [ inl h ↦ rw h refl | inr h ↦ rw h refl ])

-- What remains at the end of a buffer are the buffers behind it, or none if they hold no byte.
pub remaining-At :
    (p : Parser) (bs : List (List ℕ))
    → At p [] bs
    → all_remaining p ≡ ok (if length (flatten bs) == 0 then [] else bs)
unfolding all_remaining
remaining-At p bs at = remaining-between at.shape (omega (arith, at.size))

pub skip_nothing : (p : Parser) → skip_prefix 0 p ≡ ok p
unfolding skip_prefix remove_prefix remove_loop
skip_nothing p = refl

-- The same as one string.
pub remaining_string-At :
    (p : Parser) (bs : List (List ℕ)) → At p [] bs → remaining_string p ≡ ok (flatten bs)
unfolding remaining_string dump_string all_remaining
remaining_string-At p bs at =
    ap (λ o. o >>= λ concat. ok (joined concat)) (remaining-At p bs at)
    ∙ (elim (Bool-cases (length (flatten bs) == 0)) [
      | inl h ↦ rw h (ap ok (sym (eq_nil_of_length (flatten bs) (ground (arith, h)))))
      | inr h ↦ rw h (ap ok (joined_lem bs))
    ])

pub remaining_string-new :
    (bufs : List (List ℕ))
    → length (flatten bufs) < 2 ^ 64
    → remaining_string (new bufs) ≡ ok (flatten bufs)
unfolding remaining_string new bytes
remaining_string-new bufs h =
    dump_string_lem (buffer_list bufs) (buffer_list-IsBufferList bufs h)
    ∙ ap (λ l. ok (bytes l)) (buffer_list_lem bufs h)
