-- ===== src/Serializer/RoundTrip.antt =====
-- What the serializer writes is read back, with anything behind it.
use os_stream_socket.Base.{
  ℕ, zero, suc, ◌*◌, ◌/◌, ◌%◌, ◌^◌, ◌<◌, ◌≡◌, refl, sym, ap, subst, ◌∙◌, List, [], ◌∷◌, ◌++◌,
  append_assoc, append-nil, length, arith, flatten,
}
use os_stream_socket.Parser.{Parser}
use os_stream_socket.Parser
use os_stream_socket.Parser.Read.{IsBytes, decode, At, Yields, integer-Yields}
use os_stream_socket.Serializer.{
  Serializer, encode, integer, integers, finished, push_buffer, push_buffers,
}

-- A size for which the bytes of every number that fits make that number.
pub record IsWidth (n : ℕ) : Type 0 where
  pub back : (v : ℕ) → v < 2 ^ (8 * n) → decode n 0 (encode n v) ≡ v

pub one_byte : IsWidth 1
one_byte = record { back = λ v h. omega arith }

pub two_bytes : IsWidth 2
two_bytes = record { back = λ v h. omega arith }

pub four_bytes : IsWidth 4
four_bytes = record { back = λ v h. omega arith }

pub length-encode : (n v : ℕ) → length (encode n v) ≡ n
length-encode zero v = refl
length-encode (suc n) v = ap suc (length-encode n v)

-- One integer.
pub integer-encode :
    {n : ℕ} (out : ℕ) (p : Parser) (v : ℕ) (zs : List ℕ) (bs : List (List ℕ))
    → IsWidth n
    → v < 2 ^ (8 * n)
    → At p (encode n v ++ zs) bs
    → Yields (Parser.integer n out p) v zs bs
integer-encode {n} out p v zs bs w h at =
    subst (λ x. Yields (Parser.integer n out p) x zs bs) (w.back v h)
      (integer-Yields n out p (encode n v) zs bs (length-encode n v) at)

-- An array of bytes is written as it is.
pub integers_lem :
    (xs : List ℕ) (s : Serializer)
    → IsBytes xs
    → integers xs s ≡ record s { buffer = s.buffer ++ xs }
unfolding integers integer
integers_lem [] s v = ap (λ b. record s { buffer = b }) (sym (append-nil s.buffer))
integers_lem (x ∷ xs) s (h, v) =
    let same : x / 2 ^ (8 * 0) % 2 ^ 8 ≡ x = omega (arith, h) in
    integers_lem xs (record s { buffer = s.buffer ++ (x / 2 ^ (8 * 0) % 2 ^ 8) ∷ [] }) v
    ∙ ap {B = Serializer} (λ y. record s { buffer = s.buffer ++ y ∷ [] ++ xs }) same
    ∙ ap {B = Serializer} (λ b. record s { buffer = b }) (append_assoc s.buffer (x ∷ []) xs)

-- The buffers that come out if `hd` was written and the buffers `bs` were put behind it: each one
-- flushes what is written.
abbrev pub framed : List ℕ → List (List ℕ) → List (List ℕ)
framed hd [] = hd ∷ []
framed hd (b ∷ bs) = hd ∷ b ∷ framed [] bs

pub finished-push_buffers :
    (bs : List (List ℕ)) (s : Serializer)
    → finished (push_buffers bs s) ≡ s.output ++ framed s.buffer bs
unfolding finished push_buffers
finished-push_buffers [] s = refl
finished-push_buffers (b ∷ bs) s = finished-push_buffers bs (push_buffer b s) ∙ simp (append_assoc)

pub flatten-framed : (hd : List ℕ) (bs : List (List ℕ)) → flatten (framed hd bs) ≡ hd ++ flatten bs
flatten-framed hd [] = refl
flatten-framed hd (b ∷ bs) = ap (λ xs. hd ++ (b ++ xs)) (flatten-framed [] bs)
