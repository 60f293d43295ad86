-- ===== src/ByteStream/Order.antt =====
-- Histories of a byte stream: what goes in comes out, in order, and the counters say how much.
use os_stream_socket.Base.{
  ℕ, ◌+◌, ◌%◌, ◌^◌, ◌≡◌, ap, sym, ◌∙◌, List, [], ◌∷◌, ◌++◌, append-nil, append_assoc, min, length,
  take, length-append, length-take, take-append-drop, take_all, ltb, Bool-cases, inl, inr, ltb→le,
  if◌then◌else◌, sub64, arith,
}
use os_stream_socket.ByteStream.{
  ByteStream, push, pop, close, set_error, available_capacity, bytes_pushed, bytes_popped, peek,
}
use os_stream_socket.ByteStream.Invariant.{
  IsValid, push-IsValid, pop-IsValid, close-IsValid, set_error-IsValid,
}

-- A call by a writer or a reader.
pub data Op : Type 0 where
  pushes : List ℕ → Op
  pops : ℕ → Op
  closes : Op
  fails : Op

pub step : ByteStream → Op → ByteStream
step s (pushes bytes) = push bytes s
step s (pops len) = pop len s
step s closes = close s
step s fails = set_error s

pub run : ByteStream → List Op → ByteStream
run s [] = s
run s (op ∷ ops) = run (step s op) ops

-- The bytes that a call puts in: of those given, as many as the free room admits.
pub accepted : ByteStream → Op → List ℕ
accepted s (pushes bytes) = take (available_capacity s) bytes
accepted s _ = []

-- The bytes that a call takes out: none, if more are asked for than there are.
pub removed : ByteStream → Op → List ℕ
removed s (pops len) = if ltb (length (peek s)) len then [] else take len (peek s)
removed s _ = []

pub all_accepted : ByteStream → List Op → List ℕ
all_accepted s [] = []
all_accepted s (op ∷ ops) = accepted s op ++ all_accepted (step s op) ops

pub all_removed : ByteStream → List Op → List ℕ
all_removed s [] = []
all_removed s (op ∷ ops) = removed s op ++ all_removed (step s op) ops

pub step-IsValid : (op : Op) (s : ByteStream) → IsValid s → IsValid (step s op)
unfolding step
step-IsValid (pushes bytes) s v = push-IsValid bytes s v
step-IsValid (pops len) s v = pop-IsValid len s v
step-IsValid closes s v = close-IsValid s v
step-IsValid fails s v = set_error-IsValid s v

-- Cutting a list at its own length or beyond is no cut.
take-min {ℓ} : {A : Type ℓ} (n : ℕ) (xs : List A) → take (min (length xs) n) xs ≡ take n xs
take-min n xs = elim (Bool-cases (ltb n (length xs))) [
  | inl h ↦ ap (λ k. take k xs) (ground arith)
  | inr h ↦
      take_all (min (length xs) n) xs (ground arith) ∙ sym (take_all n xs (ltb→le n (length xs) h))
]

step_order : (op : Op) (s : ByteStream) → removed s op ++ peek (step s op) ≡ peek s ++ accepted s op
unfolding step removed accepted peek push pop close set_error available_capacity
step_order (pushes bytes) s =
    ap (◌++◌ s.stream) (take-min (sub64 s.capacity (length s.stream)) bytes)
step_order (pops len) s = elim (Bool-cases (ltb (length s.stream) len)) [
  | inl short ↦ rw short (sym (append-nil s.stream))
  | inr enough ↦ rw enough (take-append-drop len s.stream ∙ sym (append-nil s.stream))
]
step_order closes s = sym (append-nil s.stream)
step_order fails s = sym (append-nil s.stream)

-- What `pop` takes out and what it leaves are what was buffered.
pub pop_order : (n : ℕ) (s : ByteStream) → removed s (pops n) ++ peek (pop n s) ≡ peek s
unfolding step accepted
pop_order n s = step_order (pops n) s ∙ append-nil (peek s)

step_counts :
    (op : Op) (s : ByteStream)
    → IsValid s
    → (bytes_pushed (step s op) ≡ (bytes_pushed s + length (accepted s op)) % 2 ^ 64)
      × (bytes_popped (step s op) ≡ (bytes_popped s + length (removed s op)) % 2 ^ 64)
unfolding step removed accepted peek push pop close set_error available_capacity bytes_pushed
    bytes_popped
step_counts (pushes bytes) s v =
    omega (arith, length-take (sub64 s.capacity (length s.stream)) bytes)
step_counts (pops len) s v = ground (arith, length-take len s.stream)
step_counts closes s v = omega arith
step_counts fails s v = omega arith

-- Whatever sequence of calls is made, the bytes taken out followed by those still buffered are the
-- bytes buffered at the start followed by those put in, in order: none is lost, repeated or moved.
pub run_order :
    (ops : List Op) (s : ByteStream)
    → all_removed s ops ++ peek (run s ops) ≡ peek s ++ all_accepted s ops
unfolding run all_removed all_accepted
run_order [] s = sym (append-nil (peek s))
run_order (op ∷ ops) s =
    append_assoc (removed s op) (all_removed (step s op) ops) (peek (run (step s op) ops))
    ∙ ap (◌++◌ (removed s op)) (run_order ops (step s op))
    ∙ sym (append_assoc (removed s op) (peek (step s op)) (all_accepted (step s op) ops))
    ∙ ap (λ xs. xs ++ all_accepted (step s op) ops) (step_order op s)
    ∙ append_assoc (peek s) (accepted s op) (all_accepted (step s op) ops)

record Counts (s : ByteStream) (ops : List Op) : Type 0 where
  valid : IsValid (run s ops)
  pushed : bytes_pushed (run s ops) ≡ (bytes_pushed s + length (all_accepted s ops)) % 2 ^ 64
  popped : bytes_popped (run s ops) ≡ (bytes_popped s + length (all_removed s ops)) % 2 ^ 64

run-Counts : (ops : List Op) (s : ByteStream) → IsValid s → Counts s ops
unfolding run all_removed all_accepted
run-Counts [] s v = record {
  valid = v;
  pushed = unfold bytes_pushed in omega arith;
  popped = unfold bytes_popped in omega arith;
}
run-Counts (op ∷ ops) s v =
    let rest = run-Counts ops (step s op) (step-IsValid op s v) in
    let one = step_counts op s v in
    record {
      valid = rest.valid;
      pushed =
          omega (
            arith,
            rest.pushed,
            one.0,
            length-append (accepted s op) (all_accepted (step s op) ops),
          );
      popped =
          omega
            (arith, rest.popped, one.1, length-append (removed s op) (all_removed (step s op) ops));
    }

-- From a valid stream any sequence of calls leads to a valid one, where `bytes_pushed` and
-- `bytes_popped` have grown, modulo 2 ^ 64, by the numbers of bytes put in and taken out.
pub run_counts :
    (ops : List Op) (s : ByteStream)
    → IsValid s
    → IsValid (run s ops)
      × (bytes_pushed (run s ops) ≡ (bytes_pushed s + length (all_accepted s ops)) % 2 ^ 64)
      × (bytes_popped (run s ops) ≡ (bytes_popped s + length (all_removed s ops)) % 2 ^ 64)
run_counts ops s v = let c = run-Counts ops s v in (c.valid, c.pushed, c.popped)
