-- ===== src/Reassembler/Prefix.antt =====
-- Any interleaving of insertions and reads delivers a prefix of the original stream.
use os_stream_socket.Base.{
  ℕ, ◌+◌, ◌-◌, ◌^◌, ◌≤◌, ◌<◌, ◌≡◌, refl, ap, sym, subst, ◌∙◌, List, [], ◌++◌, append_assoc, Bool,
  length, get_or, arith, ok, length-drop,
}
use os_stream_socket.ByteStream.{ByteStream, pop, peek}
use os_stream_socket.ByteStream
use os_stream_socket.ByteStream.Invariant.{pop-IsValid, new-IsValid}
use os_stream_socket.ByteStream.Order.{removed, pops, pop_order}
use os_stream_socket.Reassembler
use os_stream_socket.Reassembler.{Reassembler, insert}
use os_stream_socket.Reassembler.Window.{IsWindow}
use os_stream_socket.Reassembler.Substring.{room_of}
use os_stream_socket.Reassembler.Assemble.{segment, segment-append}
use os_stream_socket.Reassembler.Insert.{IsReady, Inserted, insert-Inserted}

IsWindow-mono :
    (truth : ℕ → ℕ) (room room' size : ℕ) (r : Reassembler)
    → room ≤ room'
    → IsWindow truth room size r
    → IsWindow truth room' size r
IsWindow-mono truth room room' size r h w = record {
  flags = w.flags;
  bytes = w.bytes;
  within = λ i t. omega (arith, w.within i t);
  counted = w.counted;
  agrees = w.agrees;
}

record Popped (o o' : ByteStream) : Type 0 where
  capacity : o'.capacity ≡ o.capacity
  write : o'.bytes_write ≡ o.bytes_write
  shorter : length o'.stream ≤ length o.stream

pop-Popped : (n : ℕ) (o : ByteStream) → Popped o (pop n o)
unfolding pop
pop-Popped n o = ground (arith, length-drop n o.stream)

-- Reading from the output keeps the reassembler in step with it.
pub pop-IsReady :
    (truth : ℕ → ℕ) (n : ℕ) (r : Reassembler) (o : ByteStream)
    → IsReady truth r o
    → IsReady truth r (pop n o)
pop-IsReady truth n r o h =
    let p = pop-Popped n o in
    record {
      valid = pop-IsValid n o h.valid;
      synced = h.synced ∙ sym p.write;
      unstarted = λ i.
          let x = h.unstarted i in
          record {
            flags = x.flags;
            bytes = x.bytes;
            pending = x.pending;
            stream = omega (arith, x.stream, p.shorter);
          };
      started = λ i.
          subst (λ c. IsWindow truth (room_of (pop n o)) c r) (sym p.capacity)
            (IsWindow-mono truth (room_of o) (room_of (pop n o)) o.capacity r
              (omega (arith, p.capacity, p.shorter)) (h.started i));
      waits = h.waits;
    }

pub new-IsReady :
    (truth : ℕ → ℕ) (capacity : ℕ)
    → capacity < 2 ^ 64
    → IsReady truth Reassembler.new (ByteStream.new capacity)
unfolding Reassembler.new ByteStream.new
new-IsReady truth capacity h = record {
  valid = unfold ByteStream.new in new-IsValid capacity h;
  synced = refl;
  unstarted = λ i. record { flags = refl; bytes = refl; pending = refl; stream = refl };
  started = λ i. absurd (cc);
  waits = refl;
}

-- A reassembler with its output, and the bytes that the reader has taken out so far.
pub record Session : Type 0 where
  pub reassembler : Reassembler
  pub output : ByteStream
  pub taken : List ℕ

-- The network may insert any substring of the stream that starts inside the window, as often as it
-- likes and in any order; the reader may ask for any number of bytes.
pub data Step (truth : ℕ → ℕ) : Session → Session → Type 0 where
  inserts :
      (s t : Session) (first : ℕ) (bytes : List ℕ) (is_last : Bool)
      → ((j : ℕ) → j < length bytes → get_or bytes j 0 ≡ truth (first + j))
      → first ≤ s.reassembler.base_index + room_of s.output
      → s.reassembler.base_index + s.output.capacity < 2 ^ 64
      → first + length bytes < 2 ^ 64
      → insert first bytes is_last s.output s.reassembler ≡ ok (t.reassembler, t.output)
      → t.taken ≡ s.taken
      → Step truth s t
  reads :
      (s : Session) (n : ℕ)
      → Step truth s
          (record s { output = pop n s.output; taken = s.taken ++ removed s.output (pops n) })

pub data Reach (truth : ℕ → ℕ) (s : Session) : Session → Type 0 where
  here : Reach truth s s
  next : {t u : Session} → Reach truth s t → Step truth t u → Reach truth s u

pub record IsPrefix (truth : ℕ → ℕ) (s : Session) : Type 0 where
  pub ready : IsReady truth s.reassembler s.output
  pub delivered : s.taken ++ peek s.output ≡ segment truth 0 s.reassembler.base_index

segment-split :
    (truth : ℕ → ℕ) (m n : ℕ)
    → m ≤ n
    → segment truth 0 m ++ segment truth m (n - m) ≡ segment truth 0 n
segment-split truth m n h =
    let e : 0 + m ≡ m = omega arith in
    let f : m + (n - m) ≡ n = omega arith in
    let whole : segment truth 0 m ++ segment truth (0 + m) (n - m) ≡ segment truth 0 (m + (n - m)) =
      segment-append truth 0 m (n - m) in
    rw (e, f) at whole

Inserted-IsPrefix :
    (truth : ℕ → ℕ) (first : ℕ) (bytes : List ℕ) (is_last : Bool) (s t : Session)
    → Inserted truth first bytes is_last s.reassembler s.output t.reassembler t.output
    → t.taken ≡ s.taken
    → IsPrefix truth s
    → IsPrefix truth t
Inserted-IsPrefix truth first bytes is_last s t i kept p = record {
  ready = i.ready;
  delivered =
      let b = s.reassembler.base_index in
      let n = t.reassembler.base_index in
      let a : peek t.output ≡ peek s.output ++ segment truth b (n - b) =
        unfold peek in i.appended in
      rw kept (
        ap (◌++◌ s.taken) a
        ∙ sym (append_assoc s.taken (peek s.output) (segment truth b (n - b)))
        ∙ ap (λ xs. xs ++ segment truth b (n - b)) p.delivered
        ∙ segment-split truth b n i.advances);
}

Step-IsPrefix :
    (truth : ℕ → ℕ) (s t : Session) → Step truth s t → IsPrefix truth s → IsPrefix truth t
Step-IsPrefix truth s t (inserts _ _ first bytes is_last same inside no_wrap word run kept) p =
    let (r', o', run', i) =
      insert-Inserted truth first bytes is_last s.output s.reassembler p.ready same inside no_wrap
        word in
    let e : t.reassembler ≡ r' = ground (arith, run, run') in
    let f : t.output ≡ o' = ground (arith, run, run') in
    Inserted-IsPrefix truth first bytes is_last s t (rw (e, f) i) kept p
Step-IsPrefix truth s _ (reads _ n) p = record {
  ready = pop-IsReady truth n s.reassembler s.output p.ready;
  delivered =
      append_assoc s.taken (removed s.output (pops n)) (peek (pop n s.output))
      ∙ ap (◌++◌ s.taken) (pop_order n s.output)
      ∙ p.delivered;
}

abbrev pub start : ℕ → Session
start capacity = record {
  reassembler = Reassembler.new;
  output = ByteStream.new capacity;
  taken = [];
}

start-IsPrefix :
    (truth : ℕ → ℕ) (capacity : ℕ) → capacity < 2 ^ 64 → IsPrefix truth (start capacity)
start-IsPrefix truth capacity h = record {
  ready = new-IsReady truth capacity h;
  delivered = unfold Reassembler.new ByteStream.new peek in refl;
}

pub Reach-IsPrefix :
    (truth : ℕ → ℕ) (capacity : ℕ) {s : Session}
    → capacity < 2 ^ 64
    → Reach truth (start capacity) s
    → IsPrefix truth s
Reach-IsPrefix truth capacity h here = start-IsPrefix truth capacity h
Reach-IsPrefix truth capacity h (next {t} {u} r st) =
    Step-IsPrefix truth t u st (Reach-IsPrefix truth capacity h r)

-- However substrings of one stream arrive, repeated, overlapping or out of order, and however the
-- reader interleaves with them, if the capacity is less than 2 ^ 64, every substring starts inside
-- the window or before it, and no index reaches 2 ^ 64: the bytes taken out so far followed by
-- those that wait in the output are the first `base_index` bytes of the stream, and `base_index`
-- is what the output counts as pushed.
pub Reach-prefix :
    (truth : ℕ → ℕ) (capacity : ℕ) {s : Session}
    → capacity < 2 ^ 64
    → Reach truth (start capacity) s
    → (s.taken ++ peek s.output ≡ segment truth 0 s.reassembler.base_index)
      × (s.reassembler.base_index ≡ ByteStream.bytes_pushed s.output)
unfolding ByteStream.bytes_pushed
Reach-prefix truth capacity h reach =
    let p = Reach-IsPrefix truth capacity h reach in (p.delivered, p.ready.synced)
