-- ===== src/Reassembler/Insert.antt =====
-- `insert` as a whole: the invariant of a reassembler with its output, and what a call does.
use os_stream_socket.Base.{
  ℕ, zero, suc, ◌+◌, ◌-◌, ◌^◌, ◌≤◌, ◌<◌, ◌≡◌, ◌⊎◌, refl, ap, sym, ◌∙◌, List, [], ◌++◌, Bool, true,
  false, ◌&&◌, ◌||◌, length, get_or, arith, Outcome, ok, get_or-replicate, length-replicate,
  replicate, ◌==◌, if◌then◌else◌, Bool-cases, inl, inr, dec_lt, get_or-append-replicate,
}
use os_stream_socket.ByteStream.{ByteStream, available_capacity}
use os_stream_socket.ByteStream
use os_stream_socket.ByteStream.Invariant.{IsValid, available_capacity_lem, close-IsValid}
use os_stream_socket.Reassembler.{Reassembler, initialize, finish, insert}
use os_stream_socket.Reassembler.Flags.{known}
use os_stream_socket.Reassembler.Window.{IsWindow}
use os_stream_socket.Reassembler.Substring.{room_of, Kept, store_substring-Kept}
use os_stream_socket.Reassembler.Assemble.{segment, Moved, assemble-Moved}

-- Before the first call the vectors and the output are empty.
pub record IsEmpty (r : Reassembler) (output : ByteStream) : Type 0 where
  pub flags : r.flag ≡ []
  pub bytes : r.buffer ≡ []
  pub pending : r.unassembled_size ≡ 0
  pub stream : length output.stream ≡ 0

-- The reassembler stands where the output ends; after the first call its window is as large as the
-- output, keeps bytes of the stream `truth` only, and does not know the next byte.
pub record IsReady (truth : ℕ → ℕ) (r : Reassembler) (output : ByteStream) : Type 0 where
  pub valid : IsValid output
  pub synced : r.base_index ≡ output.bytes_write
  pub unstarted : r.initialized ≡ false → IsEmpty r output
  pub started : r.initialized ≡ true → IsWindow truth (room_of output) output.capacity r
  pub waits : get_or r.flag 0 false ≡ false

-- What the vectors are after `initialize`.
record Initialized (truth : ℕ → ℕ) (r : Reassembler) (output : ByteStream) (s : Reassembler)
    : Type 0 where
  window : IsWindow truth (room_of output) output.capacity s
  base : s.base_index ≡ r.base_index
  ends : s.eof ≡ r.eof
  start : s.initialized ≡ true
  keeps : (i : ℕ) → get_or r.flag i false ≡ true → get_or s.flag i false ≡ true

no_flag : (n i : ℕ) → get_or (replicate n false) i false ≡ true → ⊥
no_flag n i h = let e = get_or-replicate false n i in cc

known-replicate : (n : ℕ) → known (replicate n false) ≡ 0
unfolding known
known-replicate zero = refl
known-replicate (suc n) = known-replicate n

pub grown : ByteStream → Reassembler → Reassembler
grown output r = record r {
  flag = r.flag ++ replicate (available_capacity output) false;
  buffer = r.buffer ++ replicate (available_capacity output) 0;
  initialized = true;
}

pub initialize_cases :
    (output : ByteStream) (r : Reassembler) {b : Bool}
    → r.initialized ≡ b
    → initialize output r ≡ (if b then r else grown output r)
unfolding initialize grown
initialize_cases output r e = ap (λ b. if b then r else grown output r) e

-- `initialize` adds unknown places only.
pub record Same (r s : Reassembler) : Type 0 where
  pub base : s.base_index ≡ r.base_index
  pub pending : s.unassembled_size ≡ r.unassembled_size
  pub flags : (i : ℕ) → get_or s.flag i false ≡ get_or r.flag i false

pub initialize-Same : (output : ByteStream) (r : Reassembler) → Same r (initialize output r)
initialize-Same output r = elim (Bool-cases r.initialized) [
  | inl old ↦
      rw (initialize_cases output r old) (record { base = refl; pending = refl; flags = λ i. refl })
  | inr first ↦ rw (initialize_cases output r first) (
      unfold grown in
      record {
        base = refl;
        pending = refl;
        flags = λ i. get_or-append-replicate false r.flag (available_capacity output) i;
      })
]

module _ (truth : ℕ → ℕ) (r : Reassembler) (output : ByteStream)
    (ready : IsReady truth r output) where
  room-IsEmpty : IsEmpty r output → available_capacity output ≡ output.capacity
  room-IsEmpty e = omega (arith, e.stream, available_capacity_lem output ready.valid)

  grown-Initialized : IsEmpty r output → Initialized truth r output (grown output r)
  unfolding grown
  grown-Initialized e =
      let size = available_capacity output in
      record {
        window = record {
          flags = rw e.flags (length-replicate size false ∙ room-IsEmpty e);
          bytes = rw e.bytes (length-replicate {A = ℕ} size 0 ∙ room-IsEmpty e);
          within = λ i t. absurd (no_flag size i (rw e.flags at t));
          counted = rw e.flags (e.pending ∙ sym (known-replicate size));
          agrees = λ i t. absurd (no_flag size i (rw e.flags at t));
        };
        base = refl;
        ends = refl;
        start = refl;
        keeps = λ i t. get_or-append-replicate false r.flag size i ∙ t;
      }

  initialize-Initialized : Initialized truth r output (initialize output r)
  initialize-Initialized = elim (Bool-cases r.initialized) [
    | inl old ↦ rw (initialize_cases output r old) (record {
      window = ready.started old;
      base = refl;
      ends = refl;
      start = old;
      keeps = λ i t. t;
    })
    | inr first ↦ rw (initialize_cases output r first) (grown-Initialized (ready.unstarted first))
  ]

-- What a call of `insert` with the substring `bytes` at `first` leaves behind.
pub record Inserted (truth : ℕ → ℕ) (first : ℕ) (bytes : List ℕ) (is_last : Bool) (r : Reassembler)
    (output : ByteStream) (r' : Reassembler) (output' : ByteStream) : Type 0 where
  pub ready : IsReady truth r' output'
  pub advances : r.base_index ≤ r'.base_index
  pub appended :
      output'.stream ≡ output.stream ++ segment truth r.base_index (r'.base_index - r.base_index)
  pub covers :
      (k : ℕ)
      → r.base_index ≤ k
      → k < r.base_index + room_of output
      → first ≤ k
      → k < first + length bytes
      → (k < r'.base_index) ⊎ (get_or r'.flag (k - r'.base_index) false ≡ true)
  pub remembers :
      (k : ℕ)
      → r.base_index ≤ k
      → get_or r.flag (k - r.base_index) false ≡ true
      → (k < r'.base_index) ⊎ (get_or r'.flag (k - r'.base_index) false ≡ true)
  pub ends : r'.eof ≡ (is_last || r.eof)
  pub closes :
      output'.closed ≡ (output.closed || ((r'.unassembled_size == 0) && (is_last || r.eof)))

abbrev closed_if : Bool → ByteStream → ByteStream
closed_if b o = if b then ByteStream.close o else o

closed_if-IsReady :
    (truth : ℕ → ℕ) (r : Reassembler) (o : ByteStream) (b : Bool)
    → IsReady truth r o
    → IsReady truth r (closed_if b o)
closed_if-IsReady truth r o false h = h
closed_if-IsReady truth r o true h =
    unfold ByteStream.close in
    record {
      valid = close-IsValid o h.valid;
      synced = h.synced;
      unstarted = λ i.
          let x = h.unstarted i in
          record { flags = x.flags; bytes = x.bytes; pending = x.pending; stream = x.stream };
      started = h.started;
      waits = h.waits;
    }

closed_if_fields :
    (b : Bool) (o : ByteStream)
    → ((closed_if b o).stream ≡ o.stream) × ((closed_if b o).closed ≡ (o.closed || b))
unfolding ByteStream.close
closed_if_fields true o = (refl, ground arith)
closed_if_fields false o = (refl, ground arith)

IsReady-eof :
    (truth : ℕ → ℕ) (r : Reassembler) (o : ByteStream) (e : Bool)
    → IsReady truth r o
    → IsReady truth (record r { eof = e }) o
IsReady-eof truth r o e h = record {
  valid = h.valid;
  synced = h.synced;
  unstarted = λ i.
      let x = h.unstarted i in
      record { flags = x.flags; bytes = x.bytes; pending = x.pending; stream = x.stream };
  started = λ i.
      let w = h.started i in
      record {
        flags = w.flags;
        bytes = w.bytes;
        within = w.within;
        counted = w.counted;
        agrees = w.agrees;
      };
  waits = h.waits;
}

Moved-IsReady :
    (truth : ℕ → ℕ) (output o : ByteStream) (s t : Reassembler)
    → t.initialized ≡ true
    → Moved truth output o s t
    → IsReady truth t o
Moved-IsReady truth output o s t start moved = record {
  valid = moved.valid;
  synced = moved.synced;
  unstarted = λ e. absurd (cc);
  started = λ e. moved.window;
  waits = moved.waits;
}

or_if : (a b : Bool) → (if a then true else b) ≡ (a || b)
or_if true b = refl
or_if false b = refl

Inserted-progress :
    (truth : ℕ → ℕ) (first : ℕ) (bytes : List ℕ) (is_last : Bool) (r : Reassembler) (o : ByteStream)
    (r' : Reassembler) (o' : ByteStream)
    → Inserted truth first bytes is_last r o r' o'
    → first ≤ r.base_index
    → (r.base_index + room_of o ≤ r'.base_index) ⊎ (first + length bytes ≤ r'.base_index)
Inserted-progress truth first bytes is_last r o r' o' i h =
    elim (dec_lt r'.base_index (r.base_index + room_of o)) [
      | no far ↦ inl (omega arith)
      | yes near ↦ elim (dec_lt r'.base_index (first + length bytes)) [
        | no past ↦ inr (omega arith)
        | yes short ↦
            stuck (i.covers r'.base_index i.advances near (omega (arith, i.advances)) short)
      ]
    ]
  where
    stuck :
        (r'.base_index < r'.base_index)
          ⊎ (get_or r'.flag (r'.base_index - r'.base_index) false ≡ true)
        → (r.base_index + room_of o ≤ r'.base_index) ⊎ (first + length bytes ≤ r'.base_index)
    stuck (inl k) = absurd (omega arith)
    stuck (inr k) =
        let e : r'.base_index - r'.base_index ≡ 0 = omega arith in
        let t : get_or r'.flag 0 false ≡ true = rw e at k in absurd (cc i.ready.waits)

module _ (truth : ℕ → ℕ) (first : ℕ) (bytes : List ℕ) (is_last : Bool) (output : ByteStream)
    (r : Reassembler) (ready : IsReady truth r output)
    (same : (j : ℕ) → j < length bytes → get_or bytes j 0 ≡ truth (first + j))
    (inside : first ≤ r.base_index + room_of output)
    (no_wrap : r.base_index + output.capacity < 2 ^ 64) (word : first + length bytes < 2 ^ 64) where
  abbrev pub Insertion : Outcome (Reassembler × ByteStream) → Type 0
  Insertion x =
      (r' : Reassembler) × (output' : ByteStream) × (x ≡ ok (r', output'))
      × Inserted truth first bytes is_last r output r' output'

  finish-Inserted :
      (s t : Reassembler) (o : ByteStream)
      → Kept truth (room_of output) output.capacity first (length bytes) (initialize output r) s
      → Moved truth output o s t
      → Inserted truth first bytes is_last r output
          (finish is_last (t, o)).0
          (finish is_last (t, o)).1
  unfolding finish
  finish-Inserted s t o kept moved =
      let init = initialize-Initialized truth r output ready in
      let b = (t.unassembled_size == 0) && (if is_last then true else t.eof) in
      let base : s.base_index ≡ r.base_index = kept.grows.base ∙ init.base in
      let ends : t.eof ≡ r.eof = moved.ends ∙ kept.grows.ends ∙ init.ends in
      let e : (k : ℕ) → k - (initialize output r).base_index ≡ k - s.base_index =
        λ k. omega (arith, kept.grows.base) in
      let f : (k : ℕ) → k - r.base_index ≡ k - s.base_index = λ k. omega (arith, base) in
      let start : t.initialized ≡ true = moved.start ∙ kept.grows.start ∙ init.start in
      record {
        ready =
            closed_if-IsReady truth _ o b
              (IsReady-eof truth t o _ (Moved-IsReady truth output o s t start moved));
        advances = omega (arith, moved.advances);
        appended = (closed_if_fields b o).0 ∙ rw base at moved.appended;
        covers = λ k p q u v. elim (dec_lt k t.base_index) [
          | yes h ↦ inl h
          | no h ↦ inr (
              moved.remembers k (omega arith)
                (rw (e k) at
                  (kept.covers k (omega (arith, init.base)) (omega (arith, init.base)) u v))
                (omega arith))
        ];
        remembers = λ k p u. elim (dec_lt k t.base_index) [
          | yes h ↦ inl h
          | no h ↦ inr (
              moved.remembers k (omega arith) (kept.grows.keeps _ (init.keeps _ (rw (f k) at u)))
                (omega arith))
        ];
        ends = or_if is_last t.eof ∙ ap (◌||◌ is_last) ends;
        closes = (closed_if_fields b o).1 ∙ rw (moved.same_closed, or_if is_last t.eof, ends) refl;
      }

  -- A call of `insert` on a reassembler in step with its output, for a substring of the stream
  -- that starts no later than where the room ends, with no index up to 2 ^ 64, returns without an
  -- access out of bounds. The invariant holds afterwards, what the output gained are the bytes of
  -- the stream from the old `base_index` to the new one, every byte of the substring that lies in
  -- the window is delivered or kept, no byte kept before is lost, and the output is closed by the
  -- call exactly when the last substring has been seen and nothing is pending.
  pub insert-Inserted : Insertion (insert first bytes is_last output r)
  unfolding insert
  insert-Inserted =
      let init = initialize-Initialized truth r output ready in
      let (s, run, kept) =
        store_substring-Kept truth first bytes output (initialize output r) ready.valid init.window
          same (omega (arith, init.base)) (omega (arith, init.base)) word in
      let (t, o, run', moved) =
        assemble-Moved truth output s ready.valid (kept.grows.base ∙ init.base ∙ ready.synced)
          kept.window (omega (arith, kept.grows.base, init.base)) in
      (
        (finish is_last (t, o)).0,
        (finish is_last (t, o)).1,
        rw run (rw run' refl),
        finish-Inserted s t o kept moved,
      )

  -- The next byte of the stream never waits: under the conditions of `insert-Inserted`, if the
  -- substring starts at the next byte or before it and the call returns, the output has advanced
  -- to the end of the substring, or as far as it had room.
  pub insert_progress :
      {r' : Reassembler} {output' : ByteStream}
      → insert first bytes is_last output r ≡ ok (r', output')
      → first ≤ r.base_index
      → (r.base_index + room_of output ≤ r'.base_index) ⊎ (first + length bytes ≤ r'.base_index)
  insert_progress {r'} {output'} run h =
      let (s, o, run', i) = insert-Inserted in
      let e : r' ≡ s = ground (arith, run, run') in
      rw e (Inserted-progress truth first bytes is_last r output s o i h)
