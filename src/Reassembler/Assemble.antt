-- ===== src/Reassembler/Assemble.antt =====
-- The part of `insert` that moves known bytes to the output.
use os_stream_socket.Base.{
  ℕ, zero, suc, ◌+◌, ◌-◌, ◌^◌, ◌≤◌, ◌<◌, ◌≡◌, refl, ap, ap₂, sym, ◌∙◌, List, [], ◌∷◌, ◌++◌,
  append-nil, min, true, false, length, get_or, take, drop, replicate, arith, ok, add64, sub64,
  ◌==◌, Bool-cases, inl, inr, le→ltb, ==→eq, length-append, length-drop, length-replicate,
  length-take, take_all, get_or-append-replicate, get_or-drop,
}
use os_stream_socket.ByteStream.{ByteStream}
use os_stream_socket.ByteStream
use os_stream_socket.ByteStream.Invariant.{IsValid, push-IsValid, length_stream-push}
use os_stream_socket.Reassembler.{Reassembler, assemble}
use os_stream_socket.Reassembler.Flags.{
  leading, known, known-shift, leading-le-length, known-le-length, get_or-leading,
  get_or_below_leading,
}
use os_stream_socket.Reassembler.Window.{IsWindow}
use os_stream_socket.Reassembler.Substring.{room_of}

-- The `n` bytes of a stream from index `from` on.
abbrev pub segment : (ℕ → ℕ) → ℕ → ℕ → List ℕ
segment truth from zero = []
segment truth from (suc n) = truth from ∷ segment truth (from + 1) n

pub length-segment : (truth : ℕ → ℕ) (from n : ℕ) → length (segment truth from n) ≡ n
length-segment truth from zero = refl
length-segment truth from (suc n) = ap suc (length-segment truth (from + 1) n)

pub segment-append :
    (truth : ℕ → ℕ) (from m n : ℕ)
    → segment truth from m ++ segment truth (from + m) n ≡ segment truth from (m + n)
segment-append truth from zero n =
    let e : from + 0 ≡ from = omega arith in let f : 0 + n ≡ n = omega arith in rw (e, f) refl
segment-append truth from (suc m) n =
    let e : from + suc m ≡ from + 1 + m = omega arith in
    let f : suc m + n ≡ suc (m + n) = omega arith in
    rw (e, f) (ap (◌∷◌ (truth from)) (segment-append truth (from + 1) m n))

take-segment :
    (truth : ℕ → ℕ) (xs : List ℕ) (from n : ℕ)
    → n ≤ length xs
    → ((i : ℕ) → i < n → get_or xs i 0 ≡ truth (from + i))
    → take n xs ≡ segment truth from n
take-segment truth xs from zero h e = refl
take-segment truth [] from (suc n) h e = absurd (omega arith)
take-segment truth (x ∷ xs) from (suc n) h e =
    ap₂ ◌∷◌ (e 0 (omega arith) ∙ ap truth (omega arith)) (
      take-segment truth xs (from + 1) n (omega arith)
        (λ i k. e (suc i) (omega arith) ∙ ap truth (omega arith)))

-- What moving the window past its known front leaves.
pub record Moved (truth : ℕ → ℕ) (output output' : ByteStream) (r r' : Reassembler) : Type 0 where
  pub valid : IsValid output'
  pub synced : r'.base_index ≡ output'.bytes_write
  pub window : IsWindow truth (room_of output') output'.capacity r'
  pub waits : get_or r'.flag 0 false ≡ false
  pub advances : r.base_index ≤ r'.base_index
  pub appended :
      output'.stream ≡ output.stream ++ segment truth r.base_index (r'.base_index - r.base_index)
  pub remembers :
      (k : ℕ)
      → r.base_index ≤ k
      → get_or r.flag (k - r.base_index) false ≡ true
      → r'.base_index ≤ k
      → get_or r'.flag (k - r'.base_index) false ≡ true
  pub ends : r'.eof ≡ r.eof
  pub start : r'.initialized ≡ r.initialized
  pub same_capacity : output'.capacity ≡ output.capacity
  pub same_closed : output'.closed ≡ output.closed

module _ (truth : ℕ → ℕ) (output : ByteStream) (r : Reassembler) (valid : IsValid output)
    (synced : r.base_index ≡ output.bytes_write)
    (window : IsWindow truth (room_of output) output.capacity r)
    (no_wrap : r.base_index + output.capacity < 2 ^ 64) where
  cnt : ℕ
  cnt = leading r.flag

  pub leading-le-room : leading r.flag ≤ room_of output
  leading-le-room = elim (Bool-cases (leading r.flag == 0)) [
    | inl e ↦ omega (arith, ==→eq (leading r.flag) 0 e)
    | inr e ↦
        let p : 0 < leading r.flag = ground arith in
        omega (
          arith,
          window.within (leading r.flag - 1)
              (get_or_below_leading r.flag (leading r.flag - 1) (omega arith)),
        )
  ]

  moved : Reassembler
  unfolding cnt
  moved = record r {
    flag = drop cnt r.flag ++ replicate cnt false;
    buffer = drop cnt r.buffer ++ replicate cnt 0;
    unassembled_size = sub64 r.unassembled_size cnt;
    base_index = add64 r.base_index cnt;
  }

  tmp-segment : take cnt r.buffer ≡ segment truth r.base_index cnt
  unfolding cnt
  tmp-segment =
      take-segment truth r.buffer r.base_index (leading r.flag)
        (omega (arith, leading-le-length r.flag, window.flags, window.bytes))
        (λ i h. window.agrees i (get_or_below_leading r.flag i h))

  length-tmp : length (take cnt r.buffer) ≡ cnt
  unfolding cnt
  length-tmp = omega (
    arith,
    length-take (leading r.flag) r.buffer,
    leading-le-length r.flag,
    window.flags,
    window.bytes,
  )

  output' : ByteStream
  output' = ByteStream.push (take cnt r.buffer) output

  cnt-le-room : cnt ≤ room_of output
  unfolding cnt
  cnt-le-room = leading-le-room

  -- All of what is assembled fits.
  pushed_stream : output'.stream ≡ output.stream ++ segment truth r.base_index cnt
  unfolding ByteStream.push output'
  pushed_stream = ap (◌++◌ output.stream) (
      take_all (min (length (take cnt r.buffer)) (sub64 output.capacity (length output.stream)))
        (take cnt r.buffer) (omega (arith, length-tmp, cnt-le-room))
      ∙ tmp-segment)

  output'_capacity : output'.capacity ≡ output.capacity
  unfolding output' ByteStream.push
  output'_capacity = refl

  output'_write : output'.bytes_write ≡ add64 r.base_index cnt
  unfolding output' ByteStream.push
  output'_write = omega (arith, length-tmp, cnt-le-room)

  room-output' : room_of output' + cnt ≡ room_of output
  unfolding output'
  room-output' = omega (
    arith,
    length_stream-push (take cnt r.buffer) output valid,
    length-tmp,
    cnt-le-room,
    output'_capacity,
  )

  moved_base : moved.base_index ≡ r.base_index + cnt
  unfolding moved
  moved_base = omega (arith, cnt-le-room)

  moved_flag : (i : ℕ) → get_or moved.flag i false ≡ get_or r.flag (cnt + i) false
  unfolding moved
  moved_flag i =
      get_or-append-replicate false (drop cnt r.flag) cnt i ∙ get_or-drop false cnt r.flag i

  moved_buffer : (i : ℕ) → get_or moved.buffer i 0 ≡ get_or r.buffer (cnt + i) 0
  unfolding moved
  moved_buffer i =
      get_or-append-replicate 0 (drop cnt r.buffer) cnt i ∙ get_or-drop 0 cnt r.buffer i

  moved_lengths : (length moved.flag ≡ length r.flag) × (length moved.buffer ≡ length r.buffer)
  unfolding moved
  moved_lengths =
      let small : cnt ≤ length r.flag = unfold cnt in leading-le-length r.flag in
      omega (
        arith,
        length-append (drop cnt r.flag) (replicate cnt false),
        length-append (drop cnt r.buffer) (replicate cnt 0),
        length-drop cnt r.flag,
        length-drop cnt r.buffer,
        length-replicate cnt false,
        length-replicate {A = ℕ} cnt 0,
        window.flags,
        window.bytes,
      )

  moved_count : moved.unassembled_size ≡ known moved.flag
  unfolding moved cnt
  moved_count =
      omega (arith, known-shift r.flag, known-le-length r.flag, window.counted, window.flags)

  moved-IsWindow : IsWindow truth (room_of output') output.capacity moved
  moved-IsWindow = record {
    flags = moved_lengths.0 ∙ window.flags;
    bytes = moved_lengths.1 ∙ window.bytes;
    within = λ i t. omega (arith, window.within (cnt + i) (sym (moved_flag i) ∙ t), room-output');
    counted = moved_count;
    agrees = λ i t.
        moved_buffer i
        ∙ window.agrees (cnt + i) (sym (moved_flag i) ∙ t)
        ∙ ap truth (omega (arith, moved_base));
  }

  moved-Moved : Moved truth output output' r moved
  moved-Moved = record {
    valid = unfold output' in push-IsValid (take cnt r.buffer) output valid;
    synced = moved_base ∙ (omega (arith, output'_write, cnt-le-room));
    window = unfold output' ByteStream.push in moved-IsWindow;
    waits = moved_flag 0 ∙ front;
    advances = omega (arith, moved_base);
    appended =
        pushed_stream
        ∙ ap (λ k. output.stream ++ segment truth r.base_index k) (omega (arith, moved_base));
    remembers = λ k p t q.
        moved_flag (k - moved.base_index)
        ∙ ap (λ j. get_or r.flag j false) (omega (arith, moved_base))
        ∙ t;
    ends = unfold moved in refl;
    start = unfold moved in refl;
    same_capacity = unfold output' ByteStream.push in refl;
    same_closed = unfold output' ByteStream.push in refl;
  }
    where
      front : get_or r.flag (cnt + 0) false ≡ false
      front = let e : cnt + 0 ≡ cnt = omega arith in rw e (unfold cnt in get_or-leading r.flag)

  unmoved-Moved : leading r.flag ≡ 0 → Moved truth output output r r
  unmoved-Moved none_known = record {
    valid = valid;
    synced = synced;
    window = window;
    waits = rw none_known at (get_or-leading r.flag);
    advances = omega arith;
    appended =
        let e : r.base_index - r.base_index ≡ 0 = omega arith in
        rw e (sym (append-nil output.stream));
    remembers = λ k p t q. t;
    ends = refl;
    start = refl;
    same_capacity = refl;
    same_closed = refl;
  }

  -- `assemble` ends without an access out of bounds.
  pub assemble-Moved :
      (r' : Reassembler) × (output' : ByteStream) × (assemble output r ≡ ok (r', output'))
      × Moved truth output output' r r'
  unfolding assemble
  assemble-Moved =
      rw
        (le→ltb (length r.buffer) (leading r.flag)
          (omega (arith, leading-le-length r.flag, window.flags, window.bytes)))
        (elim (Bool-cases (leading r.flag == 0)) [
          | inl e ↦ rw e (r, output, refl, unmoved-Moved (==→eq _ _ e))
          | inr e ↦ rw e (moved, output', unfold moved output' cnt in refl, moved-Moved)
        ])
