-- ===== src/Reassembler/Window.antt =====
-- What the vectors of the reassembler hold, and that storing a substring keeps it so.
use os_stream_socket.Base.{
  ℕ, zero, suc, ◌+◌, ◌^◌, ◌≤◌, ◌<◌, ◌≡◌, refl, ap, sym, ◌∙◌, List, [], ◌∷◌, true, false, some,
  length, get_elem?, get_or, set, arith, ok, add64, length-set, get_or-set_self, get_or-set_ne,
  ℕ_discrete, Bool-cases, inl, inr, lt→ltb,
}
use os_stream_socket.Reassembler.Flags.{known, known-set, known-le-length}
use os_stream_socket.Reassembler.{Reassembler, write_byte, store_byte, store}

-- A window of `size` places over the stream `truth`: no place from `room` on is taken, and what is
-- kept at a place is the byte that the stream has there.
pub record IsWindow (truth : ℕ → ℕ) (room size : ℕ) (r : Reassembler) : Type 0 where
  pub flags : length r.flag ≡ size
  pub bytes : length r.buffer ≡ size
  pub within : (i : ℕ) → get_or r.flag i false ≡ true → i < room
  pub counted : r.unassembled_size ≡ known r.flag
  pub agrees :
      (i : ℕ) → get_or r.flag i false ≡ true → get_or r.buffer i 0 ≡ truth (r.base_index + i)

-- Storing adds to what is known, and changes neither the position nor the signals.
pub record Grows (r r' : Reassembler) : Type 0 where
  pub base : r'.base_index ≡ r.base_index
  pub ends : r'.eof ≡ r.eof
  pub start : r'.initialized ≡ r.initialized
  pub keeps : (i : ℕ) → get_or r.flag i false ≡ true → get_or r'.flag i false ≡ true

pub Grows-refl : (r : Reassembler) → Grows r r
Grows-refl r = record { base = refl; ends = refl; start = refl; keeps = λ i h. h }

pub Grows-trans : (r s t : Reassembler) → Grows r s → Grows s t → Grows r t
Grows-trans r s t g h = record {
  base = h.base ∙ g.base;
  ends = h.ends ∙ g.ends;
  start = h.start ∙ g.start;
  keeps = λ i e. h.keeps i (g.keeps i e);
}

get_elem?_in {ℓ} :
    {A : Type ℓ} (d : A) (xs : List A) (i : ℕ)
    → i < length xs
    → get_elem? xs i ≡ some (get_or xs i d)
get_elem?_in d [] i h = absurd (omega arith)
get_elem?_in d (x ∷ xs) zero h = refl
get_elem?_in d (x ∷ xs) (suc i) h = get_elem?_in d xs i (omega arith)

written : ℕ → ℕ → Reassembler → Reassembler
written at byte r = record r {
  flag = set r.flag at true;
  buffer = set r.buffer at byte;
  unassembled_size = add64 r.unassembled_size 1;
}

store_byte_taken :
    (at byte : ℕ) (r : Reassembler)
    → at < length r.flag
    → get_or r.flag at false ≡ true
    → store_byte at (some byte) r ≡ ok r
unfolding store_byte
store_byte_taken at byte r h e = rw (get_elem?_in false r.flag at h, store_byte) (rw e refl)

store_byte_free :
    (at byte : ℕ) (r : Reassembler)
    → at < length r.flag
    → at < length r.buffer
    → get_or r.flag at false ≡ false
    → store_byte at (some byte) r ≡ ok (written at byte r)
unfolding store_byte written
store_byte_free at byte r h k e =
    rw (get_elem?_in false r.flag at h, store_byte)
      (rw e (rw (lt→ltb at (length r.buffer) k, write_byte) refl))

module _ (truth : ℕ → ℕ) (room size : ℕ) (fits : room ≤ size) (word : size < 2 ^ 64) where
  -- What one round of the loop leaves: the byte at `at` is known.
  record Stored (at : ℕ) (r r' : Reassembler) : Type 0 where
    window : IsWindow truth room size r'
    grows : Grows r r'
    here : get_or r'.flag at false ≡ true

  written-Stored :
      (at byte : ℕ) (r : Reassembler)
      → IsWindow truth room size r
      → at < room
      → byte ≡ truth (r.base_index + at)
      → get_or r.flag at false ≡ false
      → Stored at r (written at byte r)
  unfolding written
  written-Stored at byte r w h e free = record {
    window = record {
      flags = length-set r.flag at true ∙ w.flags;
      bytes = length-set r.buffer at byte ∙ w.bytes;
      within = λ i t. elim (ℕ_discrete at i) [
        | yes p ↦ omega arith
        | no p ↦ w.within i (sym (get_or-set_ne false r.flag at i true p) ∙ t)
      ];
      counted =
          let more =
            known-set r.flag at
              (get_elem?_in false r.flag at (omega (arith, w.flags)) ∙ ap some free) in
          omega (
            arith,
            more,
            w.counted,
            w.flags,
            known-le-length (set r.flag at true),
            length-set r.flag at true,
          );
      agrees = λ i t. elim (ℕ_discrete at i) [
        | yes p ↦ rw (← p) (get_or-set_self 0 r.buffer at byte (omega (arith, w.bytes)) ∙ e)
        | no p ↦
            get_or-set_ne 0 r.buffer at i byte p
            ∙ w.agrees i (sym (get_or-set_ne false r.flag at i true p) ∙ t)
      ];
    };
    grows = record {
      base = refl;
      ends = refl;
      start = refl;
      keeps = λ i t. elim (ℕ_discrete at i) [
        | yes p ↦ rw (← p) (get_or-set_self false r.flag at true (omega (arith, w.flags)))
        | no p ↦ get_or-set_ne false r.flag at i true p ∙ t
      ];
    };
    here = get_or-set_self false r.flag at true (omega (arith, w.flags));
  }

  store_byte-Stored :
      (at byte : ℕ) (r : Reassembler)
      → IsWindow truth room size r
      → at < room
      → byte ≡ truth (r.base_index + at)
      → (r' : Reassembler) × (store_byte at (some byte) r ≡ ok r') × Stored at r r'
  store_byte-Stored at byte r w h e = elim (Bool-cases (get_or r.flag at false)) [
    | inl taken ↦ (
      r,
      store_byte_taken at byte r (omega (arith, w.flags)) taken,
      record { window = w; grows = Grows-refl r; here = taken },
    )
    | inr free ↦ (
      written at byte r,
      store_byte_free at byte r (omega (arith, w.flags)) (omega (arith, w.bytes)) free,
      written-Stored at byte r w h e free,
    )
  ]

  -- What rounds `i` to `i + rounds - 1` leave.
  pub record StoredAll (at : ℕ → ℕ) (i rounds : ℕ) (r r' : Reassembler) : Type 0 where
    pub window : IsWindow truth room size r'
    pub grows : Grows r r'
    pub covers : (j : ℕ) → i ≤ j → j < i + rounds → get_or r'.flag (at j) false ≡ true

  -- The loop ends without an access out of bounds if its places are in the window and its bytes
  -- are in the substring.
  pub store-StoredAll :
      (at from : ℕ → ℕ) (bytes : List ℕ) (b rounds i : ℕ) (r : Reassembler)
      → r.base_index ≡ b
      → IsWindow truth room size r
      → ((j : ℕ) → i ≤ j → j < i + rounds → at j < room)
      → ((j : ℕ) → i ≤ j → j < i + rounds → from j < length bytes)
      → ((j : ℕ) → i ≤ j → j < i + rounds → get_or bytes (from j) 0 ≡ truth (b + at j))
      → (r' : Reassembler) × (store at from rounds i bytes r ≡ ok r') × StoredAll at i rounds r r'
  unfolding store
  store-StoredAll at from bytes b zero i r e w places sources same =
      (r, refl, record { window = w; grows = Grows-refl r; covers = λ j h k. absurd (omega arith) })
  store-StoredAll at from bytes b (suc rounds) i r e w places sources same =
      let byte = get_or bytes (from i) 0 in
      let (s, run, one) =
        store_byte-Stored (at i) byte r w (places i (omega arith) (omega arith))
          (rw e (same i (omega arith) (omega arith))) in
      let (t, rest, all) =
        store-StoredAll at from bytes b rounds (i + 1) s (one.grows.base ∙ e) one.window
          (λ j h k. places j (omega arith) (omega arith))
          (λ j h k. sources j (omega arith) (omega arith))
          (λ j h k. same j (omega arith) (omega arith)) in
      (
        t,
        rw (get_elem?_in 0 bytes (from i) (sources i (omega arith) (omega arith)), run) rest,
        record {
          window = all.window;
          grows = Grows-trans r s t one.grows all.grows;
          covers = λ j h k. elim (ℕ_discrete i j) [
            | yes p ↦ rw (← p) (all.grows.keeps (at i) one.here)
            | no p ↦ all.covers j (omega arith) (omega arith)
          ];
        },
      )
