-- ===== src/Reassembler/Substring.antt =====
-- The part of `insert` that stores a substring: which bytes it keeps.
use os_stream_socket.Base.{
  ℕ, ◌+◌, ◌-◌, ◌^◌, ◌≤◌, ◌<◌, ◌≡◌, refl, ap, ◌∙◌, List, min, max, true, false, length, get_or,
  arith, Outcome, ok, add64, sub64, ltb, Bool-cases, inl, inr, ltb→lt, ltb→le,
}
use os_stream_socket.ByteStream.{ByteStream, available_capacity}
use os_stream_socket.ByteStream.Invariant.{IsValid, available_capacity_lem}
use os_stream_socket.Reassembler.{Reassembler, store, store_substring}
use os_stream_socket.Reassembler.Window.{IsWindow, Grows, Grows-refl, store-StoredAll}

abbrev pub room_of : ByteStream → ℕ
room_of s = s.capacity - length s.stream

-- What storing the substring `bytes` at `first` leaves: what of it lies in the window is known.
pub record Kept (truth : ℕ → ℕ) (room size first n : ℕ) (r r' : Reassembler) : Type 0 where
  pub window : IsWindow truth room size r'
  pub grows : Grows r r'
  pub covers :
      (k : ℕ)
      → r.base_index ≤ k
      → k < r.base_index + room
      → first ≤ k
      → k < first + n
      → get_or r'.flag (k - r.base_index) false ≡ true

module _ (truth : ℕ → ℕ) (first : ℕ) (bytes : List ℕ) (output : ByteStream) (r : Reassembler)
    (valid : IsValid output) (window : IsWindow truth (room_of output) output.capacity r)
    (same : (j : ℕ) → j < length bytes → get_or bytes j 0 ≡ truth (first + j))
    (inside : first ≤ r.base_index + room_of output)
    (no_wrap : r.base_index + output.capacity < 2 ^ 64) (word : first + length bytes < 2 ^ 64) where
  Outcome-Kept : Outcome Reassembler → Type 0
  Outcome-Kept x =
      (r' : Reassembler) × (x ≡ ok r')
      × Kept truth (room_of output) output.capacity first (length bytes) r r'

  end_index : ℕ
  end_index = min (add64 r.base_index (available_capacity output)) (add64 first (length bytes))

  end_index_lem : end_index ≡ min (r.base_index + room_of output) (first + length bytes)
  unfolding end_index
  end_index_lem = omega (arith, available_capacity_lem output valid)

  ahead :
      r.base_index < first
      → Outcome-Kept (
          store
            (λ i. sub64 (add64 i first) r.base_index)
            (λ i. i)
            (min (sub64 end_index (max r.base_index first)) (length bytes))
            0
            bytes
            r)
  unfolding Outcome-Kept
  ahead h =
      let rounds = min (sub64 end_index (max r.base_index first)) (length bytes) in
      let n : rounds ≡ min (r.base_index + room_of output - first) (length bytes) =
        omega (arith, end_index_lem) in
      let (r', run, all) =
        store-StoredAll truth (room_of output) output.capacity (omega arith) (omega arith)
          (λ i. sub64 (add64 i first) r.base_index) (λ i. i) bytes r.base_index rounds 0 r refl
          window (λ j p q. omega arith) (λ j p q. omega arith)
          (λ j p q. same j (omega arith) ∙ ap truth (omega arith)) in
      (
        r',
        run,
        record {
          window = all.window;
          grows = all.grows;
          covers = λ k p q s t.
              let e : sub64 (add64 (k - first) first) r.base_index ≡ k - r.base_index =
                omega arith in
              rw e at (all.covers (k - first) (omega arith) (omega arith));
        },
      )

  behind :
      first ≤ r.base_index
      → r.base_index < first + length bytes
      → Outcome-Kept (
          store
            (λ i. i)
            (λ i. sub64 (add64 i r.base_index) first)
            (min (sub64 end_index (max r.base_index first)) (length r.flag))
            0
            bytes
            r)
  unfolding Outcome-Kept
  behind h k =
      let rounds = min (sub64 end_index (max r.base_index first)) (length r.flag) in
      let n : rounds ≡ min (room_of output) (first + length bytes - r.base_index) =
        omega (arith, end_index_lem, window.flags) in
      let (r', run, all) =
        store-StoredAll truth (room_of output) output.capacity (omega arith) (omega arith) (λ i. i)
          (λ i. sub64 (add64 i r.base_index) first) bytes r.base_index rounds 0 r refl window
          (λ j p q. omega arith) (λ j p q. omega arith)
          (λ j p q.
            same (sub64 (add64 j r.base_index) first) (omega arith) ∙ ap truth (omega arith)) in
      (
        r',
        run,
        record {
          window = all.window;
          grows = all.grows;
          covers = λ k p q s t. all.covers (k - r.base_index) (omega arith) (omega arith);
        },
      )

  past : first + length bytes ≤ r.base_index → Outcome-Kept (ok r)
  unfolding Outcome-Kept
  past h = (
    r,
    refl,
    record { window = window; grows = Grows-refl r; covers = λ k p q s t. absurd (omega arith) },
  )

  pub store_substring-Kept :
      (r' : Reassembler) × (store_substring first bytes output r ≡ ok r')
      × Kept truth (room_of output) output.capacity first (length bytes) r r'
  unfolding store_substring end_index Outcome-Kept
  store_substring-Kept = elim (Bool-cases (ltb r.base_index first)) [
    | inl h ↦ rw h (ahead (ltb→lt _ _ h))
    | inr h ↦ elim (Bool-cases (ltb r.base_index (add64 first (length bytes)))) [
      | inl k ↦
          rw (h, k)
            (behind (ltb→le _ _ h)
              (omega (arith, ltb→lt r.base_index (add64 first (length bytes)) k)))
      | inr k ↦ rw (h, k) (past (omega (arith, ltb→le r.base_index (add64 first (length bytes)) k)))
    ]
  ]
