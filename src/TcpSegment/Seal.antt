-- ===== src/TcpSegment/Seal.antt =====
-- `compute_checksum` makes a TCP segment whose checksum is right.
use os_stream_socket.Base.{
  ℕ, ◌+◌, ◌^◌, ◌<◌, ◌≡◌, ap, ◌∙◌, List, [], ◌∷◌, ◌++◌, false, ok, ◌>>=◌, arith,
}
use os_stream_socket.Parser.Read.{IsBytes}
use os_stream_socket.Checksum
use os_stream_socket.Checksum.Fold.{
  checksum_of, checksum_of-add, value_lem, add_lem, add_all-flatten, word_sum, word_sum_le,
  IsBytes-append,
}
use os_stream_socket.TcpSegment.{TcpSegment, raw_ackno, flags, with_cksum, compute_checksum}
use os_stream_socket.TcpSegment.RoundTrip.{
  IsSegment, IsSealed, wire, serialize_lem, summed, length-summed,
}

-- The sum of the words of a segment is that of the segment without its checksum, and its checksum.
word_sum-wire :
    (seg : TcpSegment) (cksum : ℕ) (rest : List ℕ)
    → cksum < 2 ^ 16
    → word_sum false (wire (with_cksum seg cksum) ++ rest)
      ≡ word_sum false (wire (with_cksum seg 0) ++ rest) + cksum
unfolding wire with_cksum raw_ackno flags
word_sum-wire seg cksum rest h = omega (arith, h)

wire-IsBytes : (seg : TcpSegment) → IsBytes (wire seg)
unfolding wire
wire-IsBytes seg = omega arith

summed-IsBytes : (seg : TcpSegment) → IsSegment seg → IsBytes (summed seg)
summed-IsBytes seg v =
    IsBytes-append (wire seg) (seg.sender_message.payload ++ []) (wire-IsBytes seg)
      (IsBytes-append seg.sender_message.payload [] v.payload tt)

sealed_zero :
    (xs : List ℕ) (pseudo : ℕ)
    → IsBytes xs
    → pseudo + word_sum false xs < 2 ^ 32
    → Checksum.value (Checksum.add xs (Checksum.new pseudo))
      ≡ ok (checksum_of (pseudo + word_sum false xs))
unfolding Checksum.new
sealed_zero xs pseudo v h =
    let e : (Checksum.add xs (Checksum.new pseudo)).sum ≡ pseudo + word_sum false xs =
      add_lem xs (Checksum.new pseudo) v h in
    value_lem (Checksum.add xs (Checksum.new pseudo)) (omega (arith, e, h))
    ∙ ap (λ s. ok (checksum_of s)) e

with_cksum-IsSegment :
    (seg : TcpSegment) (cksum : ℕ)
    → IsSegment seg
    → cksum < 2 ^ 16
    → IsSegment (with_cksum seg cksum)
unfolding with_cksum
with_cksum-IsSegment seg cksum v h = record {
  src_port = v.src_port;
  dst_port = v.dst_port;
  cksum = h;
  seqno = v.seqno;
  ackno = v.ackno;
  window_size = v.window_size;
  payload = v.payload;
  short = v.short;
}

summed_word :
    (seg : TcpSegment) (pseudo : ℕ)
    → IsSegment seg
    → pseudo < 2 ^ 20
    → pseudo + word_sum false (summed seg) < 2 ^ 32
summed_word seg pseudo v h =
    let most = word_sum_le false (summed seg) (summed-IsBytes seg v) in
    let len = length-summed seg in let short = v.short in omega (arith, most, len, short, h)

-- The checksum that `compute_checksum` finds.
pub cksum_of : ℕ → TcpSegment → ℕ
cksum_of pseudo seg = checksum_of (pseudo + word_sum false (summed (with_cksum seg 0)))

cksum_of_lem :
    (seg : TcpSegment) (pseudo : ℕ)
    → IsSegment seg
    → pseudo < 2 ^ 20
    → compute_checksum pseudo seg ≡ ok (with_cksum seg (cksum_of pseudo seg))
unfolding compute_checksum cksum_of
cksum_of_lem seg pseudo v h =
    let bare = with_cksum seg 0 in
    let v₀ = with_cksum-IsSegment seg 0 v (omega arith) in
    ap (λ o. o >>= λ cksum. ok (with_cksum seg cksum))
      (ap (λ bs. Checksum.value (Checksum.add_all bs (Checksum.new pseudo))) (serialize_lem bare)
        ∙ ap Checksum.value (
            add_all-flatten (wire bare ∷ bare.sender_message.payload ∷ [] ∷ [])
              (Checksum.new pseudo))
        ∙ sealed_zero (summed bare) pseudo (summed-IsBytes bare v₀) (summed_word bare pseudo v₀ h))

cksum_of-IsSealed :
    (seg : TcpSegment) (pseudo : ℕ)
    → IsSegment (with_cksum seg (cksum_of pseudo seg))
    → cksum_of pseudo seg < 2 ^ 16
    → pseudo < 2 ^ 20
    → IsSealed pseudo (with_cksum seg (cksum_of pseudo seg))
unfolding IsSealed cksum_of with_cksum
cksum_of-IsSealed seg pseudo v small h =
    let sealed = with_cksum seg (cksum_of pseudo seg) in
    let s = pseudo + word_sum false (summed (with_cksum seg 0)) in
    let e : pseudo + word_sum false (summed sealed) ≡ s + checksum_of s =
      omega
        (arith, word_sum-wire seg (cksum_of pseudo seg) (seg.sender_message.payload ++ []) small) in
    sealed_zero (summed sealed) pseudo (summed-IsBytes sealed v) (summed_word sealed pseudo v h)
    ∙ ap (λ k. ok (checksum_of k)) e
    ∙ ap ok (checksum_of-add s)

-- `compute_checksum` sets the checksum so that it is right.
pub compute_checksum_segment :
    (seg : TcpSegment) (pseudo : ℕ)
    → IsSegment seg
    → pseudo < 2 ^ 20
    → (cksum : ℕ) × (compute_checksum pseudo seg ≡ ok (with_cksum seg cksum))
      × IsSegment (with_cksum seg cksum)
      × IsSealed pseudo (with_cksum seg cksum)
unfolding cksum_of
compute_checksum_segment seg pseudo v h =
    let small : cksum_of pseudo seg < 2 ^ 16 = ground arith in
    let v' = with_cksum-IsSegment seg (cksum_of pseudo seg) v small in
    (cksum_of pseudo seg, cksum_of_lem seg pseudo v h, v', cksum_of-IsSealed seg pseudo v' small h)
