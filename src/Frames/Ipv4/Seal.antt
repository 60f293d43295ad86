-- ===== src/Frames/Ipv4/Seal.antt =====
-- `compute_checksum` makes a header whose checksum is right.
use os_stream_socket.Base.{ℕ, ◌<◌, ◌^◌, ◌≡◌, refl, ap, flatten, true, ◌==◌, ok, ◌>>=◌, arith}
use os_stream_socket.Serializer.{finished}
use os_stream_socket.Serializer
use os_stream_socket.Checksum
use os_stream_socket.Checksum.Fold.{value_lem, checksum_of, add_word, add_all-flatten}
use os_stream_socket.Frames.{Ipv4Header}
use os_stream_socket.Frames.Ipv4.{serialize_header, fields, compute_checksum}

-- The checksum of the header with none.
cksum_of : Ipv4Header → ℕ
cksum_of h =
    checksum_of
      (Checksum.add_all (finished (fields (record h { cksum = 0 }) Serializer.new))
        (Checksum.new 0)).sum

cksum_lem : (h : Ipv4Header) → h.ver ≡ 4 → compute_checksum h ≡ ok (record h { cksum = cksum_of h })
unfolding compute_checksum serialize_header cksum_of
cksum_lem h e =
    let four : (h.ver == 4) ≡ true = ground (arith, e) in
    let bufs = finished (fields (record h { cksum = 0 }) Serializer.new) in
    let same : Checksum.add_all bufs (Checksum.new 0)
        ≡ Checksum.add (flatten bufs) (Checksum.new 0) =
      add_all-flatten bufs (Checksum.new 0) in
    let small : (Checksum.add_all bufs (Checksum.new 0)).sum < 2 ^ 32 =
      rw same (add_word (flatten bufs) (Checksum.new 0) (unfold Checksum.new in omega arith)) in
    rw four (ap (λ o. o >>= λ cksum. ok (record h { cksum = cksum })) (value_lem _ small))

-- `compute_checksum` of an IPv4 header of version 4 returns; it changes nothing but the checksum,
-- which is a 16-bit number, and computing it again changes nothing, which is the check that
-- `parse` makes.
pub compute_checksum_ipv4 :
    (h : Ipv4Header)
    → h.ver ≡ 4
    → (h' : Ipv4Header) × (compute_checksum h ≡ ok h')
      × (compute_checksum h' ≡ ok h')
      × (h'.cksum < 2 ^ 16)
      × (record h' { cksum = h.cksum } ≡ h)
unfolding cksum_of
compute_checksum_ipv4 h e = (
  record h { cksum = cksum_of h },
  cksum_lem h e,
  cksum_lem (record h { cksum = cksum_of h }) e,
  ground arith,
  refl,
)
