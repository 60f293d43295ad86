-- ===== src/TcpSegment/RoundTrip.antt =====
-- A TCP segment that is written, with its checksum, is read back.
use os_stream_socket.Base.{
  ℕ, ◌+◌, ◌-◌, ◌/◌, ◌%◌, ◌^◌, ◌<◌, ◌≡◌, refl, sym, ap, ◌∙◌, List, [], ◌∷◌, ◌++◌, append-nil, ◌==◌,
  length, if◌then◌else◌, flatten, length-append, Option, some, none, ok, ◌>>=◌, arith,
}
use os_stream_socket.WrappingIntegers.{Wrap32, IsWord}
use os_stream_socket.Parser.{Parser, skip_prefix, remaining_string}
use os_stream_socket.Parser
use os_stream_socket.Parser.Read.{
  IsBytes, At, Yields, bind-Yields, eq-Yields, new-At, done-Yields, after-Yields, skip_nothing,
  remaining_string-At, remaining_string-new,
}
use os_stream_socket.Serializer.{Serializer, encode, integer, finished, push_buffer}
use os_stream_socket.Serializer
use os_stream_socket.Serializer.RoundTrip.{one_byte, two_bytes, four_bytes, integer-encode}
use os_stream_socket.Checksum
use os_stream_socket.TcpSegment.{
  TcpSegment, default_segment, raw_ackno, flag_bit, has_ackno, flags, fields, serialize,
  serialize_buffers, segment_of, parse_fields, parse_if, parse, parse_buffers,
}

abbrev pub IsAckno : Option Wrap32 → Type 0
IsAckno none = Unit
IsAckno (some ackno) = IsWord ackno

-- The fields within their sizes.
pub record IsSegment (seg : TcpSegment) : Type 0 where
  pub src_port : seg.udinfo.src_port < 2 ^ 16
  pub dst_port : seg.udinfo.dst_port < 2 ^ 16
  pub cksum : seg.udinfo.cksum < 2 ^ 16
  pub seqno : IsWord seg.sender_message.seqno
  pub ackno : IsAckno seg.receiver_message.ackno
  pub window_size : seg.receiver_message.window_size < 2 ^ 16
  pub payload : IsBytes seg.sender_message.payload
  pub short : length seg.sender_message.payload < 2 ^ 16 - 20

unfoldable pub wire : TcpSegment → List ℕ
wire seg =
    encode 2 seg.udinfo.src_port
    ++ (encode 2 seg.udinfo.dst_port
        ++ (encode 4 seg.sender_message.seqno.raw_value
            ++ (encode 4 (raw_ackno seg.receiver_message.ackno)
                ++ (encode 1 80
                    ++ (encode 1 (flags seg)
                        ++ (encode 2 seg.receiver_message.window_size
                            ++ (encode 2 seg.udinfo.cksum ++ (encode 2 0 ++ []))))))))

pub length-wire : (seg : TcpSegment) → length (wire seg) ≡ 20
unfolding wire
length-wire seg = refl

pub serialize_lem :
    (seg : TcpSegment) → serialize_buffers seg ≡ wire seg ∷ seg.sender_message.payload ∷ [] ∷ []
unfolding serialize_buffers serialize fields integer finished push_buffer Serializer.new wire
serialize_lem seg = refl

raw_ackno_word : (o : Option Wrap32) → IsAckno o → raw_ackno o < 2 ^ 32
unfolding raw_ackno
raw_ackno_word none v = omega arith
raw_ackno_word (some a) v = v

flags_fields :
    (seg : TcpSegment)
    → ((flags seg / 16 % 2 == 1) ≡ has_ackno seg.receiver_message.ackno)
      × ((flags seg / 4 % 2 == 1) ≡ seg.reset)
      × ((flags seg / 2 % 2 == 1) ≡ seg.sender_message.syn)
      × ((flags seg % 2 == 1) ≡ seg.sender_message.fin)
      × (flags seg < 2 ^ 8)
unfolding flags flag_bit
flags_fields seg = ground arith

ackno_back :
    (o : Option Wrap32)
    → (if has_ackno o then some (record { raw_value = raw_ackno o }) else none) ≡ o
unfolding has_ackno raw_ackno
ackno_back none = refl
ackno_back (some a) = refl

segment_of_lem :
    (seg : TcpSegment)
    → segment_of seg.udinfo.src_port seg.udinfo.dst_port seg.sender_message.seqno.raw_value
        (raw_ackno seg.receiver_message.ackno)
        (flags seg)
        seg.receiver_message.window_size
        seg.udinfo.cksum
        seg.sender_message.payload
      ≡ seg
unfolding segment_of
segment_of_lem seg =
    let f = flags_fields seg in
    rw (f.0, f.1, f.2, f.3)
      (ap {B = TcpSegment}
        (λ o. record seg { receiver_message = record (seg.receiver_message) { ackno = o } })
        (ackno_back seg.receiver_message.ackno))

fields-Yields :
    (seg old : TcpSegment) (bs : List (List ℕ)) (p : Parser)
    → IsSegment seg
    → flatten bs ≡ seg.sender_message.payload
    → At p (wire seg) bs
    → Yields (parse_fields old p) seg [] bs
unfolding parse_fields wire
fields-Yields seg old bs p v all at =
    let made = λ (pl : List ℕ).
      segment_of seg.udinfo.src_port seg.udinfo.dst_port seg.sender_message.seqno.raw_value
        (raw_ackno seg.receiver_message.ackno) (flags seg) seg.receiver_message.window_size
        seg.udinfo.cksum pl in
    bind-Yields _ _ seg.udinfo.src_port _ _ [] bs bs
      (integer-encode old.udinfo.src_port p seg.udinfo.src_port _ bs two_bytes v.src_port at)
      λ p₁ at₁.
        bind-Yields _ _ seg.udinfo.dst_port _ _ [] bs bs
          (integer-encode old.udinfo.dst_port p₁ seg.udinfo.dst_port _ bs two_bytes v.dst_port at₁)
          λ p₂ at₂.
            bind-Yields _ _ seg.sender_message.seqno.raw_value _ _ [] bs bs
              (integer-encode 0 p₂ seg.sender_message.seqno.raw_value _ bs four_bytes v.seqno at₂)
              λ p₃ at₃.
                bind-Yields _ _ (raw_ackno seg.receiver_message.ackno) _ _ [] bs bs
                  (integer-encode _ p₃ (raw_ackno seg.receiver_message.ackno) _ bs four_bytes
                    (raw_ackno_word _ v.ackno) at₃)
                  λ p₄ at₄.
                    bind-Yields _ _ 80 _ _ [] bs bs
                      (integer-encode 0 p₄ 80 _ bs one_byte (omega arith) at₄)
                      λ p₅ at₅.
                        bind-Yields _ _ (flags seg) _ _ [] bs bs
                          (integer-encode 80 p₅ (flags seg) _ bs one_byte (flags_fields seg).4 at₅)
                          λ p₆ at₆.
                            bind-Yields _ _ seg.receiver_message.window_size _ _ [] bs bs
                              (integer-encode old.receiver_message.window_size p₆
                                seg.receiver_message.window_size _ bs two_bytes v.window_size at₆)
                              λ p₇ at₇.
                                bind-Yields _ _ seg.udinfo.cksum _ _ [] bs bs
                                  (integer-encode old.udinfo.cksum p₇ seg.udinfo.cksum _ bs
                                    two_bytes v.cksum at₇)
                                  λ p₈ at₈.
                                    bind-Yields _ _ 0 _ _ [] bs bs
                                      (integer-encode 0 p₈ 0 _ bs two_bytes (omega arith) at₈)
                                      λ p₉ at₉.
                                        eq-Yields seg [] bs
                                          (ap
                                              (λ o. o >>= λ q.
                                                remaining_string q >>= λ pl. ok (made pl, q))
                                              (skip_nothing p₉)
                                            ∙ ap (λ o. o >>= λ pl. ok (made pl, p₉))
                                                (remaining_string-At p₉ bs at₉)
                                            ∙ ap (λ pl. ok (made pl, p₉)) all
                                            ∙ ap (λ s. ok (s, p₉)) (segment_of_lem seg))
                                          (done-Yields seg p₉ [] bs at₉)

-- The bytes that are summed up.
abbrev pub summed : TcpSegment → List ℕ
summed seg = flatten (wire seg ∷ seg.sender_message.payload ∷ [] ∷ [])

pub length-summed :
    (seg : TcpSegment) → length (summed seg) ≡ 20 + length seg.sender_message.payload
unfolding wire
length-summed seg = omega (arith, length-append seg.sender_message.payload [])

-- A segment whose checksum, with that of the pseudo header, is right.
unfoldable pub IsSealed : ℕ → TcpSegment → Type 0
IsSealed pseudo seg = Checksum.value (Checksum.add (summed seg) (Checksum.new pseudo)) ≡ ok 0

-- However the payload is cut into buffers.
pub parse_lem :
    (seg : TcpSegment) (bs : List (List ℕ)) (pseudo : ℕ)
    → IsSegment seg
    → flatten bs ≡ seg.sender_message.payload
    → IsSealed pseudo seg
    → parse_buffers pseudo (wire seg ∷ bs) ≡ ok (some seg)
unfolding parse_buffers parse parse_if IsSealed
parse_lem seg bs pseudo v all sealed =
    let bytes : flatten (wire seg ∷ bs) ≡ summed seg =
      ap (λ xs. wire seg ++ xs) (all ∙ sym (append-nil seg.sender_message.payload)) in
    let small : length (flatten (wire seg ∷ bs)) < 2 ^ 64 =
      omega (arith, ap length bytes, length-summed seg, v.short) in
    let p = Parser.new (wire seg ∷ bs) in
    let at : At p (wire seg) bs = new-At (wire seg) bs (unfold wire in omega arith) small in
    after-Yields _ _ seg (some seg) [] bs
      (eq-Yields seg [] bs
        (ap
            (λ o. o >>= λ rest. Checksum.value (Checksum.add rest (Checksum.new pseudo)) >>= λ c.
              parse_if (c == 0) default_segment p)
            (remaining_string-new (wire seg ∷ bs) small ∙ ap ok bytes)
          ∙ ap (λ o. o >>= λ c. parse_if (c == 0) default_segment p) sealed)
        (fields-Yields seg default_segment bs p v all at))
      (λ q at'. rw at'.fine refl)

-- Parsing what `serialize` makes of a TCP segment gives the segment back, if its fields are within
-- their sizes, its payload is shorter than 2 ^ 16 - 20, and its checksum with that of the pseudo
-- header is right.
pub parse-serialize_segment :
    (seg : TcpSegment) (pseudo : ℕ)
    → IsSegment seg
    → IsSealed pseudo seg
    → parse_buffers pseudo (serialize_buffers seg) ≡ ok (some seg)
parse-serialize_segment seg pseudo v sealed =
    ap (parse_buffers pseudo) (serialize_lem seg)
    ∙ parse_lem seg (seg.sender_message.payload ∷ [] ∷ []) pseudo v
        (append-nil seg.sender_message.payload) sealed
