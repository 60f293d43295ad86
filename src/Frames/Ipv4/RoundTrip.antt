-- ===== src/Frames/Ipv4/RoundTrip.antt =====
-- An IPv4 datagram that is written is read back.
use os_stream_socket.Base.{
  ℕ, ◌*◌, ◌-◌, ◌/◌, ◌%◌, ◌^◌, ◌<◌, ◌≡◌, refl, ap, ◌∙◌, List, [], ◌∷◌, ◌++◌, true, false, ◌==◌, ltb,
  length, if◌then◌else◌, flatten, some, ok, ◌>>=◌, arith,
}
use os_stream_socket.Parser.{Parser, all_remaining, skip_prefix, remove_prefix, remove_loop}
use os_stream_socket.Parser
use os_stream_socket.Parser.Read.{
  At, Yields, bind-Yields, eq-Yields, new-At, done-Yields, after-Yields, remaining-At, skip_nothing,
}
use os_stream_socket.Serializer.{Serializer, encode, integer, finished, push_buffers}
use os_stream_socket.Serializer
use os_stream_socket.Serializer.RoundTrip.{
  one_byte, two_bytes, four_bytes, integer-encode, framed, finished-push_buffers,
}
use os_stream_socket.Frames.{Ipv4Header, Ipv4Datagram}
use os_stream_socket.Frames.Ethernet.RoundTrip.{behind, carried}
use os_stream_socket.Frames.Ipv4.{
  default_header, first_byte, fo_val, fields, serialize_header, compute_checksum, verify,
  check_fields, unpack, parse_header, parse_datagram, serialize_datagram, parse_buffers,
  serialize_buffers,
}

-- A header without options, its fields within their sizes, and its checksum right.
pub record IsHeader (h : Ipv4Header) : Type 0 where
  pub ver : h.ver ≡ 4
  pub hlen : h.hlen ≡ 5
  pub tos : h.tos < 2 ^ 8
  pub len : h.len < 2 ^ 16
  pub id : h.id < 2 ^ 16
  pub offset : h.offset < 0x2000
  pub ttl : h.ttl < 2 ^ 8
  pub proto : h.proto < 2 ^ 8
  pub cksum : h.cksum < 2 ^ 16
  pub src : h.src < 2 ^ 32
  pub dst : h.dst < 2 ^ 32
  pub sealed : compute_checksum h ≡ ok h

unfoldable pub wire : Ipv4Header → List ℕ
wire h =
    encode 1 (first_byte h)
    ++ (encode 1 h.tos
        ++ (encode 2 h.len
            ++ (encode 2 h.id
                ++ (encode 2 (fo_val h)
                    ++ (encode 1 h.ttl
                        ++ (encode 1 h.proto
                            ++ (encode 2 h.cksum
                                ++ (encode 4 h.src ++ (encode 4 h.dst ++ [])))))))))

pub length-wire : (h : Ipv4Header) → length (wire h) ≡ 20
unfolding wire
length-wire h = refl

fields_lem : (h : Ipv4Header) → fields h Serializer.new ≡ record { output = []; buffer = wire h }
unfolding fields integer Serializer.new wire
fields_lem h = refl

serialize_header_lem :
    (h : Ipv4Header)
    → h.ver ≡ 4
    → serialize_header h Serializer.new ≡ ok (record { output = []; buffer = wire h })
unfolding serialize_header
serialize_header_lem h e =
    let four : (h.ver == 4) ≡ true = ground (arith, e) in rw four (ap ok (fields_lem h))

first_byte_fields :
    (h : Ipv4Header)
    → IsHeader h
    → (first_byte h / 2 ^ 4 ≡ h.ver) × (first_byte h % 2 ^ 4 ≡ h.hlen) × (first_byte h < 2 ^ 8)
unfolding first_byte
first_byte_fields h v = omega (arith, v.ver, v.hlen)

fo_val_fields :
    (h : Ipv4Header)
    → h.offset < 0x2000
    → ((fo_val h / 0x4000 % 2 == 1) ≡ h.df)
      × ((fo_val h / 0x2000 % 2 == 1) ≡ h.mf)
      × (fo_val h % 0x2000 ≡ h.offset)
      × (fo_val h < 2 ^ 16)
unfolding fo_val
fo_val_fields h v = ground arith

unpack_lem : (h : Ipv4Header) → IsHeader h → unpack (first_byte h) (fo_val h) h ≡ h
unfolding unpack
unpack_lem h v =
    let f = first_byte_fields h v in
    let o = fo_val_fields h v.offset in rw (f.0, f.1, o.0, o.1, o.2) refl

check_fields_lem : (h : Ipv4Header) (p : Parser) → IsHeader h → check_fields h p ≡ p
unfolding check_fields
check_fields_lem h p v =
    let four : (h.ver == 4) ≡ true = ground (arith, v.ver) in
    let five : ltb h.hlen 5 ≡ false = ground (arith, v.hlen) in rw (four, five) refl

verify-Yields :
    (h : Ipv4Header) (p : Parser) (bs : List (List ℕ))
    → IsHeader h
    → At p [] bs
    → Yields (verify (check_fields h p).error h (check_fields h p)) h [] bs
unfolding verify
verify-Yields h p bs v at =
    let none_skipped : h.hlen * 4 - 20 ≡ 0 = omega (arith, v.hlen) in
    let same : (h.cksum == h.cksum) ≡ true = ground arith in
    eq-Yields h [] bs
      (ap (λ q. verify q.error h q) (check_fields_lem h p v)
        ∙ ap (λ b. verify b h p) at.fine
        ∙ ap
            (λ n. skip_prefix n p >>= λ p'. compute_checksum h >>= λ h'.
              ok (h', if h'.cksum == h.cksum then p' else Parser.set_error p'))
            none_skipped
        ∙ ap
            (λ o. o >>= λ p'. compute_checksum h >>= λ h'.
              ok (h', if h'.cksum == h.cksum then p' else Parser.set_error p'))
            (skip_nothing p)
        ∙ ap (λ o. o >>= λ h'. ok (h', if h'.cksum == h.cksum then p else Parser.set_error p))
            v.sealed
        ∙ ap (λ b. ok (h, if b then p else Parser.set_error p)) same)
      (done-Yields h p [] bs at)

header-Yields :
    (h old : Ipv4Header) (p : Parser) (bs : List (List ℕ))
    → IsHeader h
    → At p (wire h) bs
    → Yields (parse_header old p) h [] bs
unfolding parse_header wire unpack
header-Yields h old p bs v at =
    bind-Yields _ _ (first_byte h) _ _ [] bs bs
      (integer-encode 0 p (first_byte h) _ bs one_byte (first_byte_fields h v).2 at)
      λ p₁ at₁.
        bind-Yields _ _ h.tos _ _ [] bs bs (integer-encode old.tos p₁ h.tos _ bs one_byte v.tos at₁)
          λ p₂ at₂.
            bind-Yields _ _ h.len _ _ [] bs bs
              (integer-encode old.len p₂ h.len _ bs two_bytes v.len at₂)
              λ p₃ at₃.
                bind-Yields _ _ h.id _ _ [] bs bs
                  (integer-encode old.id p₃ h.id _ bs two_bytes v.id at₃)
                  λ p₄ at₄.
                    bind-Yields _ _ (fo_val h) _ _ [] bs bs
                      (integer-encode 0 p₄ (fo_val h) _ bs two_bytes (fo_val_fields h v.offset).3
                        at₄)
                      λ p₅ at₅.
                        bind-Yields _ _ h.ttl _ _ [] bs bs
                          (integer-encode old.ttl p₅ h.ttl _ bs one_byte v.ttl at₅)
                          λ p₆ at₆.
                            bind-Yields _ _ h.proto _ _ [] bs bs
                              (integer-encode old.proto p₆ h.proto _ bs one_byte v.proto at₆)
                              λ p₇ at₇.
                                bind-Yields _ _ h.cksum _ _ [] bs bs
                                  (integer-encode old.cksum p₇ h.cksum _ bs two_bytes v.cksum at₇)
                                  λ p₈ at₈.
                                    bind-Yields _ _ h.src _ _ [] bs bs
                                      (integer-encode old.src p₈ h.src _ bs four_bytes v.src at₈)
                                      λ p₉ at₉.
                                        bind-Yields _ _ h.dst _ _ [] bs bs
                                          (integer-encode old.dst p₉ h.dst _ bs four_bytes v.dst
                                            at₉)
                                          λ p₁₀ at₁₀.
                                            eq-Yields h [] bs
                                              (ap
                                                (λ g.
                                                  verify (check_fields g p₁₀).error g
                                                    (check_fields g p₁₀))
                                                (unpack_lem h v))
                                              (verify-Yields h p₁₀ bs v at₁₀)

pub serialize_lem :
    (d : Ipv4Datagram)
    → d.header.ver ≡ 4
    → serialize_buffers d ≡ ok (wire d.header ∷ behind d.payload)
unfolding serialize_buffers serialize_datagram
serialize_lem d e = rw (serialize_header_lem d.header e) (
    ap ok (
      finished-push_buffers d.payload (record { output = []; buffer = wire d.header })
      ∙ split d.payload))
  where
    split : (bs : List (List ℕ)) → framed (wire d.header) bs ≡ wire d.header ∷ behind bs
    split [] = refl
    split (b ∷ bs) = refl

pub parse_lem :
    (h : Ipv4Header) (bs : List (List ℕ))
    → IsHeader h
    → length (flatten (wire h ∷ bs)) < 2 ^ 64
    → parse_buffers (wire h ∷ bs)
      ≡ ok (some (record { header = h; payload = if length (flatten bs) == 0 then [] else bs }))
unfolding parse_buffers parse_datagram
parse_lem h bs v w =
    let rest = (if length (flatten bs) == 0 then [] else bs) in
    let at : At (Parser.new (wire h ∷ bs)) (wire h) bs =
      new-At (wire h) bs (omega (arith, length-wire h)) w in
    after-Yields _ _ (record { header = h; payload = rest }) _ [] bs
      (bind-Yields _ _ h (record { header = h; payload = rest }) [] [] bs bs
        (header-Yields h default_header _ bs v at)
        (λ p₁ at₁.
          eq-Yields _ [] bs
            (ap (λ o. o >>= λ payload. ok (record { header = h; payload = payload }, p₁))
              (remaining-At p₁ bs at₁))
            (done-Yields _ p₁ [] bs at₁)))
      (λ p at'. rw at'.fine refl)

-- Parsing what `serialize` makes of an IPv4 datagram gives its header back, and its payload with
-- an empty buffer behind each of its buffers, or none if it has no byte; if the header has no
-- options, its fields are within their sizes and its checksum is right, and there are fewer than 2
-- ^ 64 bytes.
pub parse-serialize_ipv4 :
    (d : Ipv4Datagram)
    → IsHeader d.header
    → length (flatten (wire d.header ∷ behind d.payload)) < 2 ^ 64
    → (serialize_buffers d >>= parse_buffers)
      ≡ ok (some (record { header = d.header; payload = carried d.payload }))
parse-serialize_ipv4 d v w =
    ap (λ o. o >>= parse_buffers) (serialize_lem d v.ver)
    ∙ parse_lem d.header (behind d.payload) v w
