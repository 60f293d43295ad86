-- ===== src/Frames/Arp/RoundTrip.antt =====
-- An ARP message that is written is read back.
use os_stream_socket.Base.{
  ℕ, ◌^◌, ◌<◌, ◌≡◌, refl, sym, ap, ap₂, ◌∙◌, List, [], ◌∷◌, ◌++◌, append_assoc, append-nil, true,
  length, flatten, length-append, some, ok, ◌>>=◌, arith,
}
use os_stream_socket.Parser.{Parser}
use os_stream_socket.Parser
use os_stream_socket.Parser.Read.{
  IsBytes, At, Yields, bind-Yields, eq-Yields, integers-Yields, new-At, done-Yields, after-Yields,
}
use os_stream_socket.Serializer.{Serializer, encode, integer, finished}
use os_stream_socket.Serializer
use os_stream_socket.Serializer.RoundTrip.{
  one_byte, two_bytes, four_bytes, integer-encode, integers_lem,
}
use os_stream_socket.Frames.{EthernetAddress, ArpMessage, default_arp}
use os_stream_socket.Frames.Arp.{
  supported, parse_addresses, parse, fields, serialize, parse_buffers, serialize_buffers,
}

-- Six bytes.
pub record IsAddress (mac : EthernetAddress) : Type 0 where
  pub six : length mac ≡ 6
  pub bytes : IsBytes mac

-- A message that the protocol allows, its fields within their sizes.
pub record IsArp (m : ArpMessage) : Type 0 where
  pub allowed : supported m ≡ true
  pub sender : IsAddress m.sender_ethernet_address
  pub sender_ip : m.sender_ip_address < 2 ^ 32
  pub target : IsAddress m.target_ethernet_address
  pub target_ip : m.target_ip_address < 2 ^ 32

pub addresses : ArpMessage → List ℕ
addresses m =
    m.sender_ethernet_address
    ++ (encode 4 m.sender_ip_address
        ++ (m.target_ethernet_address ++ (encode 4 m.target_ip_address ++ [])))

pub wire : ArpMessage → List ℕ
wire m =
    encode 2 m.hardware_type
    ++ (encode 2 m.protocol_type
        ++ (encode 1 m.hardware_address_size
            ++ (encode 1 m.protocol_address_size ++ (encode 2 m.opcode ++ addresses m))))

-- A message has 28 bytes.
pub length-wire : (m : ArpMessage) → IsArp m → length (wire m ++ []) ≡ 28
unfolding wire addresses
length-wire m v =
    let l = m.sender_ethernet_address in
    let r = m.target_ethernet_address in
    let tail = encode 4 m.target_ip_address ++ [] in
    omega (
      arith,
      length-append l (encode 4 m.sender_ip_address ++ (r ++ tail)),
      length-append r tail,
      v.sender.six,
      v.target.six,
      ap length (append-nil (wire m)),
    )

fields_lem : (m : ArpMessage) → IsArp m → (fields m Serializer.new).buffer ≡ wire m
unfolding fields integer Serializer.new wire addresses
fields_lem m v =
    rw
      (
        integers_lem m.sender_ethernet_address _ v.sender.bytes,
        integers_lem m.target_ethernet_address _ v.target.bytes,
      )
      (simp (append_assoc, append-nil))

fields_output : (m : ArpMessage) → IsArp m → (fields m Serializer.new).output ≡ []
unfolding fields integer Serializer.new
fields_output m v =
    rw
      (
        integers_lem m.sender_ethernet_address _ v.sender.bytes,
        integers_lem m.target_ethernet_address _ v.target.bytes,
      )
      refl

small_fields :
    (m : ArpMessage)
    → supported m ≡ true
    → (m.hardware_type < 2 ^ 16)
      × (m.protocol_type < 2 ^ 16)
      × (m.hardware_address_size < 2 ^ 8)
      × (m.protocol_address_size < 2 ^ 8)
      × (m.opcode < 2 ^ 16)
unfolding supported
small_fields m h = ground arith

module _ (m : ArpMessage) (v : IsArp m) (zs : List ℕ) (bs : List (List ℕ)) where
  addresses-Yields :
      (old : ArpMessage) (p : Parser)
      → length old.sender_ethernet_address ≡ 6
      → length old.target_ethernet_address ≡ 6
      → At p
          (m.sender_ethernet_address
            ++ (encode 4 m.sender_ip_address
                ++ (m.target_ethernet_address ++ (encode 4 m.target_ip_address ++ zs))))
          bs
      → Yields
          (parse_addresses true old p)
          (record old {
            sender_ethernet_address = m.sender_ethernet_address;
            sender_ip_address = m.sender_ip_address;
            target_ethernet_address = m.target_ethernet_address;
            target_ip_address = m.target_ip_address;
          })
          zs
          bs
  unfolding parse_addresses
  addresses-Yields old p s t at =
      bind-Yields _ _ m.sender_ethernet_address _ _ zs bs bs
        (integers-Yields old.sender_ethernet_address p m.sender_ethernet_address _ bs
          (s ∙ sym v.sender.six) v.sender.bytes at)
        λ p₁ at₁.
          bind-Yields _ _ m.sender_ip_address _ _ zs bs bs
            (integer-encode old.sender_ip_address p₁ m.sender_ip_address _ bs four_bytes v.sender_ip
              at₁)
            λ p₂ at₂.
              bind-Yields _ _ m.target_ethernet_address _ _ zs bs bs
                (integers-Yields old.target_ethernet_address p₂ m.target_ethernet_address _ bs
                  (t ∙ sym v.target.six) v.target.bytes at₂)
                λ p₃ at₃.
                  bind-Yields _ _ m.target_ip_address _ _ zs bs bs
                    (integer-encode old.target_ip_address p₃ m.target_ip_address _ bs four_bytes
                      v.target_ip at₃)
                    λ p₄ at₄. done-Yields _ p₄ zs bs at₄

  parse-Yields :
      (old : ArpMessage) (p : Parser)
      → length old.sender_ethernet_address ≡ 6
      → length old.target_ethernet_address ≡ 6
      → At p
          (encode 2 m.hardware_type
            ++ (encode 2 m.protocol_type
                ++ (encode 1 m.hardware_address_size
                    ++ (encode 1 m.protocol_address_size
                        ++ (encode 2 m.opcode
                            ++ (m.sender_ethernet_address
                                ++ (encode 4 m.sender_ip_address
                                    ++ (m.target_ethernet_address
                                        ++ (encode 4 m.target_ip_address ++ zs)))))))))
          bs
      → Yields (parse old p) m zs bs
  unfolding parse
  parse-Yields old p s t at =
      let small = small_fields m v.allowed in
      bind-Yields _ _ m.hardware_type _ _ zs bs bs
        (integer-encode old.hardware_type p m.hardware_type _ bs two_bytes small.0 at)
        λ p₁ at₁.
          bind-Yields _ _ m.protocol_type _ _ zs bs bs
            (integer-encode old.protocol_type p₁ m.protocol_type _ bs two_bytes small.1 at₁)
            λ p₂ at₂.
              bind-Yields _ _ m.hardware_address_size _ _ zs bs bs
                (integer-encode old.hardware_address_size p₂ m.hardware_address_size _ bs one_byte
                  small.2 at₂)
                λ p₃ at₃.
                  bind-Yields _ _ m.protocol_address_size _ _ zs bs bs
                    (integer-encode old.protocol_address_size p₃ m.protocol_address_size _ bs
                      one_byte small.3 at₃)
                    λ p₄ at₄.
                      bind-Yields _ _ m.opcode _ _ zs bs bs
                        (integer-encode old.opcode p₄ m.opcode _ bs two_bytes small.4 at₄)
                        λ p₅ at₅.
                          let read : ArpMessage = record old {
                            hardware_type = m.hardware_type;
                            protocol_type = m.protocol_type;
                            hardware_address_size = m.hardware_address_size;
                            protocol_address_size = m.protocol_address_size;
                            opcode = m.opcode;
                          } in
                          let allowed : supported read ≡ true =
                            unfold supported in (unfold supported in v.allowed) in
                          eq-Yields _ zs bs (ap (λ b. parse_addresses b read p₅) allowed)
                            (addresses-Yields read p₅ s t at₅)

pub serialize_lem : (m : ArpMessage) → IsArp m → serialize_buffers m ≡ ok (wire m ∷ [])
unfolding serialize_buffers serialize finished
serialize_lem m v =
    rw v.allowed (ap₂ (λ o b. ok (o ++ b ∷ [])) (fields_output m v) (fields_lem m v))

pub parse_lem :
    (m : ArpMessage) (bs : List (List ℕ))
    → IsArp m
    → length (flatten (wire m ∷ bs)) < 2 ^ 64
    → parse_buffers (wire m ∷ bs) ≡ ok (some m)
unfolding parse_buffers wire addresses
parse_lem m bs v h =
    after-Yields _ _ m (some m) [] bs
      (parse-Yields m v [] bs default_arp (Parser.new (wire m ∷ bs)) refl refl
        (new-At (wire m) bs (omega (arith, length-wire m v, ap length (append-nil (wire m)))) h))
      (λ p at. rw at.fine refl)

-- Parsing what `serialize` makes of a supported ARP message with addresses of six bytes and of 32
-- bits gives the message back.
pub parse-serialize_arp :
    (m : ArpMessage) → IsArp m → (serialize_buffers m >>= parse_buffers) ≡ ok (some m)
parse-serialize_arp m v =
    ap (λ o. o >>= parse_buffers) (serialize_lem m v)
    ∙ parse_lem m [] v (omega (arith, length-wire m v))
