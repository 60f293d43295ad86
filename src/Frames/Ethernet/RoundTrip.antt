-- ===== src/Frames/Ethernet/RoundTrip.antt =====
-- An Ethernet frame that is written is read back.
use os_stream_socket.Base.{
  ℕ, ◌^◌, ◌<◌, ◌≡◌, refl, sym, ap, ◌∙◌, List, [], ◌∷◌, ◌++◌, append_assoc, append-nil, ◌==◌, length,
  if◌then◌else◌, flatten, length-append, some, ok, ◌>>=◌, arith,
}
use os_stream_socket.Parser.{Parser, all_remaining}
use os_stream_socket.Parser
use os_stream_socket.Parser.Read.{
  At, Yields, bind-Yields, eq-Yields, integers-Yields, new-At, done-Yields, after-Yields,
  remaining-At,
}
use os_stream_socket.Serializer.{Serializer, encode, integer}
use os_stream_socket.Serializer
use os_stream_socket.Serializer.RoundTrip.{
  two_bytes, integer-encode, integers_lem, framed, finished-push_buffers,
}
use os_stream_socket.Frames.{EthernetHeader, EthernetFrame}
use os_stream_socket.Frames.Arp.RoundTrip.{IsAddress}
use os_stream_socket.Frames.Ethernet.{
  parse_header, serialize_header, parse_frame, serialize_frame, empty_frame, parse_buffers,
  serialize_buffers,
}

pub record IsHeader (h : EthernetHeader) : Type 0 where
  pub dst : IsAddress h.dst
  pub src : IsAddress h.src
  pub type : h.type < 2 ^ 16

unfoldable pub wire : EthernetHeader → List ℕ
wire h = h.dst ++ (h.src ++ (encode 2 h.type ++ []))

header_lem :
    (h : EthernetHeader)
    → IsHeader h
    → serialize_header h Serializer.new ≡ record { output = []; buffer = wire h }
unfolding serialize_header Serializer.new integer wire
header_lem h v =
    rw (integers_lem h.dst _ v.dst.bytes, integers_lem h.src _ v.src.bytes)
      (ap {B = Serializer} (λ b. record { output = []; buffer = b })
        (simp (append_assoc, append-nil)))

-- 14 bytes.
pub length-wire : (h : EthernetHeader) → IsHeader h → length (wire h) ≡ 14
unfolding wire
length-wire h v = omega (
  arith,
  length-append h.dst (h.src ++ (encode 2 h.type ++ [])),
  length-append h.src (encode 2 h.type ++ []),
  v.dst.six,
  v.src.six,
)

-- The buffers behind the header, and what is read of them: nothing if they hold no byte.
abbrev pub behind : List (List ℕ) → List (List ℕ)
behind [] = []
behind (b ∷ bs) = b ∷ framed [] bs

abbrev pub carried : List (List ℕ) → List (List ℕ)
carried bs = if length (flatten (behind bs)) == 0 then [] else behind bs

pub serialize_lem :
    (f : EthernetFrame) → IsHeader f.header → serialize_buffers f ≡ wire f.header ∷ behind f.payload
unfolding serialize_buffers serialize_frame
serialize_lem f v =
    finished-push_buffers f.payload (serialize_header f.header Serializer.new)
    ∙ ap (λ s. s.output ++ framed s.buffer f.payload) (header_lem f.header v)
    ∙ split f.payload
  where
    split : (bs : List (List ℕ)) → framed (wire f.header) bs ≡ wire f.header ∷ behind bs
    split [] = refl
    split (b ∷ bs) = refl

module _ (h : EthernetHeader) (v : IsHeader h) (bs : List (List ℕ)) where
  header-Yields :
      (old : EthernetHeader) (p : Parser)
      → length old.dst ≡ 6
      → length old.src ≡ 6
      → At p (wire h) bs
      → Yields (parse_header old p) h [] bs
  unfolding parse_header wire
  header-Yields old p s t at =
      bind-Yields _ _ h.dst _ _ [] bs bs
        (integers-Yields old.dst p h.dst _ bs (s ∙ sym v.dst.six) v.dst.bytes at)
        λ p₁ at₁.
          bind-Yields _ _ h.src _ _ [] bs bs
            (integers-Yields old.src p₁ h.src _ bs (t ∙ sym v.src.six) v.src.bytes at₁)
            λ p₂ at₂.
              bind-Yields _ _ h.type _ _ [] bs bs
                (integer-encode old.type p₂ h.type _ bs two_bytes v.type at₂)
                λ p₃ at₃. done-Yields _ p₃ [] bs at₃

-- Parsing what `serialize` makes of an Ethernet frame whose header's fields are within their sizes
-- gives its header back, and its payload with an empty buffer behind each of its buffers, or none
-- if it has no byte; if there are fewer than 2 ^ 64 bytes.
pub parse-serialize_frame :
    (f : EthernetFrame)
    → IsHeader f.header
    → length (flatten (wire f.header ∷ behind f.payload)) < 2 ^ 64
    → parse_buffers (serialize_buffers f)
      ≡ ok (some (record { header = f.header; payload = carried f.payload }))
unfolding parse_buffers parse_frame
parse-serialize_frame f v w =
    let bs = behind f.payload in
    let at : At (Parser.new (wire f.header ∷ bs)) (wire f.header) bs =
      new-At (wire f.header) bs (omega (arith, length-wire f.header v)) w in
    ap parse_buffers (serialize_lem f v)
    ∙ after-Yields _ _ (record { header = f.header; payload = carried f.payload }) _ [] bs
        (bind-Yields _ _ f.header (record { header = f.header; payload = carried f.payload }) [] []
          bs bs (header-Yields f.header v bs empty_frame.header _ refl refl at)
          (λ p₁ at₁.
            eq-Yields _ [] bs
              (ap (λ o. o >>= λ payload. ok (record { header = f.header; payload = payload }, p₁))
                (remaining-At p₁ bs at₁))
              (done-Yields _ p₁ [] bs at₁)))
        (λ p at'. rw at'.fine refl)
