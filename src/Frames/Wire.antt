-- ===== src/Frames/Wire.antt =====
-- The formats that the network interface and the router use, as the readers and writers of bytes make
-- them, with their throws. The ARP messages that an interface makes are always supported, so that
-- serializing them does not throw.
use os_stream_socket.Base.{[], some, ◌≡◌, sym, ap, ◌∙◌, Outcome, ok, err, ◌>>=◌}
use os_stream_socket.Frames.{Formats, ArpMessage}
use os_stream_socket.Frames.Arp
use os_stream_socket.Frames.Arp.RoundTrip.{IsArp, serialize_lem, parse-serialize_arp}
use os_stream_socket.Frames.Ipv4

abbrev or_else {ℓ} : {A : Type ℓ} → A → Outcome A → A
or_else default (ok value) = value
or_else default (err fault) = default

unfoldable pub wire_formats : Formats
wire_formats = record {
  serialize_datagram = Ipv4.serialize_buffers;
  parse_datagram = Ipv4.parse_buffers;
  serialize_arp = λ m. or_else [] (Arp.serialize_buffers m);
  parse_arp = Arp.parse_buffers;
  compute_checksum = Ipv4.compute_checksum;
}

pub parse_arp-serialize_arp :
    (m : ArpMessage) → IsArp m → wire_formats.parse_arp (wire_formats.serialize_arp m) ≡ ok (some m)
unfolding wire_formats
parse_arp-serialize_arp m v =
    let e = serialize_lem m v in
    ap (λ o. Arp.parse_buffers (or_else [] o)) e
    ∙ ap (λ o. o >>= Arp.parse_buffers) (sym e)
    ∙ parse-serialize_arp m v
