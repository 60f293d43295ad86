-- ===== src/Router/Forward.antt =====
-- What the router does with one datagram.
use os_stream_socket.Base.{
  ℕ, ◌≤◌, ◌<◌, ◌≡◌, ◌⊎◌, ◌^◌, false, none, some, length, get_elem?, set, ok, Outcome, ◌>>=◌, ◌-◌,
}
use os_stream_socket.Frames.{Formats, Ipv4Datagram}
use os_stream_socket.NetworkInterface
use os_stream_socket.Router.{Router, RouteRecord, AsyncNetworkInterface, forward}
use os_stream_socket.Router.Choice.{Longest, agrees}

-- Every entry of the table names an interface.
pub record IsRouted (r : Router) : Type 0 where
  pub few : length r.interfaces < 2 ^ 31
  pub named :
      (j : ℕ) (e : RouteRecord)
      → get_elem? r.route_table j ≡ some e
      → e.interface_num < length r.interfaces

-- Where an entry sends a datagram: to its next hop, or directly to the destination.
abbrev pub hop_of : RouteRecord → ℕ → ℕ
hop_of e destination = elim e.next_hop as (λ o. ℕ) [ none ↦ destination | some ip ↦ ip ]

-- A router whose interface `n` sends a datagram with a new header.
abbrev pub sent_on :
    Formats → ℕ → AsyncNetworkInterface → Ipv4Datagram → ℕ → Router → Outcome Router
sent_on f n a d ip r =
    f.compute_checksum (record (d.header) { ttl = d.header.ttl - 1 }) >>= λ header.
    NetworkInterface.send_datagram f (record d { header = header }) ip a.interface >>= λ interface.
    ok (record r { interfaces = set r.interfaces n (record a { interface = interface }) })

abbrev pub Sends : Formats → Ipv4Datagram → Router → Type 0
Sends f d r =
    (k : ℕ) × (e : RouteRecord) × (a : AsyncNetworkInterface) × Longest d.header.dst r.route_table k
      e
    × (get_elem? r.interfaces e.interface_num ≡ some a)
    × (forward f d r ≡ sent_on f e.interface_num a d (hop_of e d.header.dst) r)

-- Dropped as its time is up, dropped as no entry matches, or sent on.
abbrev pub Handled : Formats → Ipv4Datagram → Router → Type 0
Handled f d r =
    ((d.header.ttl ≤ 1) × (forward f d r ≡ ok r))
    ⊎ ((((j : ℕ) (e : RouteRecord)
            → get_elem? r.route_table j ≡ some e
            → agrees d.header.dst e ≡ false)
          × (forward f d r ≡ ok r))
        ⊎ ((1 < d.header.ttl) × Sends f d r))
