-- ===== src/Router.antt =====
-- The router of src/router.hh and src/router.cc. A subscript outside the vector of interfaces, whose
-- behaviour C++ leaves undefined, is the outcome `err out_of_bounds`; `at` throws.
pub mod Choice
pub mod Forward
mod Tests
use os_stream_socket.Base.{
  ℕ, zero, suc, ◌+◌, ◌-◌, ◌*◌, ◌%◌, ◌^◌, List, [], ◌∷◌, ◌++◌, Bool, true, false, Option, none, some,
  length, get_elem?, set, ltb, leb, ◌==◌, if◌then◌else◌, Outcome, ok, err, out_of_bounds,
  out_of_fuel, runtime_error, ◌>>=◌,
}
use Prim.Native.Nat.{bit_and}
use os_stream_socket.Frames.{Formats, Ipv4Datagram, Ipv4Header, EthernetFrame}
use os_stream_socket.NetworkInterface.{NetworkInterface}
use os_stream_socket.NetworkInterface

pub record AsyncNetworkInterface : Type 0 where
  pub interface : NetworkInterface
  pub datagrams_in : List Ipv4Datagram

-- The overriding `recv_frame`.
unfoldable pub receive_frame :
    Formats → EthernetFrame → AsyncNetworkInterface → Outcome AsyncNetworkInterface
receive_frame f frame a =
    NetworkInterface.recv_frame f frame a.interface >>= λ (received, interface). ok (record a {
      interface = interface;
      datagrams_in = elim received [
        | none ↦ a.datagrams_in
        | some dgram ↦ a.datagrams_in ++ dgram ∷ []
      ];
    })

unfoldable pub maybe_receive : AsyncNetworkInterface → Option Ipv4Datagram × AsyncNetworkInterface
maybe_receive a = elim a.datagrams_in [
  | [] ↦ (none, a)
  | dgram ∷ rest ↦ (some dgram, record a { datagrams_in = rest })
]

pub record RouteRecord : Type 0 where
  pub mask : ℕ
  pub route_prefix : ℕ
  pub prefix_length : ℕ
  pub next_hop : Option ℕ
  pub interface_num : ℕ

-- The constructor, for a prefix of 32 bits at most: a longer one has no shift in C++.
unfoldable pub route_record : ℕ → ℕ → Option ℕ → ℕ → RouteRecord
route_record route_prefix prefix_length next_hop interface_num = record {
  mask = (if prefix_length == 0 then 0 else 0xffffffff * 2 ^ (32 - prefix_length) % 2 ^ 32);
  route_prefix = route_prefix;
  prefix_length = prefix_length;
  next_hop = next_hop;
  interface_num = interface_num;
}

pub record Router : Type 0 where
  pub interfaces : List AsyncNetworkInterface
  pub route_table : List RouteRecord

unfoldable pub add_interface : AsyncNetworkInterface → Router → ℕ × Router
add_interface a r = (length r.interfaces, record r { interfaces = r.interfaces ++ a ∷ [] })

unfoldable pub interface_at : ℕ → Router → Outcome AsyncNetworkInterface
interface_at n r = elim (get_elem? r.interfaces n) [ none ↦ err runtime_error | some a ↦ ok a ]

unfoldable pub add_route : ℕ → ℕ → Option ℕ → ℕ → Router → Router
unfolding route_record
add_route route_prefix prefix_length next_hop interface_num r = record r {
  route_table =
      r.route_table ++ route_record route_prefix prefix_length next_hop interface_num ∷ [];
}

-- The `int` variables of `route`.
pub data ℤ : Type 0 where
  pos negsuc : ℕ → ℤ

-- The conversion of a `size_t` to an `int` of 32 bits.
unfoldable pub to_int : ℕ → ℤ
to_int n = if ltb (n % 2 ^ 32) (2 ^ 31) then pos (n % 2 ^ 32) else negsuc (2 ^ 32 - 1 - n % 2 ^ 32)

unfoldable pub less_than : ℤ → ℕ → Bool
less_than (pos m) n = ltb m n
less_than (negsuc m) n = true

unfoldable pub is_minus_one : ℤ → Bool
is_minus_one (pos n) = false
is_minus_one (negsuc n) = n == 0

-- What the loop over the table has found.
pub record Found : Type 0 where
  pub next_hop : Option ℕ
  pub interface_num : ℤ
  pub max_match_len : ℤ

unfoldable pub nothing_found : Found
nothing_found = record { next_hop = none; interface_num = negsuc 0; max_match_len = negsuc 0 }

unfoldable pub found : RouteRecord → Found
unfolding to_int
found r = record {
  next_hop = r.next_hop;
  interface_num = to_int r.interface_num;
  max_match_len = pos r.prefix_length;
}

unfoldable pub matches : ℕ → RouteRecord → Bool
matches destination r = bit_and destination r.mask == r.route_prefix

unfoldable pub choose : ℕ → List RouteRecord → Found → Found
unfolding matches found less_than
choose destination [] best = best
choose destination (r ∷ table) best = choose destination table (
    if matches destination r
    then (if less_than best.max_match_len r.prefix_length then found r else best)
    else best)

module _ (f : Formats) where
  -- What stands at a place of the vector sends the datagram.
  unfoldable pub send_at :
      ℕ → Option AsyncNetworkInterface → Ipv4Datagram → ℕ → Router → Outcome Router
  send_at n none dgram next_hop r = err out_of_bounds
  send_at n (some a) dgram next_hop r =
      NetworkInterface.send_datagram f dgram next_hop a.interface >>= λ interface.
      ok (record r { interfaces = set r.interfaces n (record a { interface = interface }) })

  -- `interfaces_[interface_num].send_datagram( … )`
  unfoldable pub send_on : ℤ → Ipv4Datagram → ℕ → Router → Outcome Router
  send_on (negsuc n) dgram next_hop r = err out_of_bounds
  send_on (pos n) dgram next_hop r = send_at n (get_elem? r.interfaces n) dgram next_hop r

  unfoldable pub hop : Ipv4Datagram → Outcome Ipv4Datagram
  hop dgram =
      f.compute_checksum (record (dgram.header) { ttl = dgram.header.ttl - 1 }) >>= λ header.
      ok (record dgram { header = header })

  -- What the loop does with one datagram.
  unfoldable pub forward : Ipv4Datagram → Router → Outcome Router
  unfolding nothing_found choose is_minus_one hop send_on
  forward dgram r =
      let destination = dgram.header.dst in
      let best = choose destination r.route_table nothing_found in
      let next_hop = elim best.next_hop as (λ o. ℕ) [ none ↦ destination | some ip ↦ ip ] in
      let sent = hop dgram >>= λ d. send_on best.interface_num d next_hop r in
      if leb dgram.header.ttl 1
      then ok r
      else (if is_minus_one best.interface_num then ok r else sent)

  -- The loop `while ( true )` over the datagrams that interface `n` has received.
  unfoldable pub drain : ℕ → ℕ → Router → Outcome Router
  unfolding maybe_receive forward
  drain n zero r = err out_of_fuel
  drain n (suc fuel) r = elim (get_elem? r.interfaces n) [
    | none ↦ err out_of_bounds
    | some a ↦ elim (maybe_receive a).0 [
      | none ↦ ok r
      | some dgram ↦
          forward dgram (record r { interfaces = set r.interfaces n (maybe_receive a).1 })
          >>= drain n fuel
    ]
  ]

  unfoldable pub received_by : ℕ → Router → ℕ
  received_by n r = elim (get_elem? r.interfaces n) as (λ o. ℕ) [
    | none ↦ 0
    | some a ↦ length a.datagrams_in
  ]

  -- The loop over the interfaces, from number `n` on.
  unfoldable pub route_from : ℕ → ℕ → Router → Outcome Router
  unfolding drain received_by
  route_from n zero r = ok r
  route_from n (suc rounds) r = drain n (suc (received_by n r)) r >>= route_from (suc n) rounds

  unfoldable pub route : Router → Outcome Router
  unfolding route_from
  route r = route_from 0 (length r.interfaces) r
