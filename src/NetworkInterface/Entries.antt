-- ===== src/NetworkInterface/Entries.antt =====
-- The invariant of an interface: a new one has it, and time keeps it.
use os_stream_socket.Base.{
  ℕ, ◌<◌, ◌≡◌, ◌⊎◌, ◌≢◌, refl, sym, List, [], ◌∷◌, false, Option, none, some, ◌==◌, lookup, IsMap,
  Bool-cases, ==→ne, inl, inr, arith,
}
use os_stream_socket.Frames.{EthernetAddress}
use os_stream_socket.NetworkInterface.{NetworkInterface, Learned, Waiting, new, age_queues, tick}
use os_stream_socket.NetworkInterface.Expiry.{survivor, tick_expires, tick-IsMap}

-- Of what the two maps hold for one address: nothing waits for an address that is known, and what
-- is known has an age, in 32 bits, below 30 seconds.
pub record IsEntry (known : Option Learned) (pending : Option Waiting) : Type 0 where
  pub apart : (known ≡ none) ⊎ (pending ≡ none)
  pub young : (e : Learned) → known ≡ some e → e.age < 30000

pub record IsInterface (i : NetworkInterface) : Type 0 where
  pub addresses : IsMap i.ip_addr_to_ethernet_addr
  pub queues : IsMap i.ip_addr_to_ethernet_datagram_queue
  pub entries :
      (ip : ℕ)
      → IsEntry
          (lookup ip i.ip_addr_to_ethernet_addr)
          (lookup ip i.ip_addr_to_ethernet_datagram_queue)

pub new-IsInterface : (mac : EthernetAddress) (ip : ℕ) → IsInterface (new mac ip)
unfolding new
new-IsInterface mac ip = record {
  addresses = tt;
  queues = tt;
  entries = λ k. record { apart = inl refl; young = λ e h. absurd (cc) };
}

-- An entry that was just learned, and one that was just asked for.
pub learned-IsEntry : (mac : EthernetAddress) → IsEntry (some (record { mac = mac; age = 0 })) none
learned-IsEntry mac = record { apart = inr refl; young = λ e h. ground (arith, h) }

pub asked-IsEntry : (q : Option Waiting) → IsEntry none q
asked-IsEntry q = record { apart = inl refl; young = λ e h. absurd (cc) }

pub same-IsEntry :
    {o o' : Option Learned} {q q' : Option Waiting} → o ≡ o' → q ≡ q' → IsEntry o' q' → IsEntry o q
same-IsEntry e h v = rw (e, h) v

pub not_same : (k l : ℕ) → (k == l) ≡ false → k ≢ l
not_same k l h e = ==→ne k l h (sym e)

survivor-IsEntry :
    (ms : ℕ) (o : Option Learned) (q q' : Option Waiting)
    → (q ≡ none → q' ≡ none)
    → IsEntry o q
    → IsEntry (survivor ms o) q'
survivor-IsEntry ms none q q' still v = asked-IsEntry q'
survivor-IsEntry ms (some e) q q' still v = record {
  apart = elim v.apart [ inl h ↦ absurd (cc) | inr h ↦ inr (still h) ];
  young = λ e' h. ground (arith, h);
}

some_not_none : {q : Waiting} → some q ≡ none → ⊥
some_not_none h = cc

lookup-age_queues :
    (ms k : ℕ) (m : List (ℕ × Waiting)) → lookup k m ≡ none → lookup k (age_queues ms m) ≡ none
unfolding age_queues
lookup-age_queues ms k [] h = refl
lookup-age_queues ms k ((ip, q) ∷ m) h = elim (Bool-cases (k == ip)) [
  | inl e ↦ absurd (some_not_none (rw e at h))
  | inr e ↦ rw e (lookup-age_queues ms k m (rw e at h))
]

age_queues-IsMap : (ms : ℕ) (m : List (ℕ × Waiting)) → IsMap m → IsMap (age_queues ms m)
unfolding age_queues
age_queues-IsMap ms [] h = tt
age_queues-IsMap ms ((ip, q) ∷ m) (fresh, rest) =
    (lookup-age_queues ms ip m fresh, age_queues-IsMap ms m rest)

still_none :
    (ms k : ℕ) (i : NetworkInterface)
    → lookup k i.ip_addr_to_ethernet_datagram_queue ≡ none
    → lookup k (tick ms i).ip_addr_to_ethernet_datagram_queue ≡ none
unfolding tick
still_none ms k i = lookup-age_queues ms k i.ip_addr_to_ethernet_datagram_queue

pub tick-IsInterface : (ms : ℕ) (i : NetworkInterface) → IsInterface i → IsInterface (tick ms i)
tick-IsInterface ms i v = record {
  addresses = tick-IsMap ms i v.addresses;
  queues = unfold tick in age_queues-IsMap ms i.ip_addr_to_ethernet_datagram_queue v.queues;
  entries = λ k.
      same-IsEntry (tick_expires ms k i v.addresses) refl
        (survivor-IsEntry ms _ _ _ (still_none ms k i) (v.entries k));
}
