-- ===== src/NetworkInterface/Expiry.antt =====
-- What `tick` does to the addresses that were learned.
use os_stream_socket.Base.{
  ℕ, ◌+◌, ◌%◌, ◌^◌, ◌≡◌, refl, sym, ap, ◌∙◌, List, [], ◌∷◌, Bool, true, false, ◌||◌, ◌&&◌, Option,
  none, some, leb, ◌==◌, if◌then◌else◌, lookup, erase, IsMap, lookup-erase_self, lookup-erase_ne,
  erase-IsMap, Bool-cases, ==→eq, ==→ne, inl, inr, arith,
}
use os_stream_socket.NetworkInterface.{
  NetworkInterface, Learned, older, age_addresses, erase_all, tick,
}

abbrev contains : ℕ → List ℕ → Bool
contains k [] = false
contains k (l ∷ ls) = (k == l) || contains k ls

-- The entry after some time, and whether it is too old then.
abbrev aged : ℕ → Option Learned → Option Learned
aged ms none = none
aged ms (some e) = some (record e { age = older ms e.age })

abbrev is_old : ℕ → Option Learned → Bool
is_old ms none = false
is_old ms (some e) = leb 30000 (older ms e.age)

lookup-aged :
    (ms j : ℕ) (m : List (ℕ × Learned)) → lookup j (age_addresses ms m).0 ≡ aged ms (lookup j m)
unfolding age_addresses
lookup-aged ms j [] = refl
lookup-aged ms j ((ip, e) ∷ m) = elim (Bool-cases (j == ip)) [
  | inl h ↦ rw h refl
  | inr h ↦ rw h (lookup-aged ms j m)
]

or_false : (b : Bool) → (b || false) ≡ b
or_false true = refl
or_false false = refl

abbrev no_entry : Option Learned
no_entry = none

either_none : (b : Bool) → (if b then no_entry else no_entry) ≡ no_entry
either_none true = refl
either_none false = refl

contains_step :
    (ms j ip : ℕ) (e : Learned) (m : List (ℕ × Learned))
    → contains j (age_addresses ms ((ip, e) ∷ m)).1
      ≡ (((j == ip) && leb 30000 (older ms e.age)) || contains j (age_addresses ms m).1)
unfolding age_addresses
contains_step ms j ip e m = elim (Bool-cases (leb 30000 (older ms e.age))) [
  | inl h ↦ ground (arith, h)
  | inr h ↦ ground (arith, h)
]

contains-expired :
    (ms j : ℕ) (m : List (ℕ × Learned))
    → IsMap m
    → contains j (age_addresses ms m).1 ≡ is_old ms (lookup j m)
unfolding age_addresses
contains-expired ms j [] h = refl
contains-expired ms j ((ip, e) ∷ m) (fresh, rest) =
    contains_step ms j ip e m ∙ (elim (Bool-cases (j == ip)) [
      | inl h ↦
          let gone : lookup j m ≡ none = rw (==→eq j ip h) fresh in
          rw h (
            ap (λ b. leb 30000 (older ms e.age) || b)
              (contains-expired ms j m rest ∙ ap (is_old ms) gone)
            ∙ or_false (leb 30000 (older ms e.age)))
      | inr h ↦ rw h (contains-expired ms j m rest)
    ])

erase_all_lem :
    (j : ℕ) (ks : List ℕ) (m : List (ℕ × Learned))
    → lookup j (erase_all ks m) ≡ (if contains j ks then none else lookup j m)
unfolding erase_all
erase_all_lem j [] m = refl
erase_all_lem j (k ∷ ks) m = erase_all_lem j ks (erase k m) ∙ (elim (Bool-cases (j == k)) [
  | inl h ↦
      let gone : lookup j (erase k m) ≡ none = rw (==→eq j k h) (lookup-erase_self k m) in
      rw h (ap (λ o. if contains j ks then none else o) gone ∙ either_none (contains j ks))
  | inr h ↦ rw h (
      ap (λ o. if contains j ks then none else o)
        (lookup-erase_ne k j m (λ e. ==→ne j k h (sym e))))
])

-- What is left of an entry after some time.
abbrev pub survivor : ℕ → Option Learned → Option Learned
survivor ms none = none
survivor ms (some e) =
    if leb 30000 ((e.age + ms) % 2 ^ 32)
    then none
    else some (record e { age = (e.age + ms) % 2 ^ 32 })

pick_survivor :
    (ms : ℕ) (o : Option Learned) → (if is_old ms o then none else aged ms o) ≡ survivor ms o
unfolding older
pick_survivor ms none = refl
pick_survivor ms (some e) = refl

-- If no address has two entries, then after `tick` an address is known exactly if it was known
-- before and its age, which has grown by the time passed in 32 bits, is less than 30 seconds; its
-- Ethernet address is the same.
pub tick_expires :
    (ms ip : ℕ) (i : NetworkInterface)
    → IsMap i.ip_addr_to_ethernet_addr
    → lookup ip (tick ms i).ip_addr_to_ethernet_addr
      ≡ survivor ms (lookup ip i.ip_addr_to_ethernet_addr)
unfolding tick
tick_expires ms ip i h =
    let m = i.ip_addr_to_ethernet_addr in
    erase_all_lem ip (age_addresses ms m).1 (age_addresses ms m).0
    ∙ rw (contains-expired ms ip m h, lookup-aged ms ip m) (pick_survivor ms (lookup ip m))

age_addresses-IsMap : (ms : ℕ) (m : List (ℕ × Learned)) → IsMap m → IsMap (age_addresses ms m).0
unfolding age_addresses
age_addresses-IsMap ms [] h = tt
age_addresses-IsMap ms ((ip, e) ∷ m) (fresh, rest) =
    (lookup-aged ms ip m ∙ ap (aged ms) fresh, age_addresses-IsMap ms m rest)

erase_all-IsMap : (ks : List ℕ) (m : List (ℕ × Learned)) → IsMap m → IsMap (erase_all ks m)
unfolding erase_all
erase_all-IsMap [] m h = h
erase_all-IsMap (k ∷ ks) m h = erase_all-IsMap ks (erase k m) (erase-IsMap k m h)

pub tick-IsMap :
    (ms : ℕ) (i : NetworkInterface)
    → IsMap i.ip_addr_to_ethernet_addr
    → IsMap (tick ms i).ip_addr_to_ethernet_addr
unfolding tick
tick-IsMap ms i h =
    let m = i.ip_addr_to_ethernet_addr in
    erase_all-IsMap (age_addresses ms m).1 (age_addresses ms m).0 (age_addresses-IsMap ms m h)
