-- ===== src/Router/Choice.antt =====
-- The loop over the routing table finds the longest matching prefix.
use Prim.Native.Nat.{bit_and}
use os_stream_socket.Base.{
  Bool, ◌==◌, ℕ, ◌≤◌, ◌<◌, ◌≡◌, ◌⊎◌, List, ◌∷◌, true, false, some, get_elem?,
}
use os_stream_socket.Router.{RouteRecord, Found, ℤ, less_than, found, choose}

-- The destination with the bits behind the prefix cleared is the prefix as it was given.
abbrev pub agrees : ℕ → RouteRecord → Bool
agrees destination r = bit_and destination r.mask == r.route_prefix

-- No entry of the table that matches is longer than what was found before.
abbrev pub NoneLonger : ℕ → ℤ → List RouteRecord → Type 0
NoneLonger destination best table =
    (j : ℕ) (r : RouteRecord)
    → get_elem? table j ≡ some r
    → agrees destination r ≡ true
    → less_than best r.prefix_length ≡ false

-- The entry at a place matches, no other that matches is longer, and none before it is as long.
pub record Longest (destination : ℕ) (table : List RouteRecord) (k : ℕ) (r : RouteRecord)
    : Type 0 where
  pub entry : get_elem? table k ≡ some r
  pub matching : agrees destination r ≡ true
  pub longest :
      (j : ℕ) (s : RouteRecord)
      → get_elem? table j ≡ some s
      → agrees destination s ≡ true
      → s.prefix_length ≤ r.prefix_length
  pub first :
      (j : ℕ) (s : RouteRecord)
      → j < k
      → get_elem? table j ≡ some s
      → agrees destination s ≡ true
      → s.prefix_length < r.prefix_length

Choice : ℕ → List RouteRecord → Found → Type 0
Choice destination table best =
    ((choose destination table best ≡ best) × NoneLonger destination best.max_match_len table)
    ⊎ ((k : ℕ) × (r : RouteRecord) × Longest destination table k r
        × (less_than best.max_match_len r.prefix_length ≡ true)
        × (choose destination table best ≡ found r))

-- An entry that is passed over.
abbrev Passed : ℕ → RouteRecord → List RouteRecord → Found → Type 0
Passed destination r table best =
    ((choose destination table best ≡ best) × NoneLonger destination best.max_match_len (r ∷ table))
    ⊎ ((k : ℕ) × (s : RouteRecord) × Longest destination (r ∷ table) k s
        × (less_than best.max_match_len s.prefix_length ≡ true)
        × (choose destination table best ≡ found s))
