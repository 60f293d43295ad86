-- ===== src/Base/Assoc.antt =====
-- A map with numbers as keys, as the list of its entries.
use Prim.Native.Nat.{ℕ}
use mathlib.Core.Path.{◌≡◌, refl, ◌∙◌}
use mathlib.Core.Logic.{◌≢◌, inl, inr}
use mathlib.Core.Option.{Option, none, some}
use mathlib.Core.List.{List, [], ◌∷◌}
use native.Mathlib.Omega.{arith}
use os_stream_socket.Base.Tests.{◌==◌, if◌then◌else◌, ==→eq, ==→ne, Bool-cases}

module _ {ℓ} {A : Type ℓ} where
  -- `std::map::find`
  abbrev pub lookup : ℕ → List (ℕ × A) → Option A
  lookup k [] = none
  lookup k ((l, a) ∷ m) = if k == l then some a else lookup k m

  -- `m[k] = a`
  abbrev pub assign : ℕ → A → List (ℕ × A) → List (ℕ × A)
  assign k a [] = (k, a) ∷ []
  assign k a ((l, b) ∷ m) = let rest = assign k a m in if k == l then (k, a) ∷ m else (l, b) ∷ rest

  -- `std::map::erase`
  abbrev pub erase : ℕ → List (ℕ × A) → List (ℕ × A)
  erase k [] = []
  erase k ((l, b) ∷ m) = let rest = erase k m in if k == l then rest else (l, b) ∷ rest

  -- No key occurs twice.
  abbrev pub IsMap : List (ℕ × A) → Type ℓ
  IsMap [] = Unit
  IsMap ((k, a) ∷ m) = (lookup k m ≡ none) × IsMap m

  pub lookup-assign_self : (k : ℕ) (a : A) (m : List (ℕ × A)) → lookup k (assign k a m) ≡ some a
  lookup-assign_self k a [] = ground arith
  lookup-assign_self k a ((l, b) ∷ m) = ground (arith, lookup-assign_self k a m)

  pub lookup-assign_ne :
      (k j : ℕ) (a : A) (m : List (ℕ × A)) → j ≢ k → lookup j (assign k a m) ≡ lookup j m
  lookup-assign_ne k j a [] h = ground (arith, h)
  lookup-assign_ne k j a ((l, b) ∷ m) h = ground (arith, lookup-assign_ne k j a m h)

  pub lookup-erase_self : (k : ℕ) (m : List (ℕ × A)) → lookup k (erase k m) ≡ none
  lookup-erase_self k [] = refl
  lookup-erase_self k ((l, b) ∷ m) = ground (arith, lookup-erase_self k m)

  pub lookup-erase_ne : (k j : ℕ) (m : List (ℕ × A)) → j ≢ k → lookup j (erase k m) ≡ lookup j m
  lookup-erase_ne k j [] h = refl
  lookup-erase_ne k j ((l, b) ∷ m) h = ground (arith, lookup-erase_ne k j m h)

  pub assign-IsMap : (k : ℕ) (a : A) (m : List (ℕ × A)) → IsMap m → IsMap (assign k a m)
  assign-IsMap k a [] h = (refl, tt)
  assign-IsMap k a ((l, b) ∷ m) (fresh, rest) = elim (Bool-cases (k == l)) [
    | inl e ↦ rw e (rw (==→eq k l e) fresh, rest)
    | inr e ↦ rw e ((lookup-assign_ne k l a m (==→ne k l e) ∙ fresh), assign-IsMap k a m rest)
  ]

  pub erase-IsMap : (k : ℕ) (m : List (ℕ × A)) → IsMap m → IsMap (erase k m)
  erase-IsMap k [] h = tt
  erase-IsMap k ((l, b) ∷ m) (fresh, rest) = elim (Bool-cases (k == l)) [
    | inl e ↦ rw e (erase-IsMap k m rest)
    | inr e ↦ rw e ((lookup-erase_ne k l m (==→ne k l e) ∙ fresh), erase-IsMap k m rest)
  ]
