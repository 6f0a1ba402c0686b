-- ===== src/Common/Assoc.antt =====
-- A Go map with number keys as an association list. The order of the list stands for the order of
-- a `range` over the map, which Go leaves open.
use Prim.Native.Nat.{ℕ}
use mathlib.Core.Path.{◌≡◌}
use mathlib.Core.Bool.{Bool}
use mathlib.Core.Option.{Option, none, some}
use mathlib.Core.List.{List, [], ◌∷◌}
use native.Mathlib.Omega.{arith}
use gogame.Common.Tests.{◌==◌, if◌then◌else◌}

module _ {ℓ} {A : Type ℓ} where
  abbrev has_key : ℕ → ℕ × A → Bool
  has_key key entry = entry.0 == key

  unfoldable pub lookup : ℕ → List (ℕ × A) → Option A
  lookup key [] = none
  lookup key (entry ∷ rest) = if has_key key entry then some entry.1 else lookup key rest

  -- `m[k] = v`
  unfoldable pub insert : ℕ → A → List (ℕ × A) → List (ℕ × A)
  insert key x [] = (key, x) ∷ []
  insert key x (entry ∷ rest) =
      let later = insert key x rest in if has_key key entry then (key, x) ∷ rest else entry ∷ later

  -- `delete(m, k)`
  unfoldable pub remove : ℕ → List (ℕ × A) → List (ℕ × A)
  remove key [] = []
  remove key (entry ∷ rest) =
      let later = remove key rest in if has_key key entry then later else entry ∷ later

  -- After `m[key] = x`, the key `other` is looked up.
  pub lookup-insert :
      (other key : ℕ) (x : A) (entries : List (ℕ × A))
      → lookup other (insert key x entries)
        ≡ (if key == other then some x else lookup other entries)
  unfolding lookup insert
  lookup-insert other key x [] = ground arith
  lookup-insert other key x (entry ∷ rest) = ground (arith, lookup-insert other key x rest)

  -- After `delete(m, key)`, the key `other` is looked up.
  pub lookup-remove :
      (other key : ℕ) (entries : List (ℕ × A))
      → lookup other (remove key entries) ≡ (if key == other then none else lookup other entries)
  unfolding lookup remove
  lookup-remove other key [] = ground arith
  lookup-remove other key (entry ∷ rest) = ground (arith, lookup-remove other key rest)
