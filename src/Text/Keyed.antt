-- ===== src/Text/Keyed.antt =====
-- A Go map with strings as keys.
use gogame.Common.{◌≡◌, ◌↔◌, refl, true, List, [], ◌∷◌, Option, none, some, if◌then◌else◌, arith}
use gogame.Text.{Text, equals}
use gogame.Text.Trimmed.{equals_refl, equals→≡}

pub equals_iff : (s t : Text) → (equals s t ≡ true) ↔ (s ≡ t)
equals_iff s t = (equals→≡ s t, λ e. rw e (equals_refl t))

module _ {ℓ} {A : Type ℓ} where
  unfoldable pub lookup : Text → List (Text × A) → Option A
  unfolding equals
  lookup key [] = none
  lookup key ((name, x) ∷ rest) = if equals name key then some x else lookup key rest

  unfoldable pub insert : Text → A → List (Text × A) → List (Text × A)
  unfolding equals
  insert key x [] = (key, x) ∷ []
  insert key x ((name, y) ∷ rest) =
      let later = insert key x rest in
      if equals name key then (key, x) ∷ rest else (name, y) ∷ later

  pub lookup-insert :
      (other key : Text) (x : A) (entries : List (Text × A))
      → lookup other (insert key x entries)
        ≡ (if equals key other then some x else lookup other entries)
  unfolding lookup insert
  lookup-insert other key x [] = refl
  lookup-insert other key x ((name, y) ∷ rest) = ground (
    arith,
    equals_iff name key,
    equals_iff key other,
    equals_iff name other,
    lookup-insert other key x rest,
  )
