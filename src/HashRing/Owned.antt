-- ===== src/HashRing/Owned.antt =====
-- Every key of the ring that `generateCircle` of base/util/hashring.go makes has one of the nodes.
use gogame.Common.{
  All-map, All-append, ℕ, zero, suc, ◌<◌, ◌≡◌, refl, arith, List, [], ◌∷◌, ◌⊎◌, inl, inr,
}
use gogame.Common.{◌*◌, ◌/◌, ◌==◌, length, get_or, All, Bool-cases, some, ◌∙◌}
use gogame.Common.{length-append}
use gogame.Common.Assoc
use gogame.HashRing.{
  Env, Name, Weights, HashRing, Circle, add_key, add_point, add_points, add_nodes,
}
use gogame.HashRing.{generate_circle, sort, total_weight, weight_of, weight_or_1}
use gogame.HashRing.{insert_key}
use gogame.HashRing.Sorted.{All-sort, sort-IsSorted, IsSorted}

-- A node of the list, by its index.
abbrev pub IsOneOf : List Name → Name → Type 0
IsOneOf nodes node = (i : ℕ) × (i < length nodes) × (get_or nodes i [] ≡ node)

IsOneOf-later :
    (n : Name) (nodes : List Name) (node : Name) → IsOneOf nodes node → IsOneOf (n ∷ nodes) node
IsOneOf-later n nodes node (i, lt, e) = (suc i, omega arith, e)

All-later :
    (n : Name) (nodes some_nodes : List Name)
    → All (IsOneOf nodes) some_nodes
    → All (IsOneOf (n ∷ nodes)) some_nodes
All-later n nodes [] ps = tt
All-later n nodes (x ∷ xs) (p, ps) = (IsOneOf-later n nodes x p, All-later n nodes xs ps)

All-IsOneOf : (nodes : List Name) → All (IsOneOf nodes) nodes
All-IsOneOf [] = tt
All-IsOneOf (n ∷ nodes) = ((0, omega arith, refl), All-later n nodes nodes (All-IsOneOf nodes))

-- A key that the ring has, for one of the nodes.
unfoldable pub IsOwned : List Name → List (ℕ × Name) → ℕ → Type 0
IsOwned nodes ring key = (node : Name) × (Assoc.lookup key ring ≡ some node) × IsOneOf nodes node

record IsCircle (nodes : List Name) (c : Circle) : Type 0 where
  owned : All (IsOwned nodes c.ring) c.keys
  both : (length c.keys ≡ 0) × (length c.ring ≡ 0) ⊎ (0 < length c.keys) × (0 < length c.ring)

insert_grows :
    (key : ℕ) (node : Name) (ring : List (ℕ × Name)) → 0 < length (Assoc.insert key node ring)
unfolding Assoc.insert
insert_grows key node [] = omega arith
insert_grows key node (entry ∷ ring) = ground arith

module _ (nodes : List Name) where
  insert-IsOwned :
      (key x : ℕ) (node : Name) (ring : List (ℕ × Name))
      → IsOneOf nodes node
      → (key ≡ x) ⊎ IsOwned nodes ring x
      → IsOwned nodes (Assoc.insert key node ring) x
  unfolding IsOwned
  insert-IsOwned key x node ring one known = elim (Bool-cases (key == x)) [
    | inl this ↦ (node, rw (Assoc.lookup-insert x key node ring, this) refl, one)
    | inr other ↦ elim known [
      | inl same ↦ absurd (ground arith)
      | inr (owner, found, its) ↦
          (owner, rw (Assoc.lookup-insert x key node ring, other) found, its)
    ]
  ]

  add_key-IsCircle :
      (node : Name) (key : ℕ) (c : Circle)
      → IsOneOf nodes node
      → IsCircle nodes c
      → IsCircle nodes (add_key node key c)
  add_key-IsCircle node key c one h = record {
    owned =
        All-append (IsOwned nodes (Assoc.insert key node c.ring)) c.keys (key ∷ [])
          (All-map _ _ (λ x own. insert-IsOwned key x node c.ring one (inr own)) c.keys h.owned)
          (insert-IsOwned key key node c.ring one (inl refl), tt);
    both = inr (omega (arith, length-append c.keys (key ∷ [])), insert_grows key node c.ring);
  }

  module _ (env : Env) where
    add_points-IsCircle :
        (node : Name) (j : ℕ) (c : Circle)
        → IsOneOf nodes node
        → IsCircle nodes c
        → IsCircle nodes (add_points env node j c)
    unfolding add_points add_point
    add_points-IsCircle node zero c one h = h
    add_points-IsCircle node (suc j) c one h = add_key-IsCircle node _ _ one (
        add_key-IsCircle node _ _ one
          (add_key-IsCircle node _ _ one (add_points-IsCircle node j c one h)))

    add_nodes-IsCircle :
        (ws : Weights) (size total : ℕ) (rest : List Name) (c : Circle)
        → All (IsOneOf nodes) rest
        → IsCircle nodes c
        → IsCircle nodes (add_nodes env ws size total rest c)
    unfolding add_nodes
    add_nodes-IsCircle ws size total [] c ones h = h
    add_nodes-IsCircle ws size total (node ∷ rest) c (one, ones) h =
        let factor = 40 * size * weight_or_1 (weight_of node ws) / total in
        add_nodes-IsCircle ws size total rest (add_points env node factor c) ones
          (add_points-IsCircle node factor c one h)

length-insert_key : (key : ℕ) (keys : List ℕ) → length (insert_key key keys) ≡ suc (length keys)
unfolding insert_key
length-insert_key key [] = refl
length-insert_key key (k ∷ keys) = ground (arith, length-insert_key key keys)

length-sort : (keys : List ℕ) → length (sort keys) ≡ length keys
unfolding sort
length-sort [] = refl
length-sort (k ∷ keys) = omega (arith, length-insert_key k (sort keys), length-sort keys)

-- A ring that is ready for lookups.
pub record IsRing (nodes : List Name) (h : HashRing) : Type 0 where
  pub owned : All (IsOwned nodes h.ring) h.sorted_keys
  pub sorted : IsSorted h.sorted_keys
  pub both :
      (length h.sorted_keys ≡ 0) × (length h.ring ≡ 0)
      ⊎ (0 < length h.sorted_keys) × (0 < length h.ring)

pub generate_circle-IsRing :
    (env : Env) (nodes : List Name) (ws : Weights) → IsRing nodes (generate_circle env nodes ws)
unfolding generate_circle
generate_circle-IsRing env nodes ws =
    let empty : Circle = record { ring = []; keys = [] } in
    let c = add_nodes env ws (length nodes) (total_weight ws nodes) nodes empty in
    let h : IsCircle nodes c =
      add_nodes-IsCircle nodes env ws (length nodes) (total_weight ws nodes) nodes empty
        (All-IsOneOf nodes) (record { owned = tt; both = inl (refl, refl) }) in
    record {
      owned = All-sort (IsOwned nodes c.ring) c.keys h.owned;
      sorted = sort-IsSorted c.keys;
      both = elim h.both [
        | inl (a, b) ↦ inl (length-sort c.keys ∙ a, b)
        | inr (a, b) ↦ inr (omega (arith, length-sort c.keys), b)
      ];
    }
