-- ===== src/HashRing/Lookup.antt =====
-- Every string has its node in the ring (`GetNode` of base/util/hashring.go).
use gogame.Common.{
  ℕ, zero, suc, ◌≤◌, ◌<◌, ◌≡◌, refl, arith, Bool, false, List, [], ◌∷◌, ◌⊎◌, inl, inr,
}
use gogame.Common.{ltb, ◌==◌, ==→≡, length, get_or, take, All, Bool-cases, none, some}
use gogame.Common.{ltb→lt, ltb_false→le, lt→ltb}
use gogame.Common.Assoc
use gogame.HashRing.{Env, Name, Weights, HashRing}
use gogame.HashRing.{generate_circle, get_node, get_node_pos, gen_key, search}
use gogame.HashRing.Sorted.{sorted_at, All-get_or, IsFound, search_lem}
use gogame.HashRing.Owned.{IsOneOf, IsOwned, IsRing, generate_circle-IsRing}

All-take :
    (P : ℕ → Type 0) (p : ℕ) (keys : List ℕ)
    → ((i : ℕ) → i < p → i < length keys → P (get_or keys i 0))
    → All P (take p keys)
All-take P zero keys f = tt
All-take P (suc p) [] f = tt
All-take P (suc p) (k ∷ keys) f = (
  f 0 (omega arith) (omega arith),
  All-take P p keys (λ i a b. f (suc i) (omega arith) (omega arith)),
)

-- The node of a string: that of the first key above the string's, or of the first key of all where
-- no key is above.
pub record IsNodeFor (env : Env) (nodes : List Name) (h : HashRing) (key node : Name) : Type 0 where
  pub pos : ℕ
  pub at : pos < length h.sorted_keys
  pub found : Assoc.lookup (get_or h.sorted_keys pos 0) h.ring ≡ some node
  pub one : IsOneOf nodes node
  pub place :
      All (λ x. x ≤ gen_key env key) (take pos h.sorted_keys)
        × (gen_key env key < get_or h.sorted_keys pos 0)
      ⊎ (pos ≡ 0) × All (λ x. x ≤ gen_key env key) (take (length h.sorted_keys) h.sorted_keys)

module _ (env : Env) (nodes : List Name) (h : HashRing) (key : Name) (ring : IsRing nodes h) where
  at_pos :
      (pos : ℕ)
      → get_node_pos env h key ≡ some pos
      → pos < length h.sorted_keys
      → All (λ x. x ≤ gen_key env key) (take pos h.sorted_keys)
          × (gen_key env key < get_or h.sorted_keys pos 0)
        ⊎ (pos ≡ 0) × All (λ x. x ≤ gen_key env key) (take (length h.sorted_keys) h.sorted_keys)
      → (node : Name) × (get_node env h key ≡ some node) × IsNodeFor env nodes h key node
  unfolding get_node IsOwned
  at_pos pos found inside place =
      let (node, has, one) =
        All-get_or (IsOwned nodes h.ring) h.sorted_keys pos ring.owned inside in
      (
        node,
        rw (found, get_node, has) refl,
        record { pos = pos; at = inside; found = has; one = one; place = place },
      )

  search-IsFound :
      let n = length h.sorted_keys in
      let f : ℕ → Bool = λ i. ltb (gen_key env key) (get_or h.sorted_keys i 0) in
      IsFound f n (search n f 0 n)
  search-IsFound =
      let n = length h.sorted_keys in
      let k = gen_key env key in
      let f : ℕ → Bool = λ i. ltb k (get_or h.sorted_keys i 0) in
      search_lem n f n 0 n
        (λ a b le lt holds.
          let up = sorted_at h.sorted_keys a b ring.sorted le lt in
          lt→ltb k (get_or h.sorted_keys b 0)
            (omega (arith, ltb→lt k (get_or h.sorted_keys a 0) holds)))
        (omega arith) (omega arith) (omega arith) (λ x a. absurd (omega arith))
        (λ x a b. absurd (omega arith))

  pub found_at :
      0 < length h.sorted_keys
      → 0 < length h.ring
      → (node : Name) × (get_node env h key ≡ some node) × IsNodeFor env nodes h key node
  unfolding get_node_pos
  found_at some_keys some_entries =
      let n = length h.sorted_keys in
      let k = gen_key env key in
      let pos = search n (λ i. ltb k (get_or h.sorted_keys i 0)) 0 n in
      let f = search-IsFound in
      let entries : (length h.ring == 0) ≡ false = ground arith in
      let before : (p : ℕ) → p ≤ pos → All (λ x. x ≤ k) (take p h.sorted_keys) = λ p le.
        All-take (λ x. x ≤ k) p h.sorted_keys
          (λ i a b. ltb_false→le k (get_or h.sorted_keys i 0) (f.below i (omega arith))) in
      elim (Bool-cases (pos == n)) [
        | inl none_above ↦
            at_pos 0 (rw (entries, none_above) refl) some_keys
              (inr (refl, before n (let e = ==→≡ pos n none_above in omega arith)))
        | inr above ↦
            let inside : pos < n = ground (arith, f.inside) in
            at_pos pos (rw (entries, above) refl) inside (
              inl (
                before pos (omega arith),
                ltb→lt k (get_or h.sorted_keys pos 0) (f.above pos (omega arith) inside),
              ))
      ]

  pub none_without_keys : length h.ring ≡ 0 → get_node env h key ≡ none
  unfolding get_node get_node_pos
  none_without_keys empty = rw (no_pos, get_node) refl
    where
      no_pos : get_node_pos env h key ≡ none
      no_pos = rw empty refl

-- In the ring made for a list of nodes, a string has no node where the ring has no key, and
-- otherwise one of the nodes: the owner of the first key above the string's, the ring being closed
-- at its end.
pub get_node_found :
    (env : Env) (nodes : List Name) (ws : Weights) (key : Name)
    → let h = generate_circle env nodes ws in
      ((length h.sorted_keys ≡ 0) × (get_node env h key ≡ none))
      ⊎ ((node : Name) × (get_node env h key ≡ some node) × IsNodeFor env nodes h key node)
get_node_found env nodes ws key =
    let h = generate_circle env nodes ws in
    let ring = generate_circle-IsRing env nodes ws in
    elim ring.both [
      | inl (no_keys, empty) ↦ inl (no_keys, none_without_keys env nodes h key ring empty)
      | inr (keys, entries) ↦ inr (found_at env nodes h key ring keys entries)
    ]
