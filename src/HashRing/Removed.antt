-- ===== src/HashRing/Removed.antt =====
-- `RemoveNode` of base/util/hashring.go.
use gogame.Common.{ℕ, zero, suc, ◌≤◌, ◌<◌, ◌≡◌, refl, arith, true, false, List, [], ◌∷◌, inl, inr}
use gogame.Common.{◌==◌, ==→≡, length, get_or, All, Bool-cases, some}
use gogame.HashRing.{
  Env, Name, Weights, same_name, without, without_weight, generate_circle, get_node, remove_node,
}
use gogame.HashRing.Lookup.{get_node_found}

-- The name is not that of `node`.
abbrev pub IsOther : Name → Name → Type 0
IsOther node n = same_name n node ≡ false

without-IsOther : (node : Name) (nodes : List Name) → All (IsOther node) (without node nodes)
unfolding without
without-IsOther node [] = tt
without-IsOther node (n ∷ nodes) = elim (Bool-cases (same_name n node)) [
  | inl same ↦ rw same (without-IsOther node nodes)
  | inr other ↦ rw other (other, without-IsOther node nodes)
]

length-without : (node : Name) (nodes : List Name) → length (without node nodes) ≤ length nodes
unfolding without
length-without node [] = omega arith
length-without node (n ∷ nodes) = ground (arith, length-without node nodes)

kept-IsOther :
    (node : Name) (nodes : List Name)
    → length (without node nodes) ≡ length nodes
    → All (IsOther node) nodes
unfolding without
kept-IsOther node [] e = tt
kept-IsOther node (n ∷ nodes) e = elim (Bool-cases (same_name n node)) [
  | inl same ↦ absurd (let f = rw same at e in omega (arith, length-without node nodes))
  | inr other ↦ (other, let f = rw other at e in kept-IsOther node nodes (omega arith))
]

All-name :
    (P : Name → Type 0) (nodes : List Name) (i : ℕ)
    → All P nodes
    → i < length nodes
    → P (get_or nodes i [])
All-name P [] i ps h = absurd (omega arith)
All-name P (n ∷ nodes) zero (p, ps) h = p
All-name P (n ∷ nodes) (suc i) (p, ps) h = All-name P nodes i ps (omega arith)

get_node-IsOther :
    (env : Env) (node : Name) (nodes : List Name) (ws : Weights) (key n : Name)
    → All (IsOther node) nodes
    → get_node env (generate_circle env nodes ws) key ≡ some n
    → IsOther node n
get_node-IsOther env node nodes ws key n others got = elim (get_node_found env nodes ws key) [
  | inl (empty, nothing) ↦ absurd cc
  | inr (m, found, at) ↦
      let this : m ≡ n = cc in
      let (i, lt, e) = at.one in rw (e, this) at (All-name (IsOther node) nodes i others lt)
]

remove_node-unchanged :
    (env : Env) (nodes : List Name) (ws : Weights) (node : Name)
    → (length (without node nodes) == length nodes) ≡ true
    → remove_node env node (generate_circle env nodes ws) ≡ generate_circle env nodes ws
unfolding remove_node generate_circle
remove_node-unchanged env nodes ws node same = rw same refl

remove_node-regenerated :
    (env : Env) (nodes : List Name) (ws : Weights) (node : Name)
    → (length (without node nodes) == length nodes) ≡ false
    → remove_node env node (generate_circle env nodes ws)
      ≡ generate_circle env (without node nodes) (without_weight node ws)
unfolding remove_node generate_circle
remove_node-regenerated env nodes ws node fewer = rw fewer refl

-- After a node has been removed from the ring that was made for a list of nodes, no string is given
-- this node, wherever it stood in the list and whether or not it did.
pub removed_unused :
    (env : Env) (nodes : List Name) (ws : Weights) (node key n : Name)
    → get_node env (remove_node env node (generate_circle env nodes ws)) key ≡ some n
    → same_name n node ≡ false
removed_unused env nodes ws node key n got =
    elim (Bool-cases (length (without node nodes) == length nodes)) [
      | inl same ↦
          get_node-IsOther env node nodes ws key n (kept-IsOther node nodes (==→≡ _ _ same))
            (rw (remove_node-unchanged env nodes ws node same) at got)
      | inr fewer ↦
          get_node-IsOther env node (without node nodes) (without_weight node ws) key n
            (without-IsOther node nodes)
            (rw (remove_node-regenerated env nodes ws node fewer) at got)
    ]
