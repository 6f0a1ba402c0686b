-- ===== src/HashRing/Update.antt =====
-- Changing the nodes and weights of a ring, and asking for several nodes (`UpdateWithWeights`,
-- `UpdateWeightedNode` and `GetNodes` of base/util/hashring.go).
use gogame.Common.{
  ℕ, zero, suc, ◌+◌, ◌%◌, Bool, true, false, List, [], ◌∷◌, ◌++◌, Option, none, some, map,
}
use gogame.Common.{◌==◌, ltb, if◌then◌else◌, length, get_or}
use gogame.Common.Assoc
use gogame.HashRing.{Env, Name, Weights, HashRing, weight_of, set_weight, has_node, generate_circle}
use gogame.HashRing.{get_node_pos, or_empty, add_weighted_node, remove_node}

-- The nodes are the keys of the map, in the order of its iteration.
unfoldable pub new_hashring_with_weights : Env → Weights → HashRing
unfolding generate_circle
new_hashring_with_weights env ws = generate_circle env (map (λ entry. entry.0) ws) ws

abbrev pub is_weight : ℕ → Option ℕ → Bool
is_weight w none = false
is_weight w (some v) = v == w

-- Whether every new weight is an old one.
unfoldable pub same_weights : Weights → Weights → Bool
unfolding weight_of
same_weights old [] = true
same_weights old ((node, w) ∷ ws) =
    let rest = same_weights old ws in if is_weight w (weight_of node old) then rest else false

unfoldable pub update_with_weights : Env → Weights → HashRing → HashRing
unfolding same_weights new_hashring_with_weights
update_with_weights env ws h =
    let changed = new_hashring_with_weights env ws in
    if length ws == length h.weights
    then if same_weights h.weights ws then h else changed
    else changed

-- A node without a weight, or with this one already, is left as it is.
unfoldable pub update_weighted_node : Env → Name → ℕ → HashRing → HashRing
unfolding weight_of set_weight generate_circle
update_weighted_node env node weight h =
    if weight == 0 then h else elim (weight_of node h.weights) [
      | none ↦ h
      | some old ↦
          if old == weight
          then h
          else generate_circle env h.nodes (set_weight node weight h.weights)
    ]

-- The loop of `GetNodes` over the indexes from `i` on; `found` stands for the slice and for the map
-- of the nodes returned so far.
unfoldable pub collect : HashRing → ℕ → ℕ → ℕ → List Name → List Name
unfolding has_node Assoc.lookup
collect h size zero i found = found
collect h size (suc left) i found =
    let key = get_or h.sorted_keys (i % length h.sorted_keys) 0 in
    let node = or_empty (Assoc.lookup key h.ring) in
    let found' = if has_node node found then found else found ++ (node ∷ []) in
    let rest = collect h size left (i + 1) found' in if length found' == size then found' else rest

unfoldable pub get_nodes : Env → HashRing → Name → ℕ → List Name × Bool
unfolding collect get_node_pos
get_nodes env h key size = elim (get_node_pos env h key) [
  | none ↦ ([], false)
  | some pos ↦
      if ltb (length h.nodes) size
      then ([], false)
      else let nodes = collect h size (length h.sorted_keys) pos [] in (nodes, length nodes == size)
]

-- The operations that change a ring.
pub data Change : Type 0 where
  adds : Name → ℕ → Change
  updates : Name → ℕ → Change
  removes : Name → Change
  reweighs : Weights → Change

unfoldable pub change : Env → HashRing → Change → HashRing
unfolding add_weighted_node update_weighted_node remove_node update_with_weights
change env h (adds node w) = add_weighted_node env node w h
change env h (updates node w) = update_weighted_node env node w h
change env h (removes node) = remove_node env node h
change env h (reweighs ws) = update_with_weights env ws h

unfoldable pub change_all : Env → HashRing → List Change → HashRing
unfolding change
change_all env h [] = h
change_all env h (c ∷ cs) = change_all env (change env h c) cs
