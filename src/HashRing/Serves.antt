-- ===== src/HashRing/Serves.antt =====
-- However a ring of base/util/hashring.go was changed, it serves its nodes.
use gogame.Common.{
  ◌++◌, ℕ, ◌≡◌, Bool, true, false, List, [], ◌∷◌, none, some, ◌⊎◌, inl, inr, ◌==◌, if◌then◌else◌,
  length, Option-cases, map,
}
use gogame.HashRing.{
  Env, Name, Weights, HashRing, generate_circle, get_node, new_hashring, weight_of, set_weight,
}
use gogame.HashRing.{add_weighted_node, remove_node, has_node, without, without_weight}
use gogame.HashRing.Owned.{IsRing, generate_circle-IsRing}
use gogame.HashRing.Lookup.{IsNodeFor, none_without_keys, found_at}
use gogame.HashRing.Update.{
  same_weights, Change, adds, updates, removes, reweighs, change, change_all,
}
use gogame.HashRing.Update.{update_with_weights, update_weighted_node, new_hashring_with_weights}

Kept : HashRing → Type 0
Kept h = IsRing h.nodes h

generated : (env : Env) (nodes : List Name) (ws : Weights) → Kept (generate_circle env nodes ws)
unfolding Kept generate_circle
generated env nodes ws = generate_circle-IsRing env nodes ws

if-Kept : (b : Bool) (a c : HashRing) → Kept a → Kept c → Kept (if b then a else c)
if-Kept true a c f g = f
if-Kept false a c f g = g

module _ (env : Env) (h : HashRing) (k : Kept h) where
  added-Kept : (node : Name) (w : ℕ) → Kept (add_weighted_node env node w h)
  unfolding add_weighted_node
  added-Kept node w = if-Kept (w == 0) _ _ k (
      if-Kept (has_node node h.nodes) _ _ k
        (generated env (h.nodes ++ (node ∷ [])) (set_weight node w h.weights)))

  updated-Kept : (node : Name) (w : ℕ) → Kept (update_weighted_node env node w h)
  unfolding update_weighted_node
  updated-Kept node w = if-Kept (w == 0) _ _ k (elim (Option-cases (weight_of node h.weights)) [
    | inl missing ↦ rw missing k
    | inr (old, has) ↦ rw has (
        if-Kept (old == w) h (generate_circle env h.nodes (set_weight node w h.weights)) k
          (generated env h.nodes (set_weight node w h.weights)))
  ])

  removed-Kept : (node : Name) → Kept (remove_node env node h)
  unfolding remove_node
  removed-Kept node =
      if-Kept (length (without node h.nodes) == length h.nodes) _ _ k
        (generated env (without node h.nodes) (without_weight node h.weights))

  reweighed-Kept : (ws : Weights) → Kept (update_with_weights env ws h)
  unfolding update_with_weights new_hashring_with_weights
  reweighed-Kept ws =
      let fresh = generated env (map (λ entry. entry.0) ws) ws in
      if-Kept (length ws == length h.weights) _ _ (if-Kept (same_weights h.weights ws) _ _ k fresh)
        fresh

change-Kept : (env : Env) (h : HashRing) (c : Change) → Kept h → Kept (change env h c)
unfolding change
change-Kept env h (adds node w) k = added-Kept env h k node w
change-Kept env h (updates node w) k = updated-Kept env h k node w
change-Kept env h (removes node) k = removed-Kept env h k node
change-Kept env h (reweighs ws) k = reweighed-Kept env h k ws

change_all-Kept :
    (env : Env) (h : HashRing) (cs : List Change) → Kept h → Kept (change_all env h cs)
unfolding change_all
change_all-Kept env h [] k = k
change_all-Kept env h (c ∷ cs) k = change_all-Kept env (change env h c) cs (change-Kept env h c k)

-- After any changes to a ring made for a list of nodes, a string has no node where the ring has no
-- key, and otherwise one of the ring's nodes: the owner of the first key above the string's, the
-- ring being closed at its end.
pub changed_ring_serves :
    (env : Env) (nodes : List Name) (cs : List Change) (key : Name)
    → let h = change_all env (new_hashring env nodes) cs in
      ((length h.sorted_keys ≡ 0) × (get_node env h key ≡ none))
      ⊎ ((node : Name) × (get_node env h key ≡ some node) × IsNodeFor env h.nodes h key node)
unfolding new_hashring Kept
changed_ring_serves env nodes cs key =
    let h = change_all env (new_hashring env nodes) cs in
    let ring = change_all-Kept env (new_hashring env nodes) cs (generated env nodes []) in
    elim ring.both [
      | inl (no_keys, empty) ↦ inl (no_keys, none_without_keys env h.nodes h key ring empty)
      | inr (keys, entries) ↦ inr (found_at env h.nodes h key ring keys entries)
    ]
