-- ===== src/HashRing/Tests.antt =====
-- A small ring: a digest that repeats the sum of the bytes.
use gogame.Common.{ℕ, ◌+◌, ◌*◌, ◌%◌, ◌≡◌, ◌⊎◌, List, [], ◌∷◌, none, some, length, replicate}
use gogame.HashRing.{new_hashring}
use gogame.HashRing.Update.{Change, adds, updates, removes, reweighs, change_all}
use gogame.HashRing.Serves.{changed_ring_serves}
use gogame.HashRing.{Env, Name, get_node}
use gogame.HashRing.Lookup.{IsNodeFor}

sum : List ℕ → ℕ
sum [] = 0
sum (b ∷ bs) = b + sum bs

abbrev env : Env
env = record { digest = λ s. replicate 16 (7 * sum s % 256); decimal = λ n. n ∷ [] }

abbrev nodes : List Name
nodes = (97 ∷ []) ∷ (98 ∷ []) ∷ []

abbrev changes : List Change
changes =
    adds (99 ∷ []) 2 ∷ updates (99 ∷ []) 1 ∷ removes (97 ∷ []) ∷ reweighs ((98 ∷ [], 1) ∷ []) ∷ []

changed_ring_serves_example :
    let h = change_all env (new_hashring env nodes) changes in
    ((length h.sorted_keys ≡ 0) × (get_node env h (120 ∷ []) ≡ none))
    ⊎ ((node : Name) × (get_node env h (120 ∷ []) ≡ some node)
        × IsNodeFor env h.nodes h (120 ∷ []) node)
changed_ring_serves_example = changed_ring_serves env nodes changes (120 ∷ [])
