-- ===== src/HashRing.antt =====
-- The consistent hash ring of base/util/hashring.go.
-- A string is its bytes. `md5.Sum` and the `%d` of `fmt.Sprintf` come from `Env`. The Go maps are
-- association lists. Weights are not negative; the factor of a node, computed with floats in the
-- source, is the quotient of natural numbers, with which it agrees below 2 ^ 53.
pub mod Sorted
pub mod Owned
pub mod Lookup
pub mod Removed
pub mod Update
pub mod Serves
pub mod Several
mod Tests
use gogame.Common.{
  ℕ, zero, suc, ◌+◌, ◌*◌, ◌/◌, Bool, true, false, ◌&&◌, List, [], ◌∷◌, ◌++◌, Option, none, some,
}
use gogame.Common.{◌==◌, ltb, if◌then◌else◌, length, take, drop, get_or, bit_or}
use gogame.Common.Assoc
use gogame.Packet.{shl}

abbrev pub Name : Type 0
Name = List ℕ

pub record Env : Type 0 where
  pub digest : Name → List ℕ
  pub decimal : ℕ → List ℕ

unfoldable pub same_name : Name → Name → Bool
same_name [] [] = true
same_name (a ∷ x) (b ∷ y) = let rest = same_name x y in if a == b then rest else false
same_name _ _ = false

abbrev pub Weights : Type 0
Weights = List (Name × ℕ)

pub record HashRing : Type 0 where
  pub ring : List (ℕ × Name)
  pub sorted_keys : List ℕ
  pub nodes : List Name
  pub weights : Weights

-- `h.weights[node]`
unfoldable pub weight_of : Name → Weights → Option ℕ
weight_of node [] = none
weight_of node ((n, w) ∷ ws) =
    let rest = weight_of node ws in if same_name n node then some w else rest

abbrev pub weight_or_1 : Option ℕ → ℕ
weight_or_1 none = 1
weight_or_1 (some w) = w

unfoldable pub total_weight : Weights → List Name → ℕ
unfolding weight_of
total_weight ws [] = 0
total_weight ws (node ∷ nodes) = weight_or_1 (weight_of node ws) + total_weight ws nodes

unfoldable pub hash_val : List ℕ → ℕ
hash_val b =
    bit_or
      (bit_or (bit_or (shl 32 (get_or b 3 0) 24) (shl 32 (get_or b 2 0) 16))
        (shl 32 (get_or b 1 0) 8))
      (get_or b 0 0)

unfoldable pub gen_key : Env → Name → ℕ
unfolding hash_val
gen_key env key = hash_val (take 4 (env.digest key))

-- The ring under construction, its keys not yet sorted.
pub record Circle : Type 0 where
  pub ring : List (ℕ × Name)
  pub keys : List ℕ

abbrev pub add_key : Name → ℕ → Circle → Circle
add_key node key c = record { ring = Assoc.insert key node c.ring; keys = c.keys ++ (key ∷ []) }

-- The keys of the `j`th virtual node, `"%s-%d"`: three parts of its digest.
abbrev pub point_key : Env → Name → ℕ → ℕ → ℕ
point_key env node j i =
    let b_key = env.digest (node ++ (45 ∷ env.decimal j)) in hash_val (take 4 (drop (i * 4) b_key))

unfoldable pub add_point : Env → Name → ℕ → Circle → Circle
unfolding hash_val Assoc.insert
add_point env node j c =
    let c = add_key node (point_key env node j 0) c in
    let c = add_key node (point_key env node j 1) c in add_key node (point_key env node j 2) c

-- `for j := 0; j < factor; j++`
unfoldable pub add_points : Env → Name → ℕ → Circle → Circle
unfolding add_point
add_points env node zero c = c
add_points env node (suc j) c = add_point env node j (add_points env node j c)

unfoldable pub add_nodes : Env → Weights → ℕ → ℕ → List Name → Circle → Circle
unfolding add_points weight_of
add_nodes env ws size total [] c = c
add_nodes env ws size total (node ∷ nodes) c =
    let factor = 40 * size * weight_or_1 (weight_of node ws) / total in
    add_nodes env ws size total nodes (add_points env node factor c)

-- `sort.Sort`
unfoldable pub insert_key : ℕ → List ℕ → List ℕ
insert_key key [] = key ∷ []
insert_key key (k ∷ keys) =
    let rest = insert_key key keys in if ltb k key then k ∷ rest else key ∷ k ∷ keys

unfoldable pub sort : List ℕ → List ℕ
unfolding insert_key
sort [] = []
sort (key ∷ keys) = insert_key key (sort keys)

unfoldable pub generate_circle : Env → List Name → Weights → HashRing
unfolding add_nodes total_weight sort
generate_circle env nodes ws =
    let c =
      add_nodes env ws (length nodes) (total_weight ws nodes) nodes
        (record { ring = []; keys = [] }) in
    record { ring = c.ring; sorted_keys = sort c.keys; nodes = nodes; weights = ws }

unfoldable pub new_hashring : Env → List Name → HashRing
unfolding generate_circle
new_hashring env nodes = generate_circle env nodes []

-- `sort.Search`: the binary search for the first index below `j` at which `f` holds, from `i` on.
unfoldable pub search : ℕ → (ℕ → Bool) → ℕ → ℕ → ℕ
search zero f i j = i
search (suc fuel) f i j =
    let h = (i + j) / 2 in
    let upper = search fuel f (h + 1) j in
    let lower = search fuel f i h in if ltb i j then (if f h then lower else upper) else i

unfoldable pub get_node_pos : Env → HashRing → Name → Option ℕ
unfolding search gen_key
get_node_pos env h key =
    let n = length h.sorted_keys in
    let k = gen_key env key in
    let pos = search n (λ i. ltb k (get_or h.sorted_keys i 0)) 0 n in
    if length h.ring == 0 then none else if pos == n then some 0 else some pos

-- A key without an entry gives the empty string.
abbrev pub or_empty : Option Name → Name
or_empty none = []
or_empty (some node) = node

unfoldable pub get_node : Env → HashRing → Name → Option Name
unfolding get_node_pos Assoc.lookup
get_node env h key = elim (get_node_pos env h key) [
  | none ↦ none
  | some pos ↦ some (or_empty (Assoc.lookup (get_or h.sorted_keys pos 0) h.ring))
]

-- `weights[node] = weight` on a copy.
unfoldable pub set_weight : Name → ℕ → Weights → Weights
set_weight node w [] = (node, w) ∷ []
set_weight node w ((n, v) ∷ ws) =
    let rest = set_weight node w ws in if same_name n node then (node, w) ∷ ws else (n, v) ∷ rest

unfoldable pub has_node : Name → List Name → Bool
has_node node [] = false
has_node node (n ∷ nodes) =
    let rest = has_node node nodes in if same_name n node then true else rest

unfoldable pub add_weighted_node : Env → Name → ℕ → HashRing → HashRing
unfolding has_node set_weight generate_circle
add_weighted_node env node weight h =
    if weight == 0
    then h
    else if has_node node h.nodes
    then h
    else generate_circle env (h.nodes ++ (node ∷ [])) (set_weight node weight h.weights)

unfoldable pub add_node : Env → Name → HashRing → HashRing
unfolding add_weighted_node
add_node env node h = add_weighted_node env node 1 h

-- The nodes other than `node`, and the weights of the others.
unfoldable pub without : Name → List Name → List Name
without node [] = []
without node (n ∷ nodes) =
    let rest = without node nodes in if same_name n node then rest else n ∷ rest

unfoldable pub without_weight : Name → Weights → Weights
without_weight node [] = []
without_weight node ((n, w) ∷ ws) =
    let rest = without_weight node ws in if same_name n node then rest else (n, w) ∷ rest

unfoldable pub remove_node : Env → Name → HashRing → HashRing
unfolding without without_weight generate_circle
remove_node env node h =
    let nodes = without node h.nodes in
    if length nodes == length h.nodes
    then h
    else generate_circle env nodes (without_weight node h.weights)
