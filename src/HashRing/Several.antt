-- ===== src/HashRing/Several.antt =====
-- `GetNodes` of base/util/hashring.go gives different nodes.
use gogame.Common.{
  ℕ, zero, suc, ◌+◌, ◌%◌, ◌≡◌, refl, arith, Bool, true, false, List, [], ◌∷◌, ◌++◌, ◌⊎◌, inl, inr,
  ◌==◌, ==→≡, ltb, if◌then◌else◌, length, get_or, Bool-cases, Option-cases, ◌∙◌,
}
use gogame.Common.Assoc
use gogame.HashRing.{Env, Name, HashRing, same_name, has_node, or_empty, get_node_pos}
use gogame.HashRing.Update.{collect, get_nodes}

-- No name stands twice.
pub IsDistinct : List Name → Type 0
IsDistinct [] = Unit {0}
IsDistinct (n ∷ nodes) = (has_node n nodes ≡ false) × IsDistinct nodes

same_name-sym : (a b : Name) → same_name a b ≡ same_name b a
unfolding same_name
same_name-sym [] [] = refl
same_name-sym [] (y ∷ b) = refl
same_name-sym (x ∷ a) [] = refl
same_name-sym (x ∷ a) (y ∷ b) = ground (arith, same_name-sym a b)

has_node-append :
    (x v : Name) (nodes : List Name)
    → has_node x nodes ≡ false
    → same_name v x ≡ false
    → has_node x (nodes ++ (v ∷ [])) ≡ false
unfolding has_node
has_node-append x v [] e f = rw f refl
has_node-append x v (n ∷ nodes) e f = elim (Bool-cases (same_name n x)) [
  | inl same ↦ absurd (let g = rw same at e in cc)
  | inr other ↦ rw other (has_node-append x v nodes (rw other at e) f)
]

append-IsDistinct :
    (v : Name) (nodes : List Name)
    → has_node v nodes ≡ false
    → IsDistinct nodes
    → IsDistinct (nodes ++ (v ∷ []))
unfolding IsDistinct has_node
append-IsDistinct v [] e d = (refl, tt)
append-IsDistinct v (n ∷ nodes) e (new, d) = elim (Bool-cases (same_name n v)) [
  | inl same ↦ absurd (let g = rw same at e in cc)
  | inr other ↦ (
    has_node-append n v nodes new (same_name-sym v n ∙ other),
    append-IsDistinct v nodes (rw other at e) d,
  )
]

if-IsDistinct :
    (b : Bool) (x y : List Name) → IsDistinct x → IsDistinct y → IsDistinct (if b then x else y)
if-IsDistinct true x y f g = f
if-IsDistinct false x y f g = g

collect-IsDistinct :
    (h : HashRing) (size n i : ℕ) (found : List Name)
    → IsDistinct found
    → IsDistinct (collect h size n i found)
unfolding collect
collect-IsDistinct h size zero i found d = d
collect-IsDistinct h size (suc n) i found d =
    let key = get_or h.sorted_keys (i % length h.sorted_keys) 0 in
    let node = or_empty (Assoc.lookup key h.ring) in
    elim (Bool-cases (has_node node found)) [
      | inl known ↦ rw known (if-IsDistinct _ _ _ d (collect-IsDistinct h size n (i + 1) found d))
      | inr new ↦
          let d' = append-IsDistinct node found new d in
          rw new
            (if-IsDistinct _ _ _ d' (collect-IsDistinct h size n (i + 1) (found ++ (node ∷ [])) d'))
    ]

-- `GetNodes` gives nodes of which no two are the same, and as many as asked for exactly where it
-- reports that it does.
pub get_nodes-IsDistinct :
    (env : Env) (h : HashRing) (key : Name) (size : ℕ)
    → IsDistinct (get_nodes env h key size).0
      × (((get_nodes env h key size).1 ≡ false) ⊎ (length (get_nodes env h key size).0 ≡ size))
unfolding get_nodes IsDistinct
get_nodes-IsDistinct env h key size = elim (Option-cases (get_node_pos env h key)) [
  | inl nothing ↦ rw (nothing, get_nodes, IsDistinct) (tt, inl refl)
  | inr (pos, at) ↦ elim (Bool-cases (ltb (length h.nodes) size)) [
    | inl too_many ↦ rw (at, get_nodes, too_many, IsDistinct) (tt, inl refl)
    | inr enough ↦
        let nodes = collect h size (length h.sorted_keys) pos [] in
        rw (at, get_nodes, enough)
          (
            collect-IsDistinct h size (length h.sorted_keys) pos [] tt,
            elim (Bool-cases (length nodes == size)) [
              | inl all ↦ inr (==→≡ (length nodes) size all)
              | inr fewer ↦ inl fewer
            ],
          )
  ]
]
