-- ===== src/Processor/Inverse.antt =====
-- The two maps of a processor (protocol/protobuf.go) are inverse to each other.
use gogame.Common.{ℕ, ◌≡◌, refl, ap, arith, true, List, [], ◌∷◌, none, some}
use gogame.Common.{◌==◌, ==→≡, inl, inr, Bool-cases, Option-cases}
use gogame.Common.Assoc
use gogame.Processor.{
  Processor, Proto, register_type, register_all, new_processor, unmarshal, marshal,
}
use gogame.Processor.{bytes, merged, panics}

record IsInverse (p : Processor) : Type 0 where
  back : (id t : ℕ) → Assoc.lookup id p.msg_type ≡ some t → Assoc.lookup t p.msg_id ≡ some id
  forth : (id t : ℕ) → Assoc.lookup t p.msg_id ≡ some id → Assoc.lookup id p.msg_type ≡ some t

-- One direction, for two maps that both get a new entry.
insert_inverse :
    (a b : List (ℕ × ℕ)) (x y : ℕ)
    → ((i j : ℕ) → Assoc.lookup i a ≡ some j → Assoc.lookup j b ≡ some i)
    → Assoc.lookup y b ≡ none
    → (i j : ℕ) → Assoc.lookup i (Assoc.insert x y a) ≡ some j
    → Assoc.lookup j (Assoc.insert y x b) ≡ some i
insert_inverse a b x y back free i j found = elim (Bool-cases (x == i)) [
  | inl this ↦
      let e = rw (Assoc.lookup-insert i x y a, this) at found in
      let j_is_y : j ≡ y = cc in
      let own : (y == y) ≡ true = ground arith in
      rw (j_is_y, Assoc.lookup-insert y y x b, own) (ap some (==→≡ x i this))
  | inr other ↦
      let old = back i j (rw (Assoc.lookup-insert i x y a, other) at found) in
      elim (Bool-cases (y == j)) [
        | inl taken ↦ absurd (let e : y ≡ j = ==→≡ y j taken in let f = rw e at free in cc)
        | inr apart ↦ rw (Assoc.lookup-insert j y x b, apart) old
      ]
]

register_type-IsInverse :
    (id t : ℕ) (p : Processor) → IsInverse p → IsInverse (register_type id t p).0
unfolding register_type
register_type-IsInverse id t p h = elim (Option-cases (Assoc.lookup id p.msg_type)) [
  | inr (u, used) ↦ rw (used, register_type) h
  | inl free_id ↦ elim (Option-cases (Assoc.lookup t p.msg_id)) [
    | inr (u, used) ↦ rw (free_id, used, register_type) h
    | inl free_type ↦
        rw (free_id, free_type, register_type)
          (record {
            back = insert_inverse p.msg_type p.msg_id id t h.back free_type;
            forth = λ i j. insert_inverse p.msg_id p.msg_type t id (λ a b. h.forth b a) free_id j i;
          })
  ]
]

register_all-IsInverse :
    (types : List (ℕ × ℕ)) (p : Processor) → IsInverse p → IsInverse (register_all types p)
unfolding register_all
register_all-IsInverse [] p h = h
register_all-IsInverse ((id, t) ∷ types) p h =
    register_all-IsInverse types (register_type id t p).0 (register_type-IsInverse id t p h)

new_processor-IsInverse : IsInverse new_processor
unfolding new_processor Assoc.lookup
new_processor-IsInverse = record { back = λ i j e. absurd cc; forth = λ i j e. absurd cc }

-- With any registrations, what `Marshal` wrote is unmarshalled as its message's type, but only
-- behind two more bytes, whichever they are: they are skipped, and a buffer shorter than two bytes
-- panics.
pub unmarshal-marshal :
    {M : Type 0} (proto : Proto M) (types : List (ℕ × ℕ)) (msg : M) (b : List ℕ) (id x y : ℕ)
    → marshal proto msg (register_all types new_processor) ≡ bytes b id
    → (unmarshal proto id (x ∷ y ∷ b) (register_all types new_processor)
        ≡ merged (proto.merge (proto.type_of msg) b))
      × (unmarshal proto id (x ∷ []) (register_all types new_processor) ≡ panics)
      × (unmarshal proto id [] (register_all types new_processor) ≡ panics)
unfolding marshal unmarshal
unmarshal-marshal proto types msg b id x y e =
    let p = register_all types new_processor in
    let h = register_all-IsInverse types new_processor new_processor-IsInverse in
    elim (Option-cases (Assoc.lookup (proto.type_of msg) p.msg_id)) [
      | inl missing ↦ absurd (let f = rw (missing, marshal) at e in cc)
      | inr (i, has) ↦ elim (Option-cases (proto.marshal msg)) [
        | inl bad ↦ absurd (let f = rw (has, marshal, bad) at e in cc)
        | inr (d, done) ↦
            let f = rw (has, marshal, done) at e in
            let i_is_id : i ≡ id = cc in
            let known = rw i_is_id at (h.forth i (proto.type_of msg) has) in
            (rw (known, unmarshal) refl, rw (known, unmarshal) refl, rw (known, unmarshal) refl)
      ]
    ]
