-- ===== src/HashRing/Sorted.antt =====
-- The keys of the ring of base/util/hashring.go are sorted, and the binary search finds the first
-- key above another.
use gogame.Common.{
  All-map, ℕ, zero, suc, ◌+◌, ◌/◌, ◌≤◌, ◌<◌, ◌≡◌, arith, Bool, true, false, List, [], ◌∷◌, inl, inr,
}
use gogame.Common.{ltb, length, get_or, All, Bool-cases, ltb→lt, ltb_false→le}
use gogame.HashRing.{insert_key, sort, search}

pub IsSorted : List ℕ → Type 0
IsSorted [] = Unit {0}
IsSorted (k ∷ keys) = All (λ x. k ≤ x) keys × IsSorted keys

All-insert_key :
    (P : ℕ → Type 0) (key : ℕ) (keys : List ℕ) → P key → All P keys → All P (insert_key key keys)
unfolding insert_key
All-insert_key P key [] p ps = (p, tt)
All-insert_key P key (k ∷ keys) p (q, qs) = elim (Bool-cases (ltb k key)) [
  | inl above ↦ rw above (q, All-insert_key P key keys p qs)
  | inr below ↦ rw below (p, (q, qs))
]

pub All-sort : (P : ℕ → Type 0) (keys : List ℕ) → All P keys → All P (sort keys)
unfolding sort
All-sort P [] ps = tt
All-sort P (k ∷ keys) (p, ps) = All-insert_key P k (sort keys) p (All-sort P keys ps)

insert_key-IsSorted : (key : ℕ) (keys : List ℕ) → IsSorted keys → IsSorted (insert_key key keys)
unfolding insert_key IsSorted
insert_key-IsSorted key [] s = (tt, tt)
insert_key-IsSorted key (k ∷ keys) (least, s) = elim (Bool-cases (ltb k key)) [
  | inl above ↦ rw above (
    All-insert_key (λ x. k ≤ x) key keys (let lt = ltb→lt k key above in omega arith) least,
    insert_key-IsSorted key keys s,
  )
  | inr below ↦
      let le = ltb_false→le k key below in
      rw below
        ((le, All-map (λ x. k ≤ x) (λ x. key ≤ x) (λ x h. omega arith) keys least), (least, s))
]

pub sort-IsSorted : (keys : List ℕ) → IsSorted (sort keys)
unfolding sort IsSorted
sort-IsSorted [] = tt
sort-IsSorted (k ∷ keys) = insert_key-IsSorted k (sort keys) (sort-IsSorted keys)

pub All-get_or :
    (P : ℕ → Type 0) (keys : List ℕ) (i : ℕ) → All P keys → i < length keys → P (get_or keys i 0)
All-get_or P [] i ps h = absurd (omega arith)
All-get_or P (k ∷ keys) zero (p, ps) h = p
All-get_or P (k ∷ keys) (suc i) (p, ps) h = All-get_or P keys i ps (omega arith)

pub sorted_at :
    (keys : List ℕ) (i j : ℕ)
    → IsSorted keys
    → i ≤ j
    → j < length keys
    → get_or keys i 0 ≤ get_or keys j 0
unfolding IsSorted
sorted_at [] i j s le h = absurd (omega arith)
sorted_at (k ∷ keys) zero zero s le h = omega arith
sorted_at (k ∷ keys) zero (suc j) (least, s) le h =
    All-get_or (λ x. k ≤ x) keys j least (omega arith)
sorted_at (k ∷ keys) (suc i) zero s le h = absurd (omega arith)
sorted_at (k ∷ keys) (suc i) (suc j) (least, s) le h =
    sorted_at keys i j s (omega arith) (omega arith)

-- What the search keeps: `f` fails below the lower end and holds from the upper one.
pub record IsFound (f : ℕ → Bool) (n p : ℕ) : Type 0 where
  pub inside : p ≤ n
  pub below : (i : ℕ) → i < p → f i ≡ false
  pub above : (i : ℕ) → p ≤ i → i < n → f i ≡ true

pub search_lem :
    (fuel : ℕ) (f : ℕ → Bool) (n i j : ℕ)
    → ((a b : ℕ) → a ≤ b → b < n → f a ≡ true → f b ≡ true)
    → i ≤ j
    → j ≤ n
    → j ≤ i + fuel
    → ((x : ℕ) → x < i → f x ≡ false)
    → ((x : ℕ) → j ≤ x → x < n → f x ≡ true)
    → IsFound f n (search fuel f i j)
unfolding search
search_lem zero f n i j mono le top enough low high = record {
  inside = omega arith;
  below = low;
  above = λ x ge lt. high x (omega arith) lt;
}
search_lem (suc fuel) f n i j mono le top enough low high =
    let h = (i + j) / 2 in
    elim (Bool-cases (ltb i j)) [
      | inr met ↦
          let ge = ltb_false→le i j met in
          rw met
            (record { inside = omega arith; below = low; above = λ x a b. high x (omega arith) b })
      | inl apart ↦
          let lt = ltb→lt i j apart in
          elim (Bool-cases (f h)) [
            | inl holds ↦
                rw (apart, holds)
                  (search_lem fuel f n i h mono (omega arith) (omega arith) (omega arith) low
                    (λ x a b. mono h x a b holds))
            | inr fails ↦
                rw (apart, fails)
                  (search_lem fuel f n (h + 1) j mono (omega arith) top (omega arith)
                    (λ x a. elim (Bool-cases (f x)) [
                      | inl early ↦
                          absurd (let e = mono x h (omega arith) (omega arith) early in cc)
                      | inr not_yet ↦ not_yet
                    ])
                    high)
          ]
    ]
