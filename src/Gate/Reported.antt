-- ===== src/Gate/Reported.antt =====
-- The maps of gamegate/router.go under the loops that drop a router's servers and put its new ones.
use gogame.Common.{
  ℕ, ◌%◌, ◌^◌, ◌≡◌, refl, sym, ap, ◌∙◌, inl, inr, Bool, true, false, List, [], ◌∷◌, Option, none,
  some, ◌==◌, if◌then◌else◌, arith, Bool-cases, map, ==→≡,
}
use gogame.Common.Assoc
use gogame.Gate.Routers.{without_router, insert_all, is_in_slice, keys}

abbrev pub unless_of : ℕ → Option ℕ → Option ℕ
unless_of router none = none
unless_of router (some r) = if r == router then none else some r

-- Ids are words of 16 bits.
abbrev pub words : List ℕ → List ℕ
words ids = map (λ id. id % 2 ^ 16) ids

abbrev pub reported : List ℕ → ℕ → (ℕ → Option ℕ) → ℕ → Option ℕ
reported ids router f id =
    if is_in_slice (words ids) id then some router else unless_of router (f id)

-- No key is there twice.
unfoldable pub IsMap : List (ℕ × ℕ) → Type 0
IsMap [] = Unit
IsMap ((key, r) ∷ m) = (Assoc.lookup key m ≡ none) × IsMap m

pub lookup-without_router :
    (router id : ℕ) (m : List (ℕ × ℕ))
    → IsMap m
    → Assoc.lookup id (without_router router m) ≡ unless_of router (Assoc.lookup id m)
unfolding Assoc.lookup without_router IsMap
lookup-without_router router id [] h = refl
lookup-without_router router id ((key, r) ∷ m) (new, h) =
    let ih = lookup-without_router router id m h in
    elim (Bool-cases (r == router)) [
      | inr other ↦ rw other (elim (Bool-cases (key == id)) [
        | inl here ↦ rw (here, other) refl
        | inr later ↦ rw later ih
      ])
      | inl gone ↦ rw gone (elim (Bool-cases (key == id)) [
        | inl here ↦
            rw (here, gone)
              (ih
                ∙ ap (λ k. unless_of router (Assoc.lookup k m)) (sym (==→≡ key id here))
                ∙ ap (unless_of router) new)
        | inr later ↦ rw later ih
      ])
    ]

pub lookup-insert_all :
    (ids : List ℕ) (router id : ℕ) (m : List (ℕ × ℕ))
    → Assoc.lookup id (insert_all ids router m)
      ≡ (if is_in_slice (words ids) id then some router else Assoc.lookup id m)
unfolding insert_all is_in_slice
lookup-insert_all [] router id m = refl
lookup-insert_all (x ∷ ids) router id m =
    lookup-insert_all ids router id (Assoc.insert (x % 2 ^ 16) router m)
    ∙ ap (λ o. if is_in_slice (words ids) id then some router else o)
        (Assoc.lookup-insert id (x % 2 ^ 16) router m)
    ∙ or_else (is_in_slice (words ids) id) (x % 2 ^ 16 == id) (some router) (Assoc.lookup id m)
  where
    or_else :
        (later here : Bool) (x y : Option ℕ)
        → (if later then x else (if here then x else y))
          ≡ (if (if here then true else later) then x else y)
    or_else true true x y = refl
    or_else true false x y = refl
    or_else false true x y = refl
    or_else false false x y = refl

==-comm : (a b : ℕ) → (a == b) ≡ (b == a)
==-comm a b = ground arith

pub insert-IsMap : (key r : ℕ) (m : List (ℕ × ℕ)) → IsMap m → IsMap (Assoc.insert key r m)
unfolding Assoc.insert IsMap Assoc.lookup
insert-IsMap key r [] h = (refl, tt)
insert-IsMap key r ((k, s) ∷ m) (new, h) = elim (Bool-cases (k == key)) [
  | inl same ↦ rw same (ap (λ x. Assoc.lookup x m) (sym (==→≡ k key same)) ∙ new, h)
  | inr differs ↦
      rw differs
        (Assoc.lookup-insert k key r m ∙ rw (==-comm key k ∙ differs) new, insert-IsMap key r m h)
]

pub without_router-IsMap :
    (router : ℕ) (m : List (ℕ × ℕ)) → IsMap m → IsMap (without_router router m)
unfolding without_router IsMap
without_router-IsMap router [] h = tt
without_router-IsMap router ((k, s) ∷ m) (new, h) = elim (Bool-cases (s == router)) [
  | inl gone ↦ rw gone (without_router-IsMap router m h)
  | inr stays ↦ rw stays (
    lookup-without_router router k m h ∙ ap (unless_of router) new,
    without_router-IsMap router m h,
  )
]

pub insert_all-IsMap :
    (ids : List ℕ) (router : ℕ) (m : List (ℕ × ℕ)) → IsMap m → IsMap (insert_all ids router m)
unfolding insert_all
insert_all-IsMap [] router m h = h
insert_all-IsMap (x ∷ ids) router m h =
    insert_all-IsMap ids router (Assoc.insert (x % 2 ^ 16) router m)
      (insert-IsMap (x % 2 ^ 16) router m h)

abbrev pub is_some : Option ℕ → Bool
is_some none = false
is_some (some r) = true

pub is_in_slice-keys :
    (id : ℕ) (m : List (ℕ × ℕ)) → is_in_slice (keys m) id ≡ is_some (Assoc.lookup id m)
unfolding is_in_slice Assoc.lookup
is_in_slice-keys id [] = refl
is_in_slice-keys id ((key, r) ∷ m) =
    let ih = is_in_slice-keys id m in
    elim (Bool-cases (key == id)) [ inl here ↦ rw here refl | inr later ↦ rw later ih ]

pub reported-lookup :
    (ids : List ℕ) (router : ℕ) (m : List (ℕ × ℕ)) (f : ℕ → Option ℕ)
    → IsMap m
    → ((id : ℕ) → Assoc.lookup id m ≡ f id)
    → (id : ℕ)
    → Assoc.lookup id (insert_all ids router (without_router router m)) ≡ reported ids router f id
reported-lookup ids router m f h is id =
    lookup-insert_all ids router id (without_router router m)
    ∙ ap (λ o. if is_in_slice (words ids) id then some router else o)
        (lookup-without_router router id m h ∙ ap (unless_of router) (is id))

pub lost-lookup :
    (router : ℕ) (m : List (ℕ × ℕ)) (f : ℕ → Option ℕ)
    → IsMap m
    → ((id : ℕ) → Assoc.lookup id m ≡ f id)
    → (id : ℕ) → Assoc.lookup id (without_router router m) ≡ unless_of router (f id)
lost-lookup router m f h is id = lookup-without_router router id m h ∙ ap (unless_of router) (is id)
