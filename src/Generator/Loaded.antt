-- ===== src/Generator/Loaded.antt =====
-- What holds after `loadRegisterFile`, however its loop is left.
use gogame.Common.{
  ℕ, ◌<◌, ◌≤◌, ◌≡◌, ◌≢◌, refl, sym, ap, inl, inr, List, [], ◌∷◌, ◌++◌, ◌==◌, none, some, Bool-cases,
  Option-cases, ne→==, arith, All, All-append, All-map,
}
use gogame.Common.Assoc
use gogame.Text.{Text, trim_space, cut_comment}
use gogame.Generator.{
  Item, new_globals, Loading, Outcome, register_item, add_item, load_parts, load_content, load_line,
  load_lines, load_register_file, larger,
}

-- Of the state at the end, if the program goes on.
abbrev pub AtEnd : (Loading → Type 0) → Outcome → Type 0
AtEnd P (Outcome.goes_on l) = P l
AtEnd P (Outcome.broken l) = P l
AtEnd P Outcome.exits = Unit {0}

-- The ids of items differ from one another.
abbrev pub IsFreshId : ℕ → List Item → Type 0
IsFreshId id items = All (λ it. it.id ≢ id) items

abbrev pub IsDistinct : List Item → Type 0
IsDistinct [] = Unit {0}
IsDistinct (it ∷ items) = IsFreshId it.id items × IsDistinct items

pub IsDistinct-append :
    (items : List Item) (it : Item)
    → IsDistinct items
    → IsFreshId it.id items
    → IsDistinct (items ++ it ∷ [])
IsDistinct-append [] it d f = (tt, tt)
IsDistinct-append (x ∷ items) it d f = (
  All-append (λ y. y.id ≢ x.id) items (it ∷ []) d.0 ((λ e. f.0 (sym e)), tt),
  IsDistinct-append items it d.1 f.1,
)

abbrev IsUsed : List (ℕ × Text) → Item → Type 0
IsUsed ids it = (name : Text) × (Assoc.lookup it.id ids ≡ some name)

-- The ids in use are those of the items, distinct, and at most the maximum.
pub record IsLoaded (l : Loading) : Type 0 where
  pub distinct : IsDistinct l.globals.all_items
  pub used : All (IsUsed l.id_map) l.globals.all_items
  pub bounded : All (λ it. it.id ≤ l.globals.max_msg_id) l.globals.all_items
  pub unused : (k : ℕ) → l.globals.max_msg_id < k → Assoc.lookup k l.id_map ≡ none
  pub nothing_new : l.globals.append_items ≡ []

larger-le : (id most k : ℕ) → larger id most < k → (id < k) × (most < k)
larger-le id most k h = ground arith

le-larger : (id most : ℕ) → (id ≤ larger id most) × (most ≤ larger id most)
le-larger id most = ground arith

module _ (it : Item) (l : Loading) (v : IsLoaded l)
    (free : Assoc.lookup it.id l.id_map ≡ none) where
  fresh_id : IsFreshId it.id l.globals.all_items
  fresh_id =
      All-map (IsUsed l.id_map) (λ x. x.id ≢ it.id)
        (λ x u e. cc (ap (λ k. Assoc.lookup k l.id_map) e, u.1)) l.globals.all_items v.used

  IsUsed-insert : (x : Item) → IsUsed l.id_map x → IsUsed (Assoc.insert it.id it.msg l.id_map) x
  IsUsed-insert x u = elim (Bool-cases (it.id == x.id)) [
    | inl same ↦ (it.msg, rw (Assoc.lookup-insert x.id it.id it.msg l.id_map, same) refl)
    | inr other ↦ (u.0, rw (Assoc.lookup-insert x.id it.id it.msg l.id_map, other) u.1)
  ]

  IsUsed-self : IsUsed (Assoc.insert it.id it.msg l.id_map) it
  IsUsed-self = (it.msg, ground (arith, Assoc.lookup-insert it.id it.id it.msg l.id_map))

  registered-IsLoaded :
      IsLoaded
        (record { id_map = Assoc.insert it.id it.msg l.id_map; globals = add_item it l.globals })
  registered-IsLoaded = record {
    distinct = IsDistinct-append l.globals.all_items it v.distinct fresh_id;
    used =
        All-append (IsUsed (Assoc.insert it.id it.msg l.id_map)) l.globals.all_items (it ∷ [])
          (All-map (IsUsed l.id_map) (IsUsed (Assoc.insert it.id it.msg l.id_map)) IsUsed-insert
            l.globals.all_items v.used)
          (IsUsed-self, tt);
    bounded =
        All-append (λ x. x.id ≤ larger it.id l.globals.max_msg_id) l.globals.all_items (it ∷ [])
          (All-map (λ x. x.id ≤ l.globals.max_msg_id)
            (λ x. x.id ≤ larger it.id l.globals.max_msg_id)
            (λ x h. omega (arith, (le-larger it.id l.globals.max_msg_id).1)) l.globals.all_items
            v.bounded)
          ((le-larger it.id l.globals.max_msg_id).0, tt);
    unused = λ k h.
        let (above, beyond) = larger-le it.id l.globals.max_msg_id k h in
        rw (Assoc.lookup-insert k it.id it.msg l.id_map, ne→== it.id k (omega arith))
          (v.unused k beyond);
    nothing_new = v.nothing_new;
  }

-- A line adds an item, or nothing.
register_item-IsLoaded :
    (it : Item) (l : Loading) → IsLoaded l → AtEnd IsLoaded (register_item it l)
unfolding register_item
register_item-IsLoaded it l v = elim (Option-cases (Assoc.lookup it.id l.id_map)) [
  | inl free ↦ rw free (registered-IsLoaded it l v free)
  | inr (name, taken) ↦ rw taken tt
]

load_parts-IsLoaded :
    (parts : List Text) (comma : Text) (l : Loading)
    → IsLoaded l
    → AtEnd IsLoaded (load_parts parts comma l)
unfolding load_parts
load_parts-IsLoaded [] comma l v = v
load_parts-IsLoaded (name ∷ []) comma l v = v
load_parts-IsLoaded (name ∷ id ∷ []) comma l v = register_item-IsLoaded _ l v
load_parts-IsLoaded (name ∷ id ∷ more ∷ parts) comma l v = v

load_content-IsLoaded :
    (content comma : Text) (l : Loading)
    → IsLoaded l
    → AtEnd IsLoaded (load_content content comma l)
load_content-IsLoaded [] comma l v = v
load_content-IsLoaded (b ∷ content) comma l v = load_parts-IsLoaded _ comma l v

load_line-IsLoaded : (line : Text) (l : Loading) → IsLoaded l → AtEnd IsLoaded (load_line line l)
unfolding load_line
load_line-IsLoaded line l v =
    load_content-IsLoaded (trim_space (cut_comment line).0) (cut_comment line).1 l v

pub load_lines-IsLoaded :
    (lines : List Text) (o : Outcome) → AtEnd IsLoaded o → AtEnd IsLoaded (load_lines lines o)
unfolding load_lines
load_lines-IsLoaded [] (Outcome.goes_on l) v = v
load_lines-IsLoaded (line ∷ lines) (Outcome.goes_on l) v =
    load_lines-IsLoaded lines (load_line line l) (load_line-IsLoaded line l v)
load_lines-IsLoaded [] (Outcome.broken l) v = v
load_lines-IsLoaded (line ∷ lines) (Outcome.broken l) v = v
load_lines-IsLoaded [] Outcome.exits v = tt
load_lines-IsLoaded (line ∷ lines) Outcome.exits v = tt

pub load_register_file-IsLoaded : (text : Text) → AtEnd IsLoaded (load_register_file text)
unfolding load_register_file Assoc.lookup
load_register_file-IsLoaded text =
    load_lines-IsLoaded _ (Outcome.goes_on (record { id_map = []; globals = new_globals }))
      (record { distinct = tt; used = tt; bounded = tt; unused = λ k h. refl; nothing_new = refl })
