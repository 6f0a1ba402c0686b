-- ===== src/Generator/Registered.antt =====
-- The ids that the generator gives, and the registry that registering them fills.
use gogame.Common.{
  ℕ, ◌+◌, ◌<◌, ◌≤◌, ◌≡◌, ◌≢◌, ◌⊎◌, inl, inr, refl, sym, ◌∙◌, List, [], ◌∷◌, none, some,
  Option-cases, ne→==, arith, All, All-map, All-append, length,
}
use mathlib.Core.Path.{subst}
use gogame.Common.Assoc
use gogame.Text.{Text}
use gogame.Processor.{Processor, new_processor, register_type, register_all}
use gogame.Generator.{
  Item, Globals, Decl, Loading, Outcome, load_register_file, load_proto_file, append_item,
}
use gogame.Generator.Missing.{
  types_of, missing, append_all, IsAscending, missing-IsAscending, load_proto_file-missing,
}
use gogame.Generator.Listed.{registrations}
use gogame.Generator.Loaded.{
  AtEnd, IsLoaded, IsDistinct, IsFreshId, IsDistinct-append, load_register_file-IsLoaded,
}

-- Ids that ascend from the maximum stay distinct.
append_all-IsDistinct :
    (items : List Item) (g : Globals)
    → IsDistinct g.all_items
    → All (λ it. it.id ≤ g.max_msg_id) g.all_items
    → IsAscending g.max_msg_id items
    → IsDistinct (append_all items g).all_items
unfolding append_all
append_all-IsDistinct [] g d b a = d
append_all-IsDistinct (it ∷ items) g d b a =
    append_all-IsDistinct items (append_item it g)
      (IsDistinct-append g.all_items it d (
        All-map (λ x. x.id ≤ g.max_msg_id) (λ x. x.id ≢ it.id) (λ x h e. omega arith) g.all_items
          b))
      (All-append (λ x. x.id ≤ it.id) g.all_items (it ∷ [])
        (All-map (λ x. x.id ≤ g.max_msg_id) (λ x. x.id ≤ it.id) (λ x h. omega arith) g.all_items b)
        (omega arith, tt))
      a.2

-- The loop over the register file was left at `l`, at the end of the file or by `break`.
abbrev pub LeftAt : Loading → Outcome → Type 0
LeftAt l o = (o ≡ Outcome.goes_on l) ⊎ (o ≡ Outcome.broken l)

left-IsLoaded : (o : Outcome) (l : Loading) → AtEnd IsLoaded o → LeftAt l o → IsLoaded l
left-IsLoaded o l v (inl e) = subst (AtEnd IsLoaded) e v
left-IsLoaded o l v (inr e) = subst (AtEnd IsLoaded) e v

-- All ids of the generated file differ.
pub load_proto_file-IsDistinct :
    (text : Text) (decls : List Decl) (l : Loading)
    → LeftAt l (load_register_file text)
    → l.globals.max_msg_id + length (types_of decls) < 65536
    → IsDistinct (load_proto_file decls l.globals).all_items
load_proto_file-IsDistinct text decls l left fits =
    let v = left-IsLoaded (load_register_file text) l (load_register_file-IsLoaded text) left in
    rw (load_proto_file-missing decls l.globals) (
      append_all-IsDistinct (missing (types_of decls) l.globals) l.globals v.distinct v.bounded
        (missing-IsAscending (types_of decls) l.globals fits))

-- No two items have the same type.
abbrev pub HaveDistinctTypes : (Text → ℕ) → List Item → Type 0
HaveDistinctTypes type_of [] = Unit {0}
HaveDistinctTypes type_of (it ∷ items) =
    All (λ x. type_of x.msg ≢ type_of it.msg) items × HaveDistinctTypes type_of items

abbrev IsAbsent : (Text → ℕ) → Processor → Item → Type 0
IsAbsent type_of p it =
    (Assoc.lookup it.id p.msg_type ≡ none) × (Assoc.lookup (type_of it.msg) p.msg_id ≡ none)

abbrev pub IsRegistered : ℕ → ℕ → Processor → Type 0
IsRegistered id t p = (Assoc.lookup id p.msg_type ≡ some t) × (Assoc.lookup t p.msg_id ≡ some id)

-- `RegisterType` sets both maps, or changes nothing.
abbrev both_set : ℕ → ℕ → Processor → Processor
both_set k s p = record {
  msg_type = Assoc.insert k s p.msg_type;
  msg_id = Assoc.insert s k p.msg_id;
}

register_type-cases :
    (P : Processor → Type 0) (k s : ℕ) (p : Processor)
    → P p
    → (Assoc.lookup k p.msg_type ≡ none → Assoc.lookup s p.msg_id ≡ none → P (both_set k s p))
    → P (register_type k s p).0
unfolding register_type
register_type-cases P k s p same set = elim (Option-cases (Assoc.lookup k p.msg_type)) [
  | inr (u, used) ↦ rw (used, register_type) same
  | inl free_id ↦ elim (Option-cases (Assoc.lookup s p.msg_id)) [
    | inr (u, used) ↦ rw (free_id, used, register_type) same
    | inl free_type ↦ rw (free_id, free_type, register_type) (set free_id free_type)
  ]
]

register_type-set :
    (k s : ℕ) (p : Processor)
    → Assoc.lookup k p.msg_type ≡ none
    → Assoc.lookup s p.msg_id ≡ none
    → (register_type k s p).0 ≡ both_set k s p
unfolding register_type
register_type-set k s p free_id free_type = rw (free_id, free_type, register_type) refl

lookup-insert_other :
    (i k s : ℕ) (entries : List (ℕ × ℕ))
    → k ≢ i
    → Assoc.lookup i (Assoc.insert k s entries) ≡ Assoc.lookup i entries
lookup-insert_other i k s entries h = rw (Assoc.lookup-insert i k s entries, ne→== k i h) refl

lookup-insert_self :
    (k s : ℕ) (entries : List (ℕ × ℕ)) → Assoc.lookup k (Assoc.insert k s entries) ≡ some s
lookup-insert_self k s entries = ground (arith, Assoc.lookup-insert k k s entries)

lookup-insert_kept :
    (i k s t : ℕ) (entries : List (ℕ × ℕ))
    → Assoc.lookup i entries ≡ some t
    → Assoc.lookup k entries ≡ none
    → Assoc.lookup i (Assoc.insert k s entries) ≡ some t
lookup-insert_kept i k s t entries found free =
    lookup-insert_other i k s entries (λ e. absurd (let moved = rw e at free in cc)) ∙ found

-- A registration is never overwritten.
register_all-IsRegistered :
    (id t : ℕ) (types : List (ℕ × ℕ)) (p : Processor)
    → IsRegistered id t p
    → IsRegistered id t (register_all types p)
unfolding register_all
register_all-IsRegistered id t [] p h = h
register_all-IsRegistered id t ((k, s) ∷ types) p h =
    register_all-IsRegistered id t types (register_type k s p).0 (
      register_type-cases (IsRegistered id t) k s p h (λ free_id free_type. (
        lookup-insert_kept id k s t p.msg_type h.0 free_id,
        lookup-insert_kept t s k id p.msg_id h.1 free_type,
      )))

module _ (type_of : Text → ℕ) where
  IsAbsent-kept :
      (it : Item) (items : List Item) (p : Processor)
      → All (IsAbsent type_of p) items
      → IsFreshId it.id items
      → All (λ x. type_of x.msg ≢ type_of it.msg) items
      → All (IsAbsent type_of (both_set it.id (type_of it.msg) p)) items
  IsAbsent-kept it [] p absent fresh apart = tt
  IsAbsent-kept it (x ∷ items) p absent fresh apart = (
    (
      lookup-insert_other x.id it.id (type_of it.msg) p.msg_type (λ e. fresh.0 (sym e))
          ∙ absent.0.0,
      lookup-insert_other (type_of x.msg) (type_of it.msg) it.id p.msg_id (λ e. apart.0 (sym e))
          ∙ absent.0.1,
    ),
    IsAbsent-kept it items p absent.1 fresh.1 apart.1,
  )

  register_all-absent :
      (items : List Item) (p : Processor)
      → All (IsAbsent type_of p) items
      → IsDistinct items
      → HaveDistinctTypes type_of items
      → All
          (λ it. IsRegistered it.id (type_of it.msg) (register_all (registrations type_of items) p))
          items
  unfolding register_all
  register_all-absent [] p absent d t = tt
  register_all-absent (it ∷ items) p absent d t =
      let set = register_type-set it.id (type_of it.msg) p absent.0.0 absent.0.1 in
      (
        register_all-IsRegistered it.id (type_of it.msg) (registrations type_of items)
            (register_type it.id (type_of it.msg) p).0
            (subst (IsRegistered it.id (type_of it.msg)) (sym set) (
              lookup-insert_self it.id (type_of it.msg) p.msg_type,
              lookup-insert_self (type_of it.msg) it.id p.msg_id,
            )),
        register_all-absent items (register_type it.id (type_of it.msg) p).0
            (subst (λ q. All (IsAbsent type_of q) items) (sym set)
              (IsAbsent-kept it items p absent.1 d.0 t.0))
            d.1 t.1,
      )

  new_processor-IsAbsent : (items : List Item) → All (IsAbsent type_of new_processor) items
  unfolding new_processor Assoc.lookup
  new_processor-IsAbsent [] = tt
  new_processor-IsAbsent (it ∷ items) = ((refl, refl), new_processor-IsAbsent items)

pub items-IsRegistered :
    (type_of : Text → ℕ) (text : Text) (decls : List Decl) (l : Loading)
    → LeftAt l (load_register_file text)
    → l.globals.max_msg_id + length (types_of decls) < 65536
    → HaveDistinctTypes type_of (load_proto_file decls l.globals).all_items
    → All
        (λ it. IsRegistered it.id (type_of it.msg) (
          register_all
            (registrations type_of (load_proto_file decls l.globals).all_items)
            new_processor))
        (load_proto_file decls l.globals).all_items
items-IsRegistered type_of text decls l left fits apart =
    register_all-absent type_of (load_proto_file decls l.globals).all_items new_processor
      (new_processor-IsAbsent type_of (load_proto_file decls l.globals).all_items)
      (load_proto_file-IsDistinct text decls l left fits) apart
