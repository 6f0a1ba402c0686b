-- ===== src/Generator/Missing.antt =====
-- The items that `loadProtoFile` appends: those of the messages that the register file lacks.
use gogame.Common.{
  ℕ, ◌+◌, ◌%◌, ◌<◌, ◌≡◌, refl, sym, ap, ◌∙◌, inl, inr, Bool, true, false, List, [], ◌∷◌, ◌++◌,
  Option, none, some, if◌then◌else◌, Bool-cases, Option-cases, arith, All, All-append, length,
}
use mathlib.Core.List.{append-nil, append_assoc}
use gogame.Text.{Text, equals, has_prefix}
use gogame.Text.Trimmed.{equals_refl}
use gogame.Generator.{
  Item, Globals, find_id, append_item, append_unless, new_item, message_prefix, load_type, Decl,
  load_specs, load_proto_file,
}

abbrev pub Types : Type 0
Types = List (Text × Text)

-- The first type of each declaration, with its doc comment, and what these types append.
abbrev pub first_type : Text → List (Option Text) → Types → Types
first_type doc [] types = types
first_type doc (none ∷ specs) types = first_type doc specs types
first_type doc (some msg ∷ specs) types = (msg, doc) ∷ types

abbrev pub types_of : List Decl → Types
types_of [] = []
types_of (d ∷ decls) = first_type d.doc d.specs (types_of decls)

unfoldable pub load_types : Types → Globals → Globals
unfolding load_type
load_types [] g = g
load_types (t ∷ types) g = load_types types (load_type t g)

first_type-load_specs :
    (doc : Text) (specs : List (Option Text)) (types : Types) (g : Globals)
    → load_types (first_type doc specs types) g ≡ load_types types (load_specs doc specs g)
unfolding load_types load_specs
first_type-load_specs doc [] types g = refl
first_type-load_specs doc (none ∷ specs) types g = first_type-load_specs doc specs types g
first_type-load_specs doc (some msg ∷ specs) types g = refl

pub load_proto_file-types :
    (decls : List Decl) (g : Globals) → load_proto_file decls g ≡ load_types (types_of decls) g
unfolding load_proto_file load_types
load_proto_file-types [] g = refl
load_proto_file-types (d ∷ decls) g =
    load_proto_file-types decls (load_specs d.doc d.specs g)
    ∙ sym (first_type-load_specs d.doc d.specs (types_of decls) g)

-- The items appended by one type, and by all.
abbrev pub one_unless : Option ℕ → Item → List Item
one_unless (some id) it = []
one_unless none it = it ∷ []

abbrev pub missing_one : Text × Text → Globals → List Item
missing_one (msg, doc) g =
    if has_prefix msg message_prefix
    then one_unless (find_id msg g.item_map) (new_item msg doc g)
    else []

unfoldable pub missing : Types → Globals → List Item
missing [] g = []
missing (t ∷ types) g = missing_one t g ++ missing types (load_type t g)

unfoldable pub append_all : List Item → Globals → Globals
append_all [] g = g
append_all (it ∷ items) g = append_all items (append_item it g)

pub append_all-append :
    (items more : List Item) (g : Globals)
    → append_all (items ++ more) g ≡ append_all more (append_all items g)
unfolding append_all
append_all-append [] more g = refl
append_all-append (it ∷ items) more g = append_all-append items more (append_item it g)

-- A type is appended, or nothing changes.
unless-cases :
    (P : Globals → List Item → Type 0) (o : Option ℕ) (msg doc : Text) (g : Globals)
    → P g []
    → P (append_item (new_item msg doc g) g) (new_item msg doc g ∷ [])
    → P (append_unless o msg doc g) (one_unless o (new_item msg doc g))
unless-cases P (some id) msg doc g same new = same
unless-cases P none msg doc g same new = new

type-cases :
    (P : Globals → List Item → Type 0) (msg doc : Text) (g : Globals)
    → P g []
    → P (append_item (new_item msg doc g) g) (new_item msg doc g ∷ [])
    → P (load_type (msg, doc) g) (missing_one (msg, doc) g)
unfolding load_type
type-cases P msg doc g same new = elim (Bool-cases (has_prefix msg message_prefix)) [
  | inl message ↦ rw message (unless-cases P (find_id msg g.item_map) msg doc g same new)
  | inr other ↦ rw other same
]

load_type-missing : (t : Text × Text) (g : Globals) → load_type t g ≡ append_all (missing_one t g) g
unfolding append_all
load_type-missing (msg, doc) g =
    type-cases (λ g' items. g' ≡ append_all items g) msg doc g refl refl

-- Loading a Go file appends the missing items, in order.
pub load_types-missing :
    (types : Types) (g : Globals) → load_types types g ≡ append_all (missing types g) g
unfolding load_types missing append_all
load_types-missing [] g = refl
load_types-missing (t ∷ types) g =
    load_types-missing types (load_type t g)
    ∙ ap (append_all (missing types (load_type t g))) (load_type-missing t g)
    ∙ sym (append_all-append (missing_one t g) (missing types (load_type t g)) g)

-- Ids above `most`, each above the one before it.
abbrev pub IsAscending : ℕ → List Item → Type 0
IsAscending most [] = Unit {0}
IsAscending most (it ∷ items) = (most < it.id) × (it.id < 65536) × IsAscending it.id items

-- While the ids do not wrap around.
pub missing-IsAscending :
    (types : Types) (g : Globals)
    → g.max_msg_id + length types < 65536
    → IsAscending g.max_msg_id (missing types g)
unfolding missing
missing-IsAscending [] g h = tt
missing-IsAscending ((msg, doc) ∷ types) g h =
    type-cases
      (λ g' items.
        (g'.max_msg_id + length types < 65536 → IsAscending g'.max_msg_id (missing types g'))
        → IsAscending g.max_msg_id (items ++ missing types g'))
      msg doc g (λ later. later (omega arith))
      (λ later. (omega arith, omega arith, later (omega arith)))
      (missing-IsAscending types (load_type (msg, doc) g))

-- A property of the items that come of the types.
pub missing-All :
    (P : Item → Type 0) (types : Types) (g : Globals)
    → All (λ t. (id : ℕ) → id < 65536 → P (record { id = id; msg = t.0; comma = t.1 })) types
    → All P (missing types g)
unfolding missing
missing-All P [] g h = tt
missing-All P ((msg, doc) ∷ types) g h =
    All-append P (missing_one (msg, doc) g) (missing types (load_type (msg, doc) g))
      (type-cases (λ g' items. All P items) msg doc g tt
        (h.0 ((g.max_msg_id + 1) % 65536) (omega arith), tt))
      (missing-All P types (load_type (msg, doc) g) h.1)

-- A name with an id keeps one.
abbrev pub IsKnown : Text → List (Text × ℕ) → Type 0
IsKnown msg names = (id : ℕ) × (find_id msg names ≡ some id)

abbrev is_some_of : Bool → ℕ → Option ℕ → Option ℕ
is_some_of b id o = if b then some id else o

found_unless :
    (b : Bool) (id : ℕ) (o : Option ℕ)
    → ((k : ℕ) × (o ≡ some k))
    → (k : ℕ) × (is_some_of b id o ≡ some k)
found_unless true id o h = (id, refl)
found_unless false id o h = h

pub append_all-IsKnown :
    (msg : Text) (items : List Item) (g : Globals)
    → IsKnown msg g.item_map
    → IsKnown msg (append_all items g).item_map
unfolding append_all find_id
append_all-IsKnown msg [] g h = h
append_all-IsKnown msg (it ∷ items) g h =
    append_all-IsKnown msg items (append_item it g)
      (found_unless (equals it.msg msg) it.id (find_id msg g.item_map) h)

-- Every message, once its type is loaded, has an id.
abbrev pub IsMessage : Text → Type 0
IsMessage msg = has_prefix msg message_prefix ≡ true

load_type-IsKnown :
    (msg doc : Text) (g : Globals) → IsMessage msg → IsKnown msg (load_type (msg, doc) g).item_map
unfolding load_type find_id
load_type-IsKnown msg doc g h = elim (Option-cases (find_id msg g.item_map)) [
  | inl new ↦ rw (h, new) ((g.max_msg_id + 1) % 65536, rw (equals_refl msg) refl)
  | inr (id, known) ↦ rw (h, known) (id, known)
]

pub load_types-IsKnown :
    (types : Types) (g : Globals)
    → All (λ t. IsMessage t.0 → IsKnown t.0 (load_types types g).item_map) types
unfolding load_types
load_types-IsKnown [] g = tt
load_types-IsKnown ((msg, doc) ∷ types) g = (
  (λ h. rw (load_types-missing types (load_type (msg, doc) g)) (
      append_all-IsKnown msg (missing types (load_type (msg, doc) g)) (load_type (msg, doc) g)
        (load_type-IsKnown msg doc g h))),
  load_types-IsKnown types (load_type (msg, doc) g),
)

-- Types whose messages are all known change nothing.
pub load_types-known :
    (types : Types) (g : Globals)
    → All (λ t. IsMessage t.0 → IsKnown t.0 g.item_map) types
    → load_types types g ≡ g
unfolding load_types load_type
load_types-known [] g h = refl
load_types-known ((msg, doc) ∷ types) g h = elim (Bool-cases (has_prefix msg message_prefix)) [
  | inl message ↦ rw (message, (h.0 message).1) (load_types-known types g h.1)
  | inr other ↦ rw other (load_types-known types g h.1)
]

pub append_all-append_items :
    (items : List Item) (g : Globals) → (append_all items g).append_items ≡ g.append_items ++ items
unfolding append_all
append_all-append_items [] g = sym (append-nil g.append_items)
append_all-append_items (it ∷ items) g =
    append_all-append_items items (append_item it g) ∙ append_assoc g.append_items (it ∷ []) items

-- The same, of declarations.
module _ (decls : List Decl) where
  pub load_proto_file-missing :
      (g : Globals) → load_proto_file decls g ≡ append_all (missing (types_of decls) g) g
  load_proto_file-missing g = load_proto_file-types decls g ∙ load_types-missing (types_of decls) g

  pub load_proto_file-IsKnown :
      (g : Globals)
      → All (λ t. IsMessage t.0 → IsKnown t.0 (load_proto_file decls g).item_map) (types_of decls)
  load_proto_file-IsKnown g =
      rw (load_proto_file-types decls g) (load_types-IsKnown (types_of decls) g)

  pub load_proto_file-known :
      (g : Globals)
      → All (λ t. IsMessage t.0 → IsKnown t.0 g.item_map) (types_of decls)
      → load_proto_file decls g ≡ g
  load_proto_file-known g h = load_proto_file-types decls g ∙ load_types-known (types_of decls) g h
