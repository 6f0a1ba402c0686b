-- ===== src/Processor.antt =====
-- The registry of messages in protocol/protobuf.go. A `reflect.Type` is a number that names it.
-- `reflect.TypeOf`, `proto.Marshal` and `proto.UnmarshalMerge` come from `Proto`, over a type of
-- messages; the last takes the type of the new message that it fills.
pub mod Inverse
mod Tests
use gogame.Common.{ℕ, Bool, true, false, List, [], ◌∷◌, Option, none, some}
use gogame.Common.Assoc

pub record Processor : Type 0 where
  pub msg_type : List (ℕ × ℕ)
  pub msg_id : List (ℕ × ℕ)

pub record Proto (M : Type 0) : Type 0 where
  pub type_of : M → ℕ
  pub marshal : M → Option (List ℕ)
  pub merge : ℕ → List ℕ → Option M

unfoldable pub new_processor : Processor
new_processor = record { msg_type = []; msg_id = [] }

-- `RegisterType`; the flag tells whether it was refused.
unfoldable pub register_type : ℕ → ℕ → Processor → Processor × Bool
unfolding Assoc.lookup Assoc.insert
register_type id t p = elim (Assoc.lookup id p.msg_type) [
  | some used ↦ (p, true)
  | none ↦ elim (Assoc.lookup t p.msg_id) [
    | some used ↦ (p, true)
    | none ↦ (
      record { msg_type = Assoc.insert id t p.msg_type; msg_id = Assoc.insert t id p.msg_id },
      false,
    )
  ]
]

-- `Register`: the same for the type of a message.
unfoldable pub register : {M : Type 0} → Proto M → ℕ → M → Processor → Processor × Bool
unfolding register_type
register proto id msg p = register_type id (proto.type_of msg) p

unfoldable pub register_all : List (ℕ × ℕ) → Processor → Processor
unfolding register_type
register_all [] p = p
register_all ((id, t) ∷ types) p = register_all types (register_type id t p).0

-- The error of an id or type without registration; that of the protobuf library; and the panic of
-- `data[2:]` below two bytes.
pub data Unmarshalled (M : Type 0) : Type 0 where
  message : M → Unmarshalled M
  unknown failed panics : Unmarshalled M

abbrev pub merged : {M : Type 0} → Option M → Unmarshalled M
merged none = failed
merged (some m) = message m

-- The first two bytes are skipped.
abbrev pub merge_rest : {M : Type 0} → Proto M → ℕ → List ℕ → Unmarshalled M
merge_rest proto t [] = panics
merge_rest proto t (a ∷ []) = panics
merge_rest proto t (a ∷ b ∷ data_) = merged (proto.merge t data_)

unfoldable pub unmarshal : {M : Type 0} → Proto M → ℕ → List ℕ → Processor → Unmarshalled M
unfolding Assoc.lookup
unmarshal proto id data_ p = elim (Assoc.lookup id p.msg_type) [
  | none ↦ unknown
  | some t ↦ merge_rest proto t data_
]

pub data Marshalled : Type 0 where
  bytes : List ℕ → ℕ → Marshalled
  unregistered marshal_failed : Marshalled

abbrev pub with_id : ℕ → Option (List ℕ) → Marshalled
with_id id none = marshal_failed
with_id id (some data_) = bytes data_ id

unfoldable pub marshal : {M : Type 0} → Proto M → M → Processor → Marshalled
unfolding Assoc.lookup
marshal proto msg p = elim (Assoc.lookup (proto.type_of msg) p.msg_id) [
  | none ↦ unregistered
  | some id ↦ with_id id (proto.marshal msg)
]

unfoldable pub is_protocol_exist : ℕ → Processor → Bool
unfolding Assoc.lookup
is_protocol_exist id p = elim (Assoc.lookup id p.msg_type) [ none ↦ false | some t ↦ true ]
