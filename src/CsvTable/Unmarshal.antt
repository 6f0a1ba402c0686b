-- ===== src/CsvTable/Unmarshal.antt =====
-- What `Unmarshal` puts into a map, and that it does not panic on a loaded table.
use gogame.Common.{
  ℕ, ◌≡◌, refl, inl, inr, Bool, true, false, List, [], ◌∷◌, Option, none, some, Bool-cases,
  get_elem?, arith, All,
}
use mathlib.Core.Path.{subst}
use gogame.Text.{Text}
use gogame.Text.Keyed
use gogame.CsvTable.{
  Floats, FieldType, Basic, Value, Setting, stored, skipped, failed, panics, set_value,
}
use gogame.CsvTable.Typed.{HasType, Stores, set_value-Stores, shape_of, HasShape, HasElements}
use gogame.CsvTable.Columns.{column_of}
use gogame.CsvTable.Rows.{
  Field, CsvTable, zero_of, zero_of_basic, zero_of_slice, settled, set_from, set_at, set_field,
  add_value, set_row_value, is_ignored, Rows, Unmarshalled, done, key_failed, unmarshal_panics,
  with_row, with_key, first_cell, unmarshal_rows, unmarshal,
}

-- The values of a struct fit its fields.
abbrev pub IsRow : List Field → List Value → Type 0
IsRow [] [] = Unit {0}
IsRow (f ∷ fields) (v ∷ values) = HasType f.field_type v × IsRow fields values
IsRow _ _ = ⊥

abbrev pub IsTyped : FieldType → List Field → Rows → Type 0
IsTyped key_type fields rows = All (λ r. HasType key_type r.0 × IsRow fields r.1) rows

-- Of the map at the end; a panic ends the program.
abbrev pub Leaves : (Rows → Type 0) → Unmarshalled → Type 0
Leaves P (done rows) = P rows
Leaves P (key_failed rows) = P rows
Leaves P unmarshal_panics = Unit {0}

zero_of_basic-HasShape : (b : Basic) → HasShape (shape_of b) (zero_of_basic b)
zero_of_basic-HasShape Basic.int = omega arith
zero_of_basic-HasShape Basic.int8 = omega arith
zero_of_basic-HasShape Basic.int16 = omega arith
zero_of_basic-HasShape Basic.int32 = omega arith
zero_of_basic-HasShape Basic.int64 = omega arith
zero_of_basic-HasShape Basic.uint = omega arith
zero_of_basic-HasShape Basic.uint8 = omega arith
zero_of_basic-HasShape Basic.uint16 = omega arith
zero_of_basic-HasShape Basic.uint32 = omega arith
zero_of_basic-HasShape Basic.uint64 = omega arith
zero_of_basic-HasShape Basic.float32 = tt
zero_of_basic-HasShape Basic.float64 = tt
zero_of_basic-HasShape Basic.string = tt
zero_of_basic-HasShape Basic.bool = tt

zero_of_slice-HasElements : (b : Basic) → HasElements (shape_of b) (zero_of_slice b)
zero_of_slice-HasElements Basic.string = tt
zero_of_slice-HasElements _ = tt

zero_of-HasType : (t : FieldType) → HasType t (zero_of t)
unfolding zero_of
zero_of-HasType (FieldType.basic b) = zero_of_basic-HasShape b
zero_of-HasType (FieldType.slice b) = zero_of_slice-HasElements b
zero_of-HasType (FieldType.pointer t) = tt
zero_of-HasType FieldType.unsupported = tt

-- A panic, or a value of the type.
abbrev IsNoneOr {ℓ} : {A : Type ℓ} → (A → Type 0) → Option A → Type 0
IsNoneOr P none = Unit {0}
IsNoneOr P (some x) = P x

-- At a pointer nothing is stored.
set_value-Fits :
    (env : Floats) (t : FieldType) (s : Text) (v : Value)
    → set_value env t s ≡ stored v
    → HasType t v
unfolding set_value
set_value-Fits env (FieldType.pointer t) s v e = absurd cc
set_value-Fits env (FieldType.basic b) s v e =
    subst (Stores (HasType (FieldType.basic b))) e (set_value-Stores env (FieldType.basic b) s tt)
set_value-Fits env (FieldType.slice b) s v e =
    subst (Stores (HasType (FieldType.slice b))) e (set_value-Stores env (FieldType.slice b) s tt)
set_value-Fits env FieldType.unsupported s v e = absurd cc

settled-Fits :
    (P : Value → Type 0) (exported : Bool) (old : Value) (s : Setting)
    → P old
    → ((v : Value) → s ≡ stored v → P v)
    → IsNoneOr P (settled exported old s)
settled-Fits P true old (stored v) h fits = fits v refl
settled-Fits P false old (stored v) h fits = tt
settled-Fits P exported old skipped h fits = h
settled-Fits P exported old failed h fits = h
settled-Fits P exported old panics h fits = tt

set_from-Fits :
    (env : Floats) (f : Field) (cell : Option Text)
    → IsNoneOr (HasType f.field_type) (set_from env f cell)
set_from-Fits env f none = tt
set_from-Fits env f (some cell) =
    settled-Fits (HasType f.field_type) f.exported (zero_of f.field_type)
      (set_value env f.field_type cell) (zero_of-HasType f.field_type)
      (set_value-Fits env f.field_type cell)

set_at-Fits :
    (env : Floats) (f : Field) (o : Option ℕ) (row : List Text)
    → IsNoneOr (HasType f.field_type) (set_at env f o row)
set_at-Fits env f none row = zero_of-HasType f.field_type
set_at-Fits env f (some index) row = set_from-Fits env f (get_elem? row index)

set_field-Fits :
    (env : Floats) (key_map : List (Text × ℕ)) (f : Field) (row : List Text)
    → IsNoneOr (HasType f.field_type) (set_field env key_map f row)
set_field-Fits env key_map f row = elim (Bool-cases (is_ignored f.tag)) [
  | inl ignored ↦ rw ignored (zero_of-HasType f.field_type)
  | inr read ↦ rw read (set_at-Fits env f (Keyed.lookup (column_of f) key_map) row)
]

add_value-IsRow :
    (f : Field) (fields : List Field) (v : Option Value) (values : Option (List Value))
    → IsNoneOr (HasType f.field_type) v
    → IsNoneOr (IsRow fields) values
    → IsNoneOr (IsRow (f ∷ fields)) (add_value v values)
add_value-IsRow f fields none values h g = tt
add_value-IsRow f fields (some v) none h g = tt
add_value-IsRow f fields (some v) (some values) h g = (h, g)

set_row_value-IsRow :
    (env : Floats) (key_map : List (Text × ℕ)) (fields : List Field) (row : List Text)
    → IsNoneOr (IsRow fields) (set_row_value env key_map fields row)
unfolding set_row_value
set_row_value-IsRow env key_map [] row = tt
set_row_value-IsRow env key_map (f ∷ fields) row =
    add_value-IsRow f fields (set_field env key_map f row) (set_row_value env key_map fields row)
      (set_field-Fits env key_map f row) (set_row_value-IsRow env key_map fields row)

-- One row, before the rest of the loop.
module _ (key_type : FieldType) (fields : List Field) (rest : Rows → Unmarshalled)
    (h : (rows : Rows)
      → IsTyped key_type fields rows
      → Leaves (IsTyped key_type fields) (rest rows)) where
  with_row-IsTyped :
      (key : Value) (values : Option (List Value)) (rows : Rows)
      → HasType key_type key
      → IsNoneOr (IsRow fields) values
      → IsTyped key_type fields rows
      → Leaves (IsTyped key_type fields) (with_row key values rest rows)
  with_row-IsTyped key none rows k v t = tt
  with_row-IsTyped key (some values) rows k v t = h ((key, values) ∷ rows) ((k, v), t)

  with_key-IsTyped :
      (s : Setting) (values : Option (List Value)) (rows : Rows)
      → ((v : Value) → s ≡ stored v → HasType key_type v)
      → IsNoneOr (IsRow fields) values
      → IsTyped key_type fields rows
      → Leaves (IsTyped key_type fields) (with_key key_type s values rest rows)
  with_key-IsTyped panics values rows k v t = tt
  with_key-IsTyped failed values rows k v t = t
  with_key-IsTyped skipped values rows k v t =
      with_row-IsTyped (zero_of key_type) values rows (zero_of-HasType key_type) v t
  with_key-IsTyped (stored key) values rows k v t =
      with_row-IsTyped key values rows (k key refl) v t

first_cell-Fits :
    (env : Floats) (key_type : FieldType) (row : List Text) (v : Value)
    → first_cell env key_type row ≡ stored v
    → HasType key_type v
first_cell-Fits env key_type [] v e = absurd cc
first_cell-Fits env key_type (cell ∷ row) v e = set_value-Fits env key_type cell v e

unmarshal_rows-IsTyped :
    (env : Floats) (key_type : FieldType) (fields : List Field) (key_map : List (Text × ℕ))
    (records : List (List Text)) (rows : Rows)
    → IsTyped key_type fields rows
    → Leaves (IsTyped key_type fields) (unmarshal_rows env key_type fields key_map records rows)
unfolding unmarshal_rows
unmarshal_rows-IsTyped env key_type fields key_map [] rows t = t
unmarshal_rows-IsTyped env key_type fields key_map (row ∷ records) rows t =
    with_key-IsTyped key_type fields (unmarshal_rows env key_type fields key_map records)
      (unmarshal_rows-IsTyped env key_type fields key_map records) (first_cell env key_type row)
      (set_row_value env key_map fields row) rows (first_cell-Fits env key_type row)
      (set_row_value-IsRow env key_map fields row) t

-- Every key and value that is put into the map fits its Go type.
pub unmarshal-IsTyped :
    (env : Floats) (key_type : FieldType) (fields : List Field) (rows : Rows) (c : CsvTable)
    (u : Unmarshalled)
    → IsTyped key_type fields rows
    → unmarshal env key_type fields (some rows) c ≡ some u
    → Leaves (IsTyped key_type fields) u
unfolding unmarshal
unmarshal-IsTyped env key_type fields rows c u t e =
    let same : unmarshal_rows env key_type fields c.key_map c.records rows ≡ u = cc in
    subst (Leaves (IsTyped key_type fields)) same
      (unmarshal_rows-IsTyped env key_type fields c.key_map c.records rows t)
