-- ===== src/CsvTable/Columns.antt =====
-- A row of a loaded table is read by the names in the header, and nothing panics.
use gogame.Common.{
  ℕ, zero, suc, ◌+◌, ◌<◌, ◌≡◌, refl, ap, ◌∙◌, inl, inr, Bool, true, false, List, [], ◌∷◌, map,
  Option, none, some, if◌then◌else◌, Bool-cases, length, get_elem?, arith, All,
}
use gogame.Text.{Text, to_lower, equals}
use gogame.Text.Keyed
use gogame.CsvTable.{Floats, Value, Setting, stored, skipped, failed, panics, set_value}
use gogame.CsvTable.Typed.{HasType, IsNoPointer, Stores, set_value-Stores}
use gogame.CsvTable.Rows.{
  Field, fill_key_map, zero_of, is_ignored, tag_or_name, settled, set_from, set_at, set_field,
  set_row_value,
}

-- The cell under a column's name, in lower case: that of the last such column.
abbrev or_else {ℓ} : {A : Type ℓ} → Option A → Option A → Option A
or_else none o = o
or_else (some x) o = some x

abbrev cell_if : Bool → Text → Option Text
cell_if true cell = some cell
cell_if false cell = none

abbrev pub cell_of : Text → List Text → List Text → Option Text
cell_of column [] row = none
cell_of column (name ∷ names) [] = none
cell_of column (name ∷ names) (cell ∷ row) =
    or_else (cell_of column names row) (cell_if (equals (to_lower name) column) cell)

abbrev at_index : List Text → Option ℕ → Option Text
at_index row none = none
at_index row (some index) = get_elem? row index

-- The columns that were filled in, and those to come, of which the rest of the row has the cells.
module _ (column : Text) (whole : List Text) where
  lookup_found :
      (found : Bool) (index : ℕ) (cell : Text) (later : Option Text) (old : Option ℕ)
      → get_elem? whole index ≡ some cell
      → or_else later (at_index whole (if found then some index else old))
        ≡ or_else (or_else later (cell_if found cell)) (at_index whole old)
  lookup_found found index cell (some x) old e = refl
  lookup_found true index cell none old e = e
  lookup_found false index cell none old e = refl

  lookup-fill_key_map :
      (names row : List Text) (index : ℕ) (key_map : List (Text × ℕ))
      → length row ≡ length names
      → ((k : ℕ) → get_elem? whole (index + k) ≡ get_elem? row k)
      → at_index whole (Keyed.lookup column (fill_key_map index names key_map))
        ≡ or_else (cell_of column names row) (at_index whole (Keyed.lookup column key_map))
  unfolding fill_key_map
  lookup-fill_key_map [] row index key_map h rest = refl
  lookup-fill_key_map (name ∷ names) [] index key_map h rest = absurd (omega arith)
  lookup-fill_key_map (name ∷ names) (cell ∷ row) index key_map h rest =
      lookup-fill_key_map names row (suc index) (Keyed.insert (to_lower name) index key_map)
        (omega arith)
        (λ k.
          ap (get_elem? whole) (let e : suc index + k ≡ index + suc k = omega arith in e)
          ∙ rest (suc k))
      ∙ ap (λ o. or_else (cell_of column names row) (at_index whole o))
          (Keyed.lookup-insert column (to_lower name) index key_map)
      ∙ lookup_found (equals (to_lower name) column) index cell (cell_of column names row)
          (Keyed.lookup column key_map)
          (ap (get_elem? whole) (let e : index ≡ index + 0 = omega arith in e) ∙ rest 0)

-- Every index of the map is one of the header.
lookup-lt :
    (column : Text) (names : List Text) (index n k : ℕ) (key_map : List (Text × ℕ))
    → index + length names ≡ n
    → ((i : ℕ) → Keyed.lookup column key_map ≡ some i → i < n)
    → Keyed.lookup column (fill_key_map index names key_map) ≡ some k
    → k < n
unfolding fill_key_map
lookup-lt column [] index n k key_map h below e = below k e
lookup-lt column (name ∷ names) index n k key_map h below e =
    lookup-lt column names (suc index) n k (Keyed.insert (to_lower name) index key_map)
      (omega arith)
      (λ i found. elim (Bool-cases (equals (to_lower name) column)) [
        | inl this ↦
            (let own =
                rw (Keyed.lookup-insert column (to_lower name) index key_map, this) at found in
              let same : index ≡ i = cc in omega arith)
        | inr other ↦
            below i (rw (Keyed.lookup-insert column (to_lower name) index key_map, other) at found)
      ])
      e

get_elem?-lt :
    (row : List Text) (k : ℕ) → k < length row → (cell : Text) × (get_elem? row k ≡ some cell)
get_elem?-lt [] k h = absurd (omega arith)
get_elem?-lt (cell ∷ row) zero h = (cell, refl)
get_elem?-lt (cell ∷ row) (suc k) h = get_elem?-lt row k (omega arith)

-- The value of a field by the cell of its column; one that cannot be set keeps its zero value.
abbrev pub value_or : Value → Setting → Value
value_or old (stored v) = v
value_or old _ = old

abbrev pub value_of : Floats → Field → Option Text → Value
value_of env f none = zero_of f.field_type
value_of env f (some cell) = value_or (zero_of f.field_type) (set_value env f.field_type cell)

abbrev pub column_of : Field → Text
column_of f = to_lower (tag_or_name f.tag f.name)

abbrev pub field_value : Floats → List Text → List Text → Field → Value
field_value env names row f =
    if is_ignored f.tag
    then zero_of f.field_type
    else value_of env f (cell_of (column_of f) names row)

abbrev pub IsSettable : Field → Type 0
IsSettable f = (f.exported ≡ true) × IsNoPointer f.field_type

settled-value :
    (P : Value → Type 0) (exported : Bool) (old : Value) (s : Setting)
    → exported ≡ true
    → Stores P s
    → settled exported old s ≡ some (value_or old s)
settled-value P true old (stored v) e h = refl
settled-value P false old (stored v) e h = absurd cc
settled-value P exported old skipped e h = refl
settled-value P exported old failed e h = refl
settled-value P exported old panics e h = absurd h

or_else-none : (o : Option Text) → or_else o none ≡ o
or_else-none none = refl
or_else-none (some x) = refl

module _ (env : Floats) (names row : List Text) (same : length row ≡ length names) where
  abbrev header : List (Text × ℕ)
  header = fill_key_map 0 names []

  at_header : (column : Text) → at_index row (Keyed.lookup column header) ≡ cell_of column names row
  unfolding Keyed.lookup
  at_header column =
      lookup-fill_key_map column row names row 0 [] same
        (λ k. ap (get_elem? row) (let e : 0 + k ≡ k = omega arith in e))
      ∙ or_else-none (cell_of column names row)

  in_row : (column : Text) (k : ℕ) → Keyed.lookup column header ≡ some k → k < length row
  unfolding Keyed.lookup
  in_row column k e =
      lookup-lt column names 0 (length row) k [] (omega arith) (λ i found. absurd cc) e

  set_found :
      (f : Field) (index : ℕ)
      → IsSettable f
      → index < length row
      → set_from env f (get_elem? row index) ≡ some (value_of env f (get_elem? row index))
  set_found f index h lt =
      let (cell, e) = get_elem?-lt row index lt in
      rw e (
        settled-value (HasType f.field_type) f.exported (zero_of f.field_type)
          (set_value env f.field_type cell) h.0 (set_value-Stores env f.field_type cell h.1))

  set_indexed :
      (f : Field) (o : Option ℕ)
      → IsSettable f
      → ((k : ℕ) → o ≡ some k → k < length row)
      → set_at env f o row ≡ some (value_of env f (at_index row o))
  set_indexed f none h lt = refl
  set_indexed f (some index) h lt = set_found f index h (lt index refl)

  set_field-value :
      (f : Field) → IsSettable f → set_field env header f row ≡ some (field_value env names row f)
  set_field-value f h = elim (Bool-cases (is_ignored f.tag)) [
    | inl ignored ↦ rw ignored refl
    | inr read ↦ rw read (
        set_indexed f (Keyed.lookup (column_of f) header) h (in_row (column_of f))
        ∙ ap (λ o. some (value_of env f o)) (at_header (column_of f)))
  ]

  -- The row that reflection sets is the row of its columns' cells.
  pub set_row_value-columns :
      (fields : List Field)
      → All IsSettable fields
      → set_row_value env (fill_key_map 0 names []) fields row
        ≡ some (map (field_value env names row) fields)
  unfolding set_row_value
  set_row_value-columns [] h = refl
  set_row_value-columns (f ∷ fields) h =
      rw (set_field-value f h.0, set_row_value-columns fields h.1) refl
