-- ===== src/CsvTable/Rows.antt =====
-- `CsvTable` of base/csvtable/table.go: Load, Unmarshal and the rows. The records that the csv reader
-- gives, or none, are an argument of `load`.
use gogame.Common.{
  ℕ, suc, Bool, true, false, ◌||◌, List, [], ◌∷◌, Option, none, some, if◌then◌else◌, ◌==◌, length,
  get_elem?,
}
use gogame.Text.{Text, equals, codes, to_lower}
use gogame.Text.Keyed
use gogame.CsvTable.{
  Floats, FieldType, Basic, Value, word, float, text, truth, words, floats, texts, zero_value,
  Setting, stored, skipped, failed, panics, set_value,
}

-- The struct's field: its name, its `csv` tag or the empty text, its type, and whether reflection may
-- set it.
pub record Field : Type 0 where
  pub name : Text
  pub tag : Text
  pub field_type : FieldType
  pub exported : Bool

pub record CsvTable : Type 0 where
  pub key_map : List (Text × ℕ)
  pub records : List (List Text)

unfoldable pub fill_key_map : ℕ → List Text → List (Text × ℕ) → List (Text × ℕ)
unfolding to_lower Keyed.insert
fill_key_map index [] key_map = key_map
fill_key_map index (name ∷ names) key_map =
    fill_key_map (suc index) names (Keyed.insert (to_lower name) index key_map)

unfoldable pub rows_fit : ℕ → List (List Text) → Bool
rows_fit len [] = true
rows_fit len (row ∷ rows) = if length row == len then rows_fit len rows else false

abbrev pub checked : List (Text × ℕ) → List (List Text) → CsvTable → CsvTable × Bool
checked key_map rows c =
    if rows_fit (length key_map) rows
    then (record { key_map = key_map; records = rows }, true)
    else (record { key_map = key_map; records = c.records }, false)

-- The flag tells whether there was no error.
unfoldable pub load : Option (List (List Text)) → CsvTable → CsvTable × Bool
unfolding fill_key_map rows_fit
load none c = (c, false)
load (some []) c = (c, false)
load (some (names ∷ rows)) c = checked (fill_key_map 0 names []) rows c

-- The zero value of a type.
abbrev pub zero_of_basic : Basic → Value
zero_of_basic Basic.float32 = float 0
zero_of_basic Basic.float64 = float 0
zero_of_basic Basic.string = text []
zero_of_basic Basic.bool = truth false
zero_of_basic _ = word 0

abbrev pub zero_of_slice : Basic → Value
zero_of_slice Basic.string = texts []
zero_of_slice Basic.bool = zero_value
zero_of_slice Basic.float32 = floats []
zero_of_slice Basic.float64 = floats []
zero_of_slice _ = words []

unfoldable pub zero_of : FieldType → Value
zero_of (FieldType.basic b) = zero_of_basic b
zero_of (FieldType.slice b) = zero_of_slice b
zero_of _ = zero_value

abbrev pub is_ignored : Text → Bool
is_ignored tag =
    equals tag (codes "-") || (equals tag (codes "_") || equals tag (codes "omitempty"))

abbrev pub tag_or_name : Text → Text → Text
tag_or_name [] name = name
tag_or_name (b ∷ tag) name = b ∷ tag

-- The value of a field, or a panic.
abbrev pub settled : Bool → Value → Setting → Option Value
settled exported old panics = none
settled exported old skipped = some old
settled exported old failed = some old
settled true old (stored v) = some v
settled false old (stored v) = none

-- The field's cell: `record[keyIdx]` panics out of range.
abbrev pub set_from : Floats → Field → Option Text → Option Value
set_from env f none = none
set_from env f (some cell) =
    settled f.exported (zero_of f.field_type) (set_value env f.field_type cell)

abbrev pub set_at : Floats → Field → Option ℕ → List Text → Option Value
set_at env f none row = some (zero_of f.field_type)
set_at env f (some index) row = set_from env f (get_elem? row index)

abbrev pub set_field : Floats → List (Text × ℕ) → Field → List Text → Option Value
set_field env key_map f row =
    if is_ignored f.tag
    then some (zero_of f.field_type)
    else set_at env f (Keyed.lookup (to_lower (tag_or_name f.tag f.name)) key_map) row

abbrev pub add_value : Option Value → Option (List Value) → Option (List Value)
add_value (some v) (some values) = some (v ∷ values)
add_value _ _ = none

-- `setRowValue` on a new struct; its errors are logged.
unfoldable pub set_row_value :
    Floats → List (Text × ℕ) → List Field → List Text → Option (List Value)
unfolding zero_of equals set_value to_lower Keyed.lookup
set_row_value env key_map [] row = some []
set_row_value env key_map (f ∷ fields) row =
    add_value (set_field env key_map f row) (set_row_value env key_map fields row)

-- What becomes of `Unmarshal`: the rows by their keys, the last one of a key first; an error keeps the
-- rows before it; a panic.
pub data Unmarshalled : Type 0 where
  done : List (Value × List Value) → Unmarshalled
  key_failed : List (Value × List Value) → Unmarshalled
  unmarshal_panics : Unmarshalled

abbrev pub Rows : Type 0
Rows = List (Value × List Value)

abbrev pub with_row : Value → Option (List Value) → (Rows → Unmarshalled) → Rows → Unmarshalled
with_row key none rest rows = unmarshal_panics
with_row key (some values) rest rows = rest ((key, values) ∷ rows)

-- The error of the first cell ends the loop.
abbrev pub with_key :
    FieldType → Setting → Option (List Value) → (Rows → Unmarshalled) → Rows → Unmarshalled
with_key key_type panics values rest rows = unmarshal_panics
with_key key_type failed values rest rows = key_failed rows
with_key key_type skipped values rest rows = with_row (zero_of key_type) values rest rows
with_key key_type (stored key) values rest rows = with_row key values rest rows

-- `line[0]` panics on an empty line.
abbrev pub first_cell : Floats → FieldType → List Text → Setting
first_cell env key_type [] = panics
first_cell env key_type (cell ∷ row) = set_value env key_type cell

unfoldable pub unmarshal_rows :
    Floats → FieldType → List Field → List (Text × ℕ) → List (List Text) → Rows → Unmarshalled
unfolding set_row_value
unmarshal_rows env key_type fields key_map [] rows = done rows
unmarshal_rows env key_type fields key_map (row ∷ records) rows =
    with_key key_type (first_cell env key_type row) (set_row_value env key_map fields row)
      (unmarshal_rows env key_type fields key_map records) rows

-- Into a map with these types; `none` is an argument that is not a map, or nil.
unfoldable pub unmarshal :
    Floats → FieldType → List Field → Option Rows → CsvTable → Option Unmarshalled
unfolding unmarshal_rows
unmarshal env key_type fields none c = none
unmarshal env key_type fields (some rows) c =
    some (unmarshal_rows env key_type fields c.key_map c.records rows)
