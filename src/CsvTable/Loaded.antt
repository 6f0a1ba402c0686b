-- ===== src/CsvTable/Loaded.antt =====
-- `Unmarshal` of a table that was loaded reads each row by the names in the header, and does not panic.
use gogame.Common.{
  ℕ, ◌<◌, ◌≡◌, refl, ap, ◌∙◌, inl, inr, true, List, [], ◌∷◌, map, some, Bool-cases, length, arith,
  All,
}
use gogame.Text.{Text}
use gogame.CsvTable.{Floats, FieldType, Value, Setting, stored, skipped, failed, panics}
use gogame.CsvTable.Typed.{HasType, IsNoPointer, Stores, set_value-Stores}
use gogame.CsvTable.Columns.{IsSettable, field_value, set_row_value-columns}
use gogame.CsvTable.Rows.{
  Field, CsvTable, fill_key_map, rows_fit, load, checked, zero_of, Rows, Unmarshalled, done,
  key_failed, with_key, first_cell, unmarshal_rows, unmarshal,
}

-- A loaded table has the header's map and the rows below it.
checked-eq :
    (key_map : List (Text × ℕ)) (rows : List (List Text)) (c loaded : CsvTable)
    → checked key_map rows c ≡ (loaded, true)
    → (loaded.key_map ≡ key_map) × (loaded.records ≡ rows)
checked-eq key_map rows c loaded e = elim (Bool-cases (rows_fit (length key_map) rows)) [
  | inl fit ↦ (let e' = rw fit at e in ground arith)
  | inr unfit ↦ absurd (let e' = rw unfit at e in cc)
]

-- The rows by an independent reading: the first cell gives the key, and each field has the cell of its
-- column, whatever the map of indexes is.
abbrev key_or : Value → Setting → Value
key_or old (stored key) = key
key_or old _ = old

module _ (env : Floats) (key_type : FieldType) (fields : List Field) (names : List Text) where
  -- The rows are read until a key fails; the newest comes first.
  abbrev pub read_row : Setting → List Text → (Rows → Unmarshalled) → Rows → Unmarshalled
  read_row failed row rest rows = key_failed rows
  read_row s row rest rows =
      rest ((key_or (zero_of key_type) s, map (field_value env names row) fields) ∷ rows)

  unfoldable pub read_rows : List (List Text) → Rows → Unmarshalled
  read_rows [] rows = done rows
  read_rows (row ∷ records) rows =
      read_row (first_cell env key_type row) row (read_rows records) rows

  with_key-read :
      (s : Setting) (row : List Text) (rest rest' : Rows → Unmarshalled) (rows : Rows)
      → Stores (HasType key_type) s
      → ((r : Rows) → rest r ≡ rest' r)
      → with_key key_type s (some (map (field_value env names row) fields)) rest rows
        ≡ read_row s row rest' rows
  with_key-read panics row rest rest' rows h e = absurd h
  with_key-read failed row rest rest' rows h e = refl
  with_key-read skipped row rest rest' rows h e = e _
  with_key-read (stored key) row rest rest' rows h e = e _

  module _ (settable : All IsSettable fields) (plain_key : IsNoPointer key_type)
      (named : 0 < length names) where
    first_cell-Stores :
        (row : List Text)
        → length row ≡ length names
        → Stores (HasType key_type) (first_cell env key_type row)
    first_cell-Stores [] same = absurd (omega arith)
    first_cell-Stores (cell ∷ row) same = set_value-Stores env key_type cell plain_key

    unmarshal_rows-read :
        (records : List (List Text)) (rows : Rows)
        → All (λ row. length row ≡ length names) records
        → unmarshal_rows env key_type fields (fill_key_map 0 names []) records rows
          ≡ read_rows records rows
    unfolding unmarshal_rows read_rows
    unmarshal_rows-read [] rows h = refl
    unmarshal_rows-read (row ∷ records) rows h =
        rw (set_row_value-columns env names row h.0 fields settable) (
          with_key-read (first_cell env key_type row) row
            (unmarshal_rows env key_type fields (fill_key_map 0 names []) records)
            (read_rows records) rows (first_cell-Stores row h.0)
            (λ r. unmarshal_rows-read records r h.1))

-- After `Load` has read a header with a column at least, and records of the header's length:
-- `Unmarshal` into fields that are all exported, and neither a pointer nor put into a map under one,
-- does not panic, and puts the rows into the map that are read by the names of the columns, without the
-- map of indexes.
pub unmarshal-load :
    (env : Floats) (key_type : FieldType) (fields : List Field) (names : List Text)
    (records : List (List Text)) (c loaded : CsvTable) (rows : Rows)
    → load (some (names ∷ records)) c ≡ (loaded, true)
    → All (λ row. length row ≡ length names) records
    → 0 < length names
    → All IsSettable fields
    → IsNoPointer key_type
    → unmarshal env key_type fields (some rows) loaded
      ≡ some (read_rows env key_type fields names records rows)
unfolding load unmarshal
unmarshal-load env key_type fields names records c loaded rows e same named settable plain_key =
    let (header, below) = checked-eq (fill_key_map 0 names []) records c loaded e in
    ap (λ key_map. some (unmarshal_rows env key_type fields key_map loaded.records rows)) header
    ∙ ap (λ r. some (unmarshal_rows env key_type fields (fill_key_map 0 names []) r rows)) below
    ∙ ap some
        (unmarshal_rows-read env key_type fields names settable plain_key named records rows same)
