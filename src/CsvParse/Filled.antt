-- ===== src/CsvParse/Filled.antt =====
-- A table of values that were written by `getFieldAsString` is read by LoadCSVArr.
use gogame.Common.{
  ℕ, ◌≡◌, ◌≢◌, refl, sym, ap, ◌∙◌, true, false, List, [], ◌∷◌, ◌++◌, none, some, if◌then◌else◌,
  ◌==◌, ==-refl, map, length, inl, inr, Bool-cases, arith, All, All-map,
}
use mathlib.Core.List.{append-nil, append_assoc}
use gogame.Text.{Text, to_lower, lower_byte, trim_space, spaces, is_in, equals}
use gogame.Text.Keyed
use gogame.Text.Trimmed.{equals_refl, equals→≡, trim-free}
use gogame.CsvTable.{Basic}
use gogame.CsvParse.{Env, basic_type, Scalar, set_elem, get_elem_as_string, is_word}
use gogame.CsvParse.Restored.{IsExact, set_elem-get_elem_as_string}
use gogame.CsvParse.Lines.{
  plain, one, StructField, FieldInfo, get_struct_info, set_field, parse_line, line_data, Rows,
  append_row, load_lines, load_csv_arr,
}

-- A struct of fields without tags, and the header with their names in lower case.
abbrev pub Columns : Type 0
Columns = List (Text × Basic)

abbrev pub fields_of : Columns → List StructField
fields_of [] = []
fields_of ((name, b) ∷ columns) =
    record { name = name; tag = []; field_type = plain (basic_type b); settable = true }
    ∷ fields_of columns

abbrev pub header_of : Columns → List Text
header_of [] = []
header_of ((name, b) ∷ columns) = to_lower name ∷ header_of columns

-- Names that differ in lower case and have no blanks.
abbrev pub AreKeys : Columns → Type 0
AreKeys [] = Unit {0}
AreKeys ((name, b) ∷ columns) =
    All (λ c. is_in c spaces ≡ false) (to_lower name)
    × All (λ key. to_lower name ≢ key) (header_of columns)
    × AreKeys columns

-- A line has the texts of the values; none of them has blanks around it.
abbrev pub IsLine : Env → Columns → List Scalar → List Text → Type 0
IsLine env [] [] [] = Unit {0}
IsLine env ((name, b) ∷ columns) (v ∷ values) (s ∷ line) =
    IsExact b v
    × (get_elem_as_string env (basic_type b) v ≡ some s)
    × (trim_space s ≡ s)
    × IsLine env columns values line
IsLine env _ _ _ = ⊥

abbrev pub AreLines : Env → Columns → List (List Scalar) → List (List Text) → Type 0
AreLines env columns [] [] = Unit {0}
AreLines env columns (values ∷ rows) (line ∷ lines) =
    IsLine env columns values line × AreLines env columns rows lines
AreLines env columns _ _ = ⊥

lower_byte_twice : (b : ℕ) → lower_byte (lower_byte b) ≡ lower_byte b
lower_byte_twice b = ground arith

to_lower_twice : (s : Text) → to_lower (to_lower s) ≡ to_lower s
unfolding to_lower
to_lower_twice [] = refl
to_lower_twice (b ∷ s) = rw (lower_byte_twice b, to_lower_twice s) refl

-- The key that a line's map has for a name of the header.
key_trimmed :
    (name : Text)
    → All (λ c. is_in c spaces ≡ false) (to_lower name)
    → trim_space (to_lower (to_lower name)) ≡ to_lower name
key_trimmed name h = rw (to_lower_twice name) (trim-free spaces (to_lower name) h)

infos_of : Columns → List Text → List FieldInfo
infos_of [] keys = []
infos_of ((name, b) ∷ columns) keys =
    record {
      field_name = name;
      key = to_lower name;
      omit_empty = false;
      single = is_word (to_lower name) keys;
      field_type = plain (basic_type b);
    }
    ∷ infos_of columns keys

get_struct_info-columns :
    (columns : Columns) (keys : List Text)
    → get_struct_info (fields_of columns) keys ≡ infos_of columns keys
unfolding get_struct_info infos_of
get_struct_info-columns [] keys = refl
get_struct_info-columns ((name, b) ∷ columns) keys = rw (get_struct_info-columns columns keys) refl

is_word-cons :
    (k key : Text) (keys : List Text) → is_word k keys ≡ true → is_word k (key ∷ keys) ≡ true
is_word-cons k key keys h = elim (Bool-cases (equals k key)) [ inl e ↦ rw e refl | inr e ↦ rw e h ]

-- Every name is one of the header.
are_words :
    (columns : Columns) → All (λ k. is_word k (header_of columns) ≡ true) (header_of columns)
are_words [] = tt
are_words ((name, b) ∷ columns) = (
  rw (equals_refl (to_lower name)) refl,
  All-map (λ k. is_word k (header_of columns) ≡ true)
      (λ k. is_word k (to_lower name ∷ header_of columns) ≡ true)
      (λ k. is_word-cons k (to_lower name) (header_of columns)) (header_of columns)
      (are_words columns),
)

differs : (k key : Text) → key ≢ k → equals key k ≡ false
differs k key h = elim (Bool-cases (equals key k)) [
  | inl e ↦ absurd (h (equals→≡ key k e))
  | inr e ↦ e
]

module _ (env : Env) where
  -- A cell is found under its own name.
  lookup-later :
      (k : Text) (columns : Columns) (values : List Scalar) (line : List Text)
      (cells : List (Text × Text))
      → AreKeys columns
      → IsLine env columns values line
      → All (λ key. k ≢ key) (header_of columns)
      → Keyed.lookup k (line_data (header_of columns) line cells) ≡ Keyed.lookup k cells
  unfolding line_data
  lookup-later k [] values line cells keys is_line h = refl
  lookup-later k ((name, b) ∷ columns) [] line cells keys is_line h = absurd is_line
  lookup-later k ((name, b) ∷ columns) (v ∷ values) [] cells keys is_line h = absurd is_line
  lookup-later k ((name, b) ∷ columns) (v ∷ values) (s ∷ line) cells keys is_line h =
      lookup-later k columns values line
        (Keyed.insert (trim_space (to_lower (to_lower name))) (trim_space s) cells) keys.2 is_line.3
        h.1
      ∙ ap (λ key. Keyed.lookup k (Keyed.insert key (trim_space s) cells)) (key_trimmed name keys.0)
      ∙ Keyed.lookup-insert k (to_lower name) (trim_space s) cells
      ∙ (rw (differs k (to_lower name) (λ e. h.0 (sym e))) refl)

  AreFound : Columns → List Text → List (Text × Text) → Type 0
  AreFound [] line cells = Unit {0}
  AreFound ((name, b) ∷ columns) [] cells = ⊥
  AreFound ((name, b) ∷ columns) (s ∷ line) cells =
      (Keyed.lookup (to_lower name) cells ≡ some s) × AreFound columns line cells

  line_data-AreFound :
      (columns : Columns) (values : List Scalar) (line : List Text) (cells : List (Text × Text))
      → AreKeys columns
      → IsLine env columns values line
      → AreFound columns line (line_data (header_of columns) line cells)
  unfolding line_data AreFound
  line_data-AreFound [] values line cells keys is_line = tt
  line_data-AreFound ((name, b) ∷ columns) [] line cells keys is_line = absurd is_line
  line_data-AreFound ((name, b) ∷ columns) (v ∷ values) [] cells keys is_line = absurd is_line
  line_data-AreFound ((name, b) ∷ columns) (v ∷ values) (s ∷ line) cells keys is_line = (
    lookup-later (to_lower name) columns values line
          (Keyed.insert (trim_space (to_lower (to_lower name))) (trim_space s) cells) keys.2
          is_line.3 keys.1
        ∙ ap (λ key. Keyed.lookup (to_lower name) (Keyed.insert key (trim_space s) cells))
            (key_trimmed name keys.0)
        ∙ Keyed.lookup-insert (to_lower name) (to_lower name) (trim_space s) cells
        ∙ (rw (equals_refl (to_lower name)) (ap some is_line.2)),
    line_data-AreFound columns values line
        (Keyed.insert (trim_space (to_lower (to_lower name))) (trim_space s) cells) keys.2
        is_line.3,
  )

  set_again :
      (b : Basic) (v : Scalar) (s : Text)
      → IsExact b v
      → get_elem_as_string env (basic_type b) v ≡ some s
      → set_elem env (basic_type b) s ≡ some v
  set_again b v s exact e =
      let (s', e', same) = set_elem-get_elem_as_string env (basic_type b) v exact in
      let eq : s ≡ s' = cc in rw eq same

  parse_line-values :
      (columns : Columns) (values : List Scalar) (line : List Text) (cells : List (Text × Text))
      (keys : List Text)
      → IsLine env columns values line
      → AreFound columns line cells
      → All (λ k. is_word k keys ≡ true) (header_of columns)
      → parse_line env (infos_of columns keys) cells ≡ some (map one values)
  unfolding parse_line infos_of AreFound set_field
  parse_line-values [] [] [] cells keys is_line found words = refl
  parse_line-values [] [] (s ∷ line) cells keys is_line found words = absurd is_line
  parse_line-values [] (v ∷ values) line cells keys is_line found words = absurd is_line
  parse_line-values ((name, b) ∷ columns) [] line cells keys is_line found words = absurd is_line
  parse_line-values ((name, b) ∷ columns) (v ∷ values) [] cells keys is_line found words =
      absurd is_line
  parse_line-values ((name, b) ∷ columns) (v ∷ values) (s ∷ line) cells keys is_line found words =
      rw
        (
          words.0,
          found.0,
          set_again b v s is_line.0 is_line.1,
          parse_line-values columns values line cells keys is_line.3 found.1 words.1,
        )
        refl

  length-IsLine :
      (columns : Columns) (values : List Scalar) (line : List Text)
      → IsLine env columns values line
      → length line ≡ length (header_of columns)
  length-IsLine [] [] [] h = refl
  length-IsLine [] [] (s ∷ line) h = absurd h
  length-IsLine [] (v ∷ values) line h = absurd h
  length-IsLine ((name, b) ∷ columns) [] line h = absurd h
  length-IsLine ((name, b) ∷ columns) (v ∷ values) [] h = absurd h
  length-IsLine ((name, b) ∷ columns) (v ∷ values) (s ∷ line) h =
      omega (arith, length-IsLine columns values line h.3)

  module _ (columns : Columns) (keys : AreKeys columns) where
    parse_line-line :
        (values : List Scalar) (line : List Text)
        → IsLine env columns values line
        → (if length line == length (header_of columns)
            then parse_line env
                (infos_of columns (header_of columns))
                (line_data (header_of columns) line [])
            else none)
          ≡ some (map one values)
    parse_line-line values line h =
        rw (length-IsLine columns values line h, ==-refl (length (header_of columns)))
          (parse_line-values columns values line (line_data (header_of columns) line [])
            (header_of columns) h (line_data-AreFound columns values line [] keys h)
            (are_words columns))

    load_lines-values :
        (table : List (List Scalar)) (lines : List (List Text)) (rows : Rows)
        → AreLines env columns table lines
        → load_lines env (infos_of columns (header_of columns)) (header_of columns) lines rows
          ≡ (rows ++ map (map one) table, true)
    unfolding load_lines
    load_lines-values [] [] rows h = ap (λ r. (r, true)) (sym (append-nil rows))
    load_lines-values [] (line ∷ lines) rows h = absurd h
    load_lines-values (values ∷ table) [] rows h = absurd h
    load_lines-values (values ∷ table) (line ∷ lines) rows h =
        ap
          (λ row.
            append_row row
              (load_lines env (infos_of columns (header_of columns)) (header_of columns) lines)
              rows)
          (parse_line-line values line h.0)
        ∙ load_lines-values table lines (rows ++ map one values ∷ []) h.1
        ∙ ap (λ r. (r, true)) (append_assoc rows (map one values ∷ []) (map (map one) table))

-- For a struct whose fields have no tags, can be set and are of basic types that are no floats, with
-- names that differ in lower case and have no blanks there: LoadCSVArr, under the header of these names
-- in lower case, reads lines of the texts that `getFieldAsString` makes of values that fit their types,
-- none of which has blanks around it. It appends the values to the slice, in order, without an error.
pub load_csv_arr-written :
    (env : Env) (columns : Columns) (table : List (List Scalar)) (lines : List (List Text))
    (rows : Rows)
    → AreKeys columns
    → AreLines env columns table lines
    → load_csv_arr env (some (fields_of columns)) (some (header_of columns ∷ lines)) rows
      ≡ (rows ++ map (map one) table, true)
unfolding load_csv_arr
load_csv_arr-written env columns table lines rows keys h =
    ap (λ infos. load_lines env infos (header_of columns) lines rows)
      (get_struct_info-columns columns (header_of columns))
    ∙ load_lines-values env columns keys table lines rows h
