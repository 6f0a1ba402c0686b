-- ===== src/CsvParse/Lines.antt =====
-- Structs read from the lines of a table: common/csvparse/loadCSV.go, without LoadCSVMap. A map of a
-- field has int32 keys; elements of lists and maps are no pointers. A panic while a line is parsed is
-- an error, as the deferred recover makes it. The list of a line's cells stands in the order in which
-- the map is ranged over, which Go leaves open.
use gogame.Common.{
  ℕ, ◌-◌, ◌%◌, ◌^◌, Bool, true, false, ◌||◌, List, [], ◌∷◌, ◌++◌, Option, none, some, ◌==◌, ltb,
  if◌then◌else◌, map, length,
}
use gogame.Common.Assoc
use gogame.Text.{Text, equals, codes, to_lower, trim_space, trim, split, has_prefix}
use gogame.Text.Keyed
use gogame.Text.Numbers.{parse_unsigned, parse_decimal}
use gogame.CsvTable.{Basic}
use gogame.CsvParse.{
  Env, ElemType, basic_type, renamed, unsupported, Scalar, text, truth, word, float, opaque,
  set_elem, map_option, in_brackets, is_word,
}

pub data FieldType : Type 0 where
  plain : ElemType → FieldType
  pointer : ElemType → FieldType
  slice : ElemType → FieldType
  mapping : ElemType → FieldType
  extended_type : ℕ → FieldType

pub data Value : Type 0 where
  one : Scalar → Value
  nil_pointer : Value
  pointer_to : Scalar → Value
  elements : List Scalar → Value
  entries : List (ℕ × Scalar) → Value
  extended_value : ℕ → Value

pub record StructField : Type 0 where
  pub name : Text
  pub tag : Text
  pub field_type : FieldType
  pub settable : Bool

-- `fieldInfo`, with the type of the field of that name.
pub record FieldInfo : Type 0 where
  pub field_name : Text
  pub key : Text
  pub omit_empty : Bool
  pub single : Bool
  pub field_type : FieldType

abbrev pub is_left_out : Text → Bool
is_left_out tag = equals tag (codes "_") || equals tag (codes "-")

abbrev pub first_part : List Text → Text
first_part [] = []
first_part (part ∷ parts) = part

abbrev pub info_of : StructField → Text → Bool → List Text → FieldInfo
info_of f key omit keys = record {
  field_name = f.name;
  key = key;
  omit_empty = omit;
  single = is_word key keys;
  field_type = f.field_type;
}

-- The tag in lower case: a key and options, or none.
abbrev pub info_by_tag : StructField → Text → List Text → FieldInfo
info_by_tag f [] keys = info_of f (to_lower f.name) false keys
info_by_tag f (b ∷ tag) keys =
    info_of f (first_part (split b',' (b ∷ tag)))
      (is_word (codes "omitempty") (split b',' (b ∷ tag))) keys

abbrev pub field_infos : Bool → FieldInfo → List FieldInfo → List FieldInfo
field_infos true info rest = rest
field_infos false info rest = info ∷ rest

unfoldable pub get_struct_info : List StructField → List Text → List FieldInfo
unfolding equals to_lower split
get_struct_info [] keys = []
get_struct_info (f ∷ fields) keys =
    field_infos (if f.settable then is_left_out (to_lower f.tag) else true)
      (info_by_tag f (to_lower f.tag) keys) (get_struct_info fields keys)

-- `setField`, of a field with this value before.
abbrev pub set_pointer : Env → ElemType → Value → Text → Bool → Option Value
set_pointer env t old [] true = some old
set_pointer env t old s omit = map_option pointer_to (set_elem env t s)

unfoldable pub set_field : Env → FieldType → Value → Text → Bool → Option Value
unfolding set_elem split
set_field env (plain t) old s omit = map_option one (set_elem env t s)
set_field env (pointer t) old s omit = set_pointer env t old s omit
set_field env (slice (basic_type Basic.string)) old s omit =
    some (elements (map text (split b',' s)))
set_field env (slice t) old s omit =
    map_option elements (env.json_elements t (in_brackets s (codes "[") (codes "]")))
set_field env (mapping t) old s omit = none
set_field env (extended_type t) old s omit = none

-- The index behind a key: `Atoi` of what `Trim` leaves, where its error gives 0, or the largest int.
abbrev pub clamped : Option ℕ → Option ℕ
clamped none = none
clamped (some n) = if n == 0 then none else some (if ltb n (2 ^ 63) then n else 2 ^ 63 - 1)

abbrev pub positive_index : Text → Option ℕ
positive_index [] = none
positive_index (b ∷ s) =
    if b == b'-' then none else clamped (parse_unsigned (if b == b'+' then s else b ∷ s))

abbrev pub index_of : Text → Text → Option ℕ
index_of key column = if has_prefix column key then positive_index (trim key column) else none

abbrev pub add_element : FieldType → ℕ → Option Scalar → Value → Option Value
add_element (slice t) index (some v) (elements values) = some (elements (values ++ v ∷ []))
add_element (mapping t) index (some v) (entries values) =
    some (entries (Assoc.insert (index % 2 ^ 32) v values))
add_element _ index v value = none

abbrev pub elem_of : FieldType → ElemType
elem_of (slice t) = t
elem_of (mapping t) = t
elem_of (pointer t) = t
elem_of _ = unsupported

-- Whether a column was found, and the value, or an error.
abbrev pub Inner : Type 0
Inner = Option (Bool × Value)

abbrev pub inner_step : Env → FieldType → Option ℕ → Text → Inner → Inner
inner_step env t none s inner = inner
inner_step env t (some index) s none = none
inner_step env t (some index) s (some (found, value)) =
    map_option (λ v. (true, v)) (add_element t index (set_elem env (elem_of t) s) value)

unfoldable pub inner_loop : Env → FieldInfo → List (Text × Text) → Inner → Inner
unfolding has_prefix trim parse_decimal set_elem Assoc.insert
inner_loop env info [] inner = inner
inner_loop env info ((column, cell) ∷ cells) inner =
    inner_loop env info cells (inner_step env info.field_type (index_of info.key column) cell inner)

abbrev pub found_or_omitted : Bool → Inner → Option Value
found_or_omitted omit none = none
found_or_omitted omit (some (true, v)) = some v
found_or_omitted omit (some (false, v)) = if omit then some v else none

unfoldable pub try_unmarsh_inner_field : Env → FieldInfo → List (Text × Text) → Value → Option Value
unfolding inner_loop
try_unmarsh_inner_field env info cells value =
    found_or_omitted info.omit_empty (inner_loop env info cells (some (false, value)))

-- The value before the line: `tryUnMarshallEx` has replaced a nil pointer, and a map is made.
abbrev pub zero_basic : Basic → Scalar
zero_basic Basic.string = text []
zero_basic Basic.bool = truth false
zero_basic Basic.float32 = float 0
zero_basic Basic.float64 = float 0
zero_basic _ = word 0

abbrev pub zero_elem : ElemType → Scalar
zero_elem (basic_type b) = zero_basic b
zero_elem (renamed b) = zero_basic b
zero_elem _ = opaque 0

abbrev pub initial : FieldType → Value
initial (plain t) = one (zero_elem t)
initial (pointer t) = pointer_to (zero_elem t)
initial (slice t) = elements []
initial (mapping t) = entries []
initial (extended_type t) = extended_value 0

abbrev pub cell_or_empty : Option Text → Text
cell_or_empty none = []
cell_or_empty (some s) = s

abbrev pub parse_by : Env → FieldInfo → FieldType → List (Text × Text) → Option Value
parse_by env info (extended_type t) cells = map_option extended_value (env.unmarshal_ex t cells)
parse_by env info t cells =
    if info.single
    then set_field env t (initial t) (cell_or_empty (Keyed.lookup info.key cells)) info.omit_empty
    else try_unmarsh_inner_field env info cells (initial t)

abbrev pub add_value : Option Value → Option (List Value) → Option (List Value)
add_value (some v) (some values) = some (v ∷ values)
add_value _ _ = none

unfoldable pub parse_line : Env → List FieldInfo → List (Text × Text) → Option (List Value)
unfolding set_field try_unmarsh_inner_field Keyed.lookup
parse_line env [] cells = some []
parse_line env (info ∷ infos) cells =
    add_value (parse_by env info info.field_type cells) (parse_line env infos cells)

-- The map of a line, by the header's names in lower case.
unfoldable pub line_data : List Text → List Text → List (Text × Text) → List (Text × Text)
unfolding to_lower trim Keyed.insert
line_data [] line cells = cells
line_data (name ∷ names) [] cells = cells
line_data (name ∷ names) (cell ∷ line) cells =
    line_data names line (Keyed.insert (trim_space (to_lower name)) (trim_space cell) cells)

abbrev pub Rows : Type 0
Rows = List (List Value)

abbrev pub append_row : Option (List Value) → (Rows → Rows × Bool) → Rows → Rows × Bool
append_row none rest rows = (rows, false)
append_row (some row) rest rows = rest (rows ++ row ∷ [])

unfoldable pub load_lines : Env → List FieldInfo → List Text → List (List Text) → Rows → Rows × Bool
unfolding parse_line line_data
load_lines env infos header [] rows = (rows, true)
load_lines env infos header (line ∷ lines) rows =
    append_row
      (if length line == length header
        then parse_line env infos (line_data header line [])
        else none)
      (load_lines env infos header lines) rows

-- The records of the csv reader, or none; a struct's fields, or none for another type. The rows are
-- appended to the slice, and the flag tells whether there was no error.
unfoldable pub load_csv_arr :
    Env → Option (List StructField) → Option (List (List Text)) → Rows → Rows × Bool
unfolding get_struct_info load_lines
load_csv_arr env fields none rows = (rows, false)
load_csv_arr env fields (some []) rows = (rows, false)
load_csv_arr env none (some (header ∷ lines)) rows = (rows, false)
load_csv_arr env (some fields) (some (header ∷ lines)) rows =
    load_lines env (get_struct_info fields header) header lines rows
