-- ===== src/CsvParse/Maps.antt =====
-- LoadCSVMap of common/csvparse/loadCSV.go. A map of maps is the rows by the paths of their keys, the
-- newest first, so that a row hides an older one of the same path; the maps' key types are those of the
-- fields. A panic is an error, as the deferred recover makes it.
use gogame.Common.{
  ◌≡◌, refl, ◌∙◌, Bool, true, false, List, [], ◌∷◌, ◌++◌, Option, none, some, if◌then◌else◌,
}
use mathlib.Core.List.{append_assoc}
use gogame.Text.{Text, equals, to_lower}
use gogame.CsvParse.{Env, equal_fold, map_option}
use gogame.CsvParse.Lines.{
  Value, StructField, FieldInfo, get_struct_info, initial, Rows, load_csv_arr,
}

-- The type of the argument: a map, a struct or a pointer to one, or another.
pub data MapType : Type 0 where
  map_of : MapType → MapType
  struct_elem : List StructField → MapType
  other_type : MapType

-- One map for each key.
unfoldable pub element_of : List Text → MapType → Option MapType
element_of [] t = some t
element_of (key ∷ keys) (map_of t) = element_of keys t
element_of (key ∷ keys) t = none

-- The first field whose name is the key, whatever the case.
unfoldable pub find_field : Text → List StructField → Option StructField
unfolding equals to_lower
find_field key [] = none
find_field key (f ∷ fields) = if equal_fold f.name key then some f else find_field key fields

abbrev pub add_field : Option StructField → Option (List StructField) → Option (List StructField)
add_field (some f) (some fields) = some (f ∷ fields)
add_field _ _ = none

unfoldable pub resolve_keys : List Text → List StructField → Option (List StructField)
unfolding find_field
resolve_keys [] fields = some []
resolve_keys (key ∷ keys) fields = add_field (find_field key fields) (resolve_keys keys fields)

-- The fields of the element, and those of the keys.
abbrev pub resolved : List Text → Option MapType → Option (List StructField × List StructField)
resolved keys (some (struct_elem fields)) =
    map_option (λ key_fields. (fields, key_fields)) (resolve_keys keys fields)
resolved keys _ = none

unfoldable pub ensure_type : List Text → MapType → Option (List StructField × List StructField)
unfolding element_of resolve_keys
ensure_type [] t = none
ensure_type (key ∷ keys) (map_of t) = resolved (key ∷ keys) (element_of keys t)
ensure_type (key ∷ keys) t = none

-- `FieldByName`, of a row that has the values of its `FieldInfo`s; a field that was left out has its zero
-- value.
unfoldable pub field_by_name : StructField → List FieldInfo → List Value → Value
unfolding equals
field_by_name f (info ∷ infos) (v ∷ values) =
    if equals info.field_name f.name then v else field_by_name f infos values
field_by_name f _ _ = initial f.field_type

unfoldable pub path_of : List StructField → List FieldInfo → List Value → List Value
unfolding field_by_name
path_of [] infos row = []
path_of (f ∷ keys) infos row = field_by_name f infos row ∷ path_of keys infos row

abbrev pub Entries : Type 0
Entries = List (List Value × List Value)

-- `convertToMap`, and the loop over the rows.
unfoldable pub convert_to_map : List StructField → List FieldInfo → List Value → Entries → Entries
unfolding path_of
convert_to_map keys infos row entries = (path_of keys infos row, row) ∷ entries

unfoldable pub convert_all : List StructField → List FieldInfo → Rows → Entries → Entries
unfolding convert_to_map
convert_all keys infos [] entries = entries
convert_all keys infos (row ∷ rows) entries =
    convert_all keys infos rows (convert_to_map keys infos row entries)

abbrev pub header_or_empty : Option (List (List Text)) → List Text
header_or_empty (some (header ∷ lines)) = header
header_or_empty _ = []

abbrev pub converted : List StructField → List FieldInfo → Rows × Bool → Entries → Entries × Bool
converted keys infos (rows, true) entries = (convert_all keys infos rows entries, true)
converted keys infos (rows, false) entries = (entries, false)

abbrev pub load_typed :
    Env
    → Option (List StructField × List StructField)
    → Option (List (List Text))
    → Entries
    → Entries × Bool
load_typed env none records entries = (entries, false)
load_typed env (some (fields, keys)) records entries =
    converted keys (get_struct_info fields (header_or_empty records))
      (load_csv_arr env (some fields) records []) entries

-- With the keys `Key` and `OptionKeys`; the flag tells whether there was no error.
unfoldable pub load_csv_map :
    Env → MapType → List Text → Option (List (List Text)) → Entries → Entries × Bool
unfolding ensure_type load_csv_arr get_struct_info convert_all
load_csv_map env t keys records entries = load_typed env (ensure_type keys t) records entries

-- An error leaves the map as it was: no row is stored unless all are read.
converted-failed :
    (keys : List StructField) (infos : List FieldInfo) (read : Rows × Bool)
    (entries after : Entries)
    → converted keys infos read entries ≡ (after, false)
    → after ≡ entries
converted-failed keys infos (rows, true) entries after e = absurd cc
converted-failed keys infos (rows, false) entries after e = cc

pub load_csv_map-failed :
    (env : Env) (t : MapType) (keys : List Text) (records : Option (List (List Text)))
    (entries after : Entries)
    → load_csv_map env t keys records entries ≡ (after, false)
    → after ≡ entries
unfolding load_csv_map
load_csv_map-failed env t keys records entries after e = load_typed-failed (ensure_type keys t) e
  where
    load_typed-failed :
        (o : Option (List StructField × List StructField))
        → load_typed env o records entries ≡ (after, false)
        → after ≡ entries
    load_typed-failed none e = cc
    load_typed-failed (some (fields, key_fields)) e =
        converted-failed key_fields (get_struct_info fields (header_or_empty records))
          (load_csv_arr env (some fields) records []) entries after e

-- Every row is stored under the path of its keys, over what the map had.
abbrev pub stored_rows : List StructField → List FieldInfo → Rows → Entries
stored_rows keys infos [] = []
stored_rows keys infos (row ∷ rows) =
    stored_rows keys infos rows ++ (path_of keys infos row, row) ∷ []

pub convert_all-stored :
    (keys : List StructField) (infos : List FieldInfo) (rows : Rows) (entries : Entries)
    → convert_all keys infos rows entries ≡ stored_rows keys infos rows ++ entries
unfolding convert_all
convert_all-stored keys infos [] entries = refl
convert_all-stored keys infos (row ∷ rows) entries =
    convert_all-stored keys infos rows ((path_of keys infos row, row) ∷ entries)
    ∙ rw (append_assoc (stored_rows keys infos rows) ((path_of keys infos row, row) ∷ []) entries)
        refl
