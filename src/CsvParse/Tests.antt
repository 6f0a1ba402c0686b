-- ===== src/CsvParse/Tests.antt =====
-- A table with a word, a flag and a text, and the theorems at it.
use gogame.Common.{◌≡◌, ◌-◌, ◌^◌, refl, true, false, List, [], ◌∷◌, map, none, some, arith}
use gogame.Text.{Text, codes, trim, to_lower, is_in}
use gogame.Text.Literals.{parse_int, parse_uint}
use gogame.CsvTable.{Basic}
use gogame.CsvParse.{
  Env, basic_type, renamed, Scalar, text, truth, word, set_elem, get_elem_as_string,
}
use gogame.CsvParse.Restored.{set_elem-get_elem_as_string}
use gogame.CsvParse.Lines.{
  pointer, slice, mapping, one, pointer_to, elements, entries, load_csv_arr,
}
use gogame.CsvParse.Maps.{map_of, struct_elem, load_csv_map}
use gogame.CsvParse.Filled.{Columns, fields_of, header_of, AreKeys, AreLines, load_csv_arr-written}

abbrev env : Env
env = record {
  parse_float = λ s. none;
  format_float = λ bits x. [];
  to_float32 = λ x. x;
  is_zero_float = λ x. false;
  int_of_float = λ x. x;
  uint_of_float = λ x. x;
  float_of_int = λ n. n;
  float_of_uint = λ n. n;
  unmarshal_text = λ t s. some t;
  marshal_text = λ t n. some [];
  json = λ t s. none;
  json_elements = λ t s. none;
  unmarshal_ex = λ t cells. none;
}

-- Prefixes and underscores.
hexadecimal : parse_int (codes "-0x_1F") ≡ some (2 ^ 64 - 31)
unfolding parse_int
hexadecimal = refl

octal : parse_uint (codes "0_17") ≡ some 15
unfolding parse_uint
octal = refl

two_underscores : parse_uint (codes "1__0") ≡ none
unfolding parse_uint
two_underscores = refl

abbrev columns : Columns
columns = (codes "Id", Basic.int8) ∷ (codes "Open", Basic.bool) ∷ (codes "Name", Basic.string) ∷ []

abbrev table : List (List Scalar)
table = (word 255 ∷ truth true ∷ text (codes "sword") ∷ []) ∷ []

abbrev lines : List (List Text)
lines = (codes "-1" ∷ codes "true" ∷ codes "sword" ∷ []) ∷ []

columns-AreKeys : AreKeys columns
unfolding to_lower is_in
columns-AreKeys = (
  (refl, (refl, tt)),
  ((λ e. ground arith), ((λ e. ground arith), tt)),
  (
    (refl, (refl, (refl, (refl, tt)))),
    ((λ e. ground arith), tt),
    ((refl, (refl, (refl, (refl, tt)))), tt, tt),
  ),
)

lines-AreLines : AreLines env columns table lines
unfolding get_elem_as_string trim
lines-AreLines = ((omega arith, refl, refl, (tt, refl, refl, (tt, refl, refl, tt))), tt)

load_csv_arr-written_example :
    load_csv_arr env (some (fields_of columns)) (some (header_of columns ∷ lines)) []
    ≡ (map (map one) table, true)
load_csv_arr-written_example =
    load_csv_arr-written env columns table lines [] columns-AreKeys lines-AreLines

set_elem-get_elem_as_string_example :
    (s : Text) × (get_elem_as_string env (renamed Basic.int16) (word 40000) ≡ some s)
    × (set_elem env (renamed Basic.int16) s ≡ some (word 40000))
set_elem-get_elem_as_string_example =
    set_elem-get_elem_as_string env (renamed Basic.int16) (word 40000) (omega arith)

-- A header with a capital letter: the column is not found. Columns with an index fill a list and a map.
capital_header :
    load_csv_arr env
      (some (fields_of columns))
      (some ((codes "Id" ∷ codes "open" ∷ codes "name" ∷ []) ∷ lines))
      []
    ≡ ([], false)
unfolding load_csv_arr
capital_header = refl

indexed_columns :
    load_csv_arr env
      (some (
        record {
          name = codes "Params";
          tag = codes "param";
          field_type = slice (basic_type Basic.int32);
          settable = true;
        }
        ∷ record {
          name = codes "ByIndex";
          tag = codes "param";
          field_type = mapping (basic_type Basic.int32);
          settable = true;
        }
        ∷ record {
          name = codes "Next";
          tag = codes "next,omitempty";
          field_type = pointer (basic_type Basic.int32);
          settable = true;
        }
        ∷ []))
      (some (
        (codes "param1" ∷ codes "param2" ∷ codes "next" ∷ [])
        ∷ (codes "7" ∷ codes "9" ∷ [] ∷ [])
        ∷ []))
      []
    ≡ (
      (elements (word 7 ∷ word 9 ∷ [])
            ∷ entries ((1, word 7) ∷ (2, word 9) ∷ [])
            ∷ pointer_to (word 0)
            ∷ [])
          ∷ [],
      true,
    )
unfolding load_csv_arr
indexed_columns = refl

-- Two levels of maps, and a key that no field has.
two_levels :
    load_csv_map env
      (map_of (map_of (struct_elem (fields_of columns))))
      (codes "NAME" ∷ codes "id" ∷ [])
      (some (header_of columns ∷ lines))
      []
    ≡ (
      ((
        one (text (codes "sword")) ∷ one (word 255) ∷ [],
        map one (word 255 ∷ truth true ∷ text (codes "sword") ∷ []),
      )
          ∷ []),
      true,
    )
unfolding load_csv_map trim
two_levels = refl

no_such_key :
    load_csv_map env
      (map_of (struct_elem (fields_of columns)))
      (codes "level" ∷ [])
      (some (header_of columns ∷ lines))
      []
    ≡ ([], false)
unfolding load_csv_map
no_such_key = refl
