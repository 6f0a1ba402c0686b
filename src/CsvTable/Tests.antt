-- ===== src/CsvTable/Tests.antt =====
-- A table of two rows, and the theorems at it.
use gogame.Common.{◌≡◌, ◌^◌, ◌-◌, refl, true, false, List, [], ◌∷◌, some, arith}
use gogame.Text.{Text, codes, trim}
use gogame.Text.Numbers.{atoi}
use gogame.CsvTable.{
  Floats, Basic, FieldType, word, float, text, truth, words, panics, skipped, set_value,
}
use gogame.CsvTable.Rows.{Field, CsvTable, done, load, unmarshal}
use gogame.CsvTable.Loaded.{read_rows, unmarshal-load}

abbrev env : Floats
env = record { parse_float = atoi; to_float32 = λ x. x }

abbrev names : List Text
names = codes "ID" ∷ codes "Name" ∷ codes "levels" ∷ []

abbrev records : List (List Text)
records =
    (codes "7" ∷ codes "sword" ∷ codes "[1,-1,300]" ∷ [])
    ∷ (codes "-1" ∷ codes "bow" ∷ codes "{}" ∷ [])
    ∷ []

abbrev fields : List Field
fields =
    record {
      name = codes "Id";
      tag = [];
      field_type = FieldType.basic Basic.uint8;
      exported = true;
    }
    ∷ record {
      name = codes "Title";
      tag = codes "name";
      field_type = FieldType.basic Basic.string;
      exported = true;
    }
    ∷ record {
      name = codes "Levels";
      tag = [];
      field_type = FieldType.slice Basic.uint8;
      exported = true;
    }
    ∷ record {
      name = codes "Rate";
      tag = codes "-";
      field_type = FieldType.basic Basic.float32;
      exported = true;
    }
    ∷ record {
      name = codes "Unknown";
      tag = [];
      field_type = FieldType.basic Basic.bool;
      exported = true;
    }
    ∷ []

abbrev new_table : CsvTable
new_table = record { key_map = []; records = [] }

abbrev table : CsvTable
table = record {
  key_map = (codes "id", 0) ∷ (codes "name", 1) ∷ (codes "levels", 2) ∷ [];
  records = records;
}

table_is_loaded : load (some (names ∷ records)) new_table ≡ (table, true)
unfolding load
table_is_loaded = refl

-- The uint8 of -1 wraps around.
rows_are_read :
    unmarshal env (FieldType.basic Basic.int) fields (some []) table
    ≡ some (
        done (
          (word (2 ^ 64 - 1), word 255 ∷ text (codes "bow") ∷ words [] ∷ float 0 ∷ truth false ∷ [])
          ∷ (
            word 7,
            word 7 ∷ text (codes "sword") ∷ words (1 ∷ 255 ∷ 44 ∷ []) ∷ float 0 ∷ truth false ∷ [],
          )
          ∷ []))
unfolding unmarshal trim
rows_are_read = refl

-- A pointer, and a list with a bad element.
pointer_panics : set_value env (FieldType.pointer (FieldType.basic Basic.int)) (codes "1") ≡ panics
unfolding set_value
pointer_panics = refl

bad_element : set_value env (FieldType.slice Basic.int) (codes "1,x") ≡ skipped
unfolding set_value trim
bad_element = refl

unmarshal-load_example :
    unmarshal env (FieldType.basic Basic.int) fields (some []) table
    ≡ some (read_rows env (FieldType.basic Basic.int) fields names records [])
unmarshal-load_example =
    unmarshal-load env (FieldType.basic Basic.int) fields names records new_table table []
      table_is_loaded (omega arith) (omega arith)
      ((refl, tt), ((refl, tt), ((refl, tt), ((refl, tt), ((refl, tt), tt))))) tt
