-- ===== src/CsvTable.antt =====
-- The table of base/csvtable/table.go, whose rows are set by reflection. A Go type is a `FieldType`, a
-- struct the list of its fields, and a value of one a list of `Value`s. `strconv.ParseFloat` and the
-- narrowing of a float64 come from `Floats`; a float is its bit pattern.
pub mod Rows
pub mod Typed
pub mod Columns
pub mod Unmarshal
pub mod Loaded
pub mod Printed
mod Tests
use gogame.Common.{
  ℕ, ◌+◌, ◌%◌, ◌^◌, Bool, true, false, List, [], ◌∷◌, Option, none, some, if◌then◌else◌, map,
}
use gogame.Text.{Text, equals, codes, trim, split, to_lower}
use gogame.Text.Numbers.{atoi}

pub record Floats : Type 0 where
  pub parse_float : Text → Option ℕ
  pub to_float32 : ℕ → ℕ

pub data Basic : Type 0 where
  int int8 int16 int32 int64 uint uint8 uint16 uint32 uint64 float32 float64 string bool : Basic

-- What `Type().String()` tells apart; `unsupported` is every other type but a pointer.
pub data FieldType : Type 0 where
  basic : Basic → FieldType
  slice : Basic → FieldType
  pointer : FieldType → FieldType
  unsupported : FieldType

-- Words are bit patterns of the width of their type.
pub data Value : Type 0 where
  word : ℕ → Value
  float : ℕ → Value
  text : Text → Value
  truth : Bool → Value
  words : List ℕ → Value
  floats : List ℕ → Value
  texts : List Text → Value
  zero_value : Value

-- `[]T` with the values so far, and whether there was no error.
abbrev pub Parsed : Type 0
Parsed = List ℕ × Bool

-- `StringArray.ToString`
abbrev pub split_list : Text → List Text
split_list [] = []
split_list (b ∷ s) = split b',' (b ∷ s)

unfoldable pub to_string : Text → List Text
unfolding trim split
to_string s = split_list (trim (codes " []{}") s)

abbrev pub add_first : ℕ → Parsed → Parsed
add_first v (values, done) = (v ∷ values, done)

abbrev pub parsed_then : Option ℕ → Parsed → Parsed
parsed_then none rest = ([], false)
parsed_then (some v) rest = add_first v rest

unfoldable pub parse_all : (Text → Option ℕ) → List Text → Parsed
parse_all parse [] = ([], true)
parse_all parse (s ∷ strs) = parsed_then (parse s) (parse_all parse strs)

unfoldable pub to_int : Text → Parsed
unfolding to_string parse_all
to_int s = parse_all atoi (to_string s)

-- `ToUint8` and the others: a conversion of each value.
abbrev pub converted : (ℕ → ℕ) → Parsed → Parsed
converted convert (values, true) = (map convert values, true)
converted convert (values, false) = ([], false)

unfoldable pub to_words : ℕ → Text → Parsed
unfolding to_int
to_words width s = converted (λ v. v % 2 ^ width) (to_int s)

unfoldable pub to_float64 : Floats → Text → Parsed
unfolding to_string parse_all
to_float64 env s = parse_all env.parse_float (to_string s)

abbrev pub narrowed : (ℕ → ℕ) → Option ℕ → Option ℕ
narrowed narrow none = none
narrowed narrow (some x) = some (narrow x)

unfoldable pub to_float32_list : Floats → Text → Parsed
unfolding to_string parse_all
to_float32_list env s =
    parse_all (λ str. narrowed env.to_float32 (env.parse_float str)) (to_string s)

-- A field is set, or left alone, with no error or with one; reflection may panic.
pub data Setting : Type 0 where
  stored : Value → Setting
  skipped failed panics : Setting

-- The number of an empty text is 0, its error not reported.
abbrev pub number_or_empty : Option ℕ → Text → Option ℕ
number_or_empty (some n) value = some n
number_or_empty none [] = some 0
number_or_empty none (b ∷ value) = none

abbrev pub store_word : ℕ → Option ℕ → Setting
store_word width none = failed
store_word width (some n) = stored (word (n % 2 ^ width))

-- `fieldSetInt` and `fieldSetUint` store the same bits.
unfoldable pub field_set_int : ℕ → Text → Setting
unfolding atoi
field_set_int width value = store_word width (number_or_empty (atoi value) value)

abbrev pub store_float : (ℕ → ℕ) → Option ℕ → Setting
store_float narrow none = failed
store_float narrow (some x) = stored (float (narrow x))

unfoldable pub field_set_float : Floats → (ℕ → ℕ) → Text → Setting
field_set_float env narrow value =
    store_float narrow (number_or_empty (env.parse_float value) value)

abbrev pub is_one_of : Text → List Text → Bool
is_one_of s [] = false
is_one_of s (name ∷ names) = if equals s name then true else is_one_of s names

abbrev pub true_words : List Text
true_words = codes "true" ∷ codes "yes" ∷ codes "1" ∷ codes "y" ∷ codes "enable" ∷ codes "on" ∷ []

abbrev pub false_words : List Text
false_words =
    codes "false" ∷ codes "no" ∷ codes "0" ∷ codes "n" ∷ codes "disable" ∷ codes "off" ∷ []

unfoldable pub field_set_bool : Text → Setting
unfolding to_lower equals
field_set_bool value =
    if is_one_of (to_lower value) true_words
    then stored (truth true)
    else if is_one_of (to_lower value) false_words
    then stored (truth false)
    else failed

-- An error of a conversion is dropped.
abbrev pub store_words : Parsed → Setting
store_words (values, true) = stored (words values)
store_words (values, false) = skipped

abbrev pub store_floats : Parsed → Setting
store_floats (values, true) = stored (floats values)
store_floats (values, false) = skipped

unfoldable pub field_set_slice : Floats → Basic → Text → Setting
unfolding to_int to_words to_float64 to_float32_list to_string
field_set_slice env Basic.int value = store_words (to_int value)
field_set_slice env Basic.uint32 value = store_words (to_words 32 value)
field_set_slice env Basic.string value = stored (texts (to_string value))
field_set_slice env Basic.float64 value = store_floats (to_float64 env value)
field_set_slice env Basic.uint8 value = store_words (to_words 8 value)
field_set_slice env Basic.int32 value = store_words (to_words 32 value)
field_set_slice env Basic.float32 value = store_floats (to_float32_list env value)
field_set_slice env Basic.int64 value = store_words (to_words 64 value)
field_set_slice env _ value = failed

unfoldable pub field_set_basic : Floats → Basic → Text → Setting
unfolding field_set_int field_set_float field_set_bool
field_set_basic env Basic.int value = field_set_int 64 value
field_set_basic env Basic.int8 value = field_set_int 8 value
field_set_basic env Basic.int16 value = field_set_int 16 value
field_set_basic env Basic.int32 value = field_set_int 32 value
field_set_basic env Basic.int64 value = field_set_int 64 value
field_set_basic env Basic.uint value = field_set_int 64 value
field_set_basic env Basic.uint8 value = field_set_int 8 value
field_set_basic env Basic.uint16 value = field_set_int 16 value
field_set_basic env Basic.uint32 value = field_set_int 32 value
field_set_basic env Basic.uint64 value = field_set_int 64 value
field_set_basic env Basic.float32 value = field_set_float env env.to_float32 value
field_set_basic env Basic.float64 value = field_set_float env (λ x. x) value
field_set_basic env Basic.string value = stored (text value)
field_set_basic env Basic.bool value = field_set_bool value

-- A pointer is nil, and `Indirect` of nil has no type.
unfoldable pub set_value : Floats → FieldType → Text → Setting
unfolding field_set_basic field_set_slice
set_value env (FieldType.basic b) value = field_set_basic env b value
set_value env (FieldType.slice b) value = field_set_slice env b value
set_value env (FieldType.pointer t) value = panics
set_value env FieldType.unsupported value = failed
