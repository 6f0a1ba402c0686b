-- ===== src/CsvParse.antt =====
-- The conversions of common/csvparse/types.go: toString, toBool, toInt, toUint and toFloat, setField and
-- getFieldAsString. A value of any Go type is an `Input`; floats, encoding/json, and the methods
-- UnmarshalCSV, UnmarshalText, UnmarshalCSVEx and String of a type come from `Env`;
-- a float is a number that names its float64 value.
pub mod Lines
pub mod Printed
pub mod Restored
pub mod Filled
pub mod Maps
mod Tests
use gogame.Common.{
  ℕ, ◌+◌, ◌-◌, ◌%◌, ◌^◌, Bool, true, false, ◌||◌, List, [], ◌∷◌, ◌++◌, Option, none, some, ◌==◌,
  ltb, if◌then◌else◌,
}
use gogame.Text.{Text, equals, codes, is_in, to_lower, trim_space, split, has_prefix, print_decimal}
use gogame.Text.Literals.{parse_int, parse_uint}
use gogame.CsvTable.{Basic}

-- What `reflect` tells of a value's kind; words are bit patterns of 64 bits.
pub data Input : Type 0 where
  string_in : Text → Input
  bool_in : Bool → Input
  int_in : ℕ → Input
  uint_in : ℕ → Input
  float32_in : ℕ → Input
  float64_in : ℕ → Input
  other_in : Input

pub data Scalar : Type 0 where
  text : Text → Scalar
  truth : Bool → Scalar
  word : ℕ → Scalar
  float : ℕ → Scalar
  opaque : ℕ → Scalar

-- The type of an element: a basic type or one renamed from it, one with a method for texts, a struct
-- or list that json reads, or another.
pub data ElemType : Type 0 where
  basic_type : Basic → ElemType
  renamed : Basic → ElemType
  custom : ℕ → ElemType
  struct_type : ℕ → ElemType
  list_type : ℕ → ElemType
  unsupported : ElemType

pub record Env : Type 0 where
  pub parse_float : Text → Option ℕ
  pub format_float : ℕ → ℕ → Text
  pub to_float32 : ℕ → ℕ
  pub is_zero_float : ℕ → Bool
  pub int_of_float : ℕ → ℕ
  pub uint_of_float : ℕ → ℕ
  pub float_of_int : ℕ → ℕ
  pub float_of_uint : ℕ → ℕ
  pub unmarshal_text : ℕ → Text → Option ℕ
  pub marshal_text : ℕ → ℕ → Option Text
  pub json : ℕ → Text → Option ℕ
  pub json_elements : ElemType → Text → Option (List Scalar)
  pub unmarshal_ex : ℕ → List (Text × Text) → Option ℕ

-- `%v` of an int64 and of a uint64.
unfoldable pub print_int : ℕ → Text
unfolding print_decimal
print_int n = if ltb n (2 ^ 63) then print_decimal 20 n else b'-' ∷ print_decimal 20 (2 ^ 64 - n)

abbrev pub print_bool : Bool → Text
print_bool true = codes "true"
print_bool false = codes "false"

unfoldable pub to_string : Env → Input → Option Text
unfolding print_int
to_string env (string_in s) = some s
to_string env (bool_in b) = some (print_bool b)
to_string env (int_in n) = some (print_int n)
to_string env (uint_in n) = some (print_decimal 20 n)
to_string env (float32_in x) = some (env.format_float 32 x)
to_string env (float64_in x) = some (env.format_float 64 x)
to_string env other_in = none

-- `strconv.ParseBool`
abbrev pub is_word : Text → List Text → Bool
is_word s [] = false
is_word s (w ∷ words) = if equals s w then true else is_word s words

unfoldable pub parse_bool : Text → Option Bool
unfolding equals
parse_bool s =
    if is_word s
      (codes "1" ∷ codes "t" ∷ codes "T" ∷ codes "TRUE" ∷ codes "true" ∷ codes "True" ∷ [])
    then some true
    else if is_word s
        (codes "0" ∷ codes "f" ∷ codes "F" ∷ codes "FALSE" ∷ codes "false" ∷ codes "False" ∷ [])
    then some false
    else none

-- `EqualFold`, of ASCII texts.
abbrev pub equal_fold : Text → Text → Bool
equal_fold s t = equals (to_lower s) (to_lower t)

unfoldable pub bool_of_text : Text → Option Bool
unfolding equals to_lower parse_bool
bool_of_text s =
    if equal_fold s (codes "yes")
    then some true
    else if equal_fold s (codes "no") || equals s []
    then some false
    else parse_bool s

unfoldable pub to_bool : Env → Input → Option Bool
unfolding bool_of_text
to_bool env (string_in s) = bool_of_text (trim_space s)
to_bool env (bool_in b) = some b
to_bool env (int_in n) = some (if n == 0 then false else true)
to_bool env (uint_in n) = some (if n == 0 then false else true)
to_bool env (float32_in x) = some (if env.is_zero_float x then false else true)
to_bool env (float64_in x) = some (if env.is_zero_float x then false else true)
to_bool env other_in = none

-- `SplitN(s, ".", 2)[0]`
unfoldable pub before_dot : Text → Text
before_dot [] = []
before_dot (b ∷ s) = let rest = before_dot s in if b == b'.' then [] else b ∷ rest

abbrev pub int_of_text : Text → Option ℕ
int_of_text [] = some 0
int_of_text (b ∷ s) = parse_int (before_dot (b ∷ s))

abbrev pub bit_of : Bool → ℕ
bit_of true = 1
bit_of false = 0

unfoldable pub to_int : Env → Input → Option ℕ
unfolding before_dot parse_int
to_int env (string_in s) = int_of_text (trim_space s)
to_int env (bool_in b) = some (bit_of b)
to_int env (int_in n) = some n
to_int env (uint_in n) = some n
to_int env (float32_in x) = some (env.int_of_float x)
to_int env (float64_in x) = some (env.int_of_float x)
to_int env other_in = none

abbrev pub truncated : Env → Option ℕ → Option ℕ
truncated env none = none
truncated env (some x) = some (env.uint_of_float x)

abbrev pub uint_of_text : Env → Text → Option ℕ
uint_of_text env [] = some 0
uint_of_text env (b ∷ s) =
    if is_in b'.' (b ∷ s) then truncated env (env.parse_float (b ∷ s)) else parse_uint (b ∷ s)

unfoldable pub to_uint : Env → Input → Option ℕ
unfolding is_in parse_uint
to_uint env (string_in s) = uint_of_text env (trim_space s)
to_uint env (bool_in b) = some (bit_of b)
to_uint env (int_in n) = some n
to_uint env (uint_in n) = some n
to_uint env (float32_in x) = some (env.uint_of_float x)
to_uint env (float64_in x) = some (env.uint_of_float x)
to_uint env other_in = none

abbrev pub float_of_text : Env → Text → Option ℕ
float_of_text env [] = some 0
float_of_text env (b ∷ s) = env.parse_float (b ∷ s)

unfoldable pub to_float : Env → Input → Option ℕ
to_float env (string_in s) = float_of_text env (trim_space s)
to_float env (bool_in b) = some (env.float_of_uint (bit_of b))
to_float env (int_in n) = some (env.float_of_int n)
to_float env (uint_in n) = some (env.float_of_uint n)
to_float env (float32_in x) = some x
to_float env (float64_in x) = some x
to_float env other_in = none

abbrev pub map_option {ℓ κ} : {A : Type ℓ} {B : Type κ} → (A → B) → Option A → Option B
map_option f none = none
map_option f (some x) = some (f x)

-- `SetInt` and `SetUint` keep the bits of the type, `SetFloat` narrows.
abbrev pub set_int : Env → ℕ → Text → Option Scalar
set_int env width s = map_option (λ n. word (n % 2 ^ width)) (to_int env (string_in s))

abbrev pub set_uint : Env → ℕ → Text → Option Scalar
set_uint env width s = map_option (λ n. word (n % 2 ^ width)) (to_uint env (string_in s))

unfoldable pub set_native : Env → Basic → Text → Option Scalar
unfolding to_string to_bool to_int to_uint to_float
set_native env Basic.string s = map_option text (to_string env (string_in s))
set_native env Basic.bool s = map_option truth (to_bool env (string_in s))
set_native env Basic.int s = set_int env 64 s
set_native env Basic.int8 s = set_int env 8 s
set_native env Basic.int16 s = set_int env 16 s
set_native env Basic.int32 s = set_int env 32 s
set_native env Basic.int64 s = set_int env 64 s
set_native env Basic.uint s = set_uint env 64 s
set_native env Basic.uint8 s = set_uint env 8 s
set_native env Basic.uint16 s = set_uint env 16 s
set_native env Basic.uint32 s = set_uint env 32 s
set_native env Basic.uint64 s = set_uint env 64 s
set_native env Basic.float32 s =
    map_option (λ x. float (env.to_float32 x)) (to_float env (string_in s))
set_native env Basic.float64 s = map_option float (to_float env (string_in s))

-- The struct's or list's text in its brackets.
abbrev pub bracketed : Bool → Text → Text → Text → Text
bracketed true s left right = s
bracketed false s left right = left ++ (s ++ right)

abbrev pub in_brackets : Text → Text → Text → Text
in_brackets s left right = bracketed (has_prefix s left) s left right

-- A renamed type has no method and is set by its kind; the last is the error of `unmarshall`.
unfoldable pub set_elem : Env → ElemType → Text → Option Scalar
unfolding set_native has_prefix
set_elem env (basic_type b) s = set_native env b s
set_elem env (renamed b) s = set_native env b s
set_elem env (custom t) s = map_option opaque (env.unmarshal_text t s)
set_elem env (struct_type t) s =
    map_option opaque (env.json t (in_brackets s (codes "{") (codes "}")))
set_elem env (list_type t) s =
    map_option opaque (env.json t (in_brackets s (codes "[") (codes "]")))
set_elem env unsupported s = none

-- What `reflect` makes of a scalar of a basic type: a word as 64 bits, with its sign.
abbrev pub extended : ℕ → ℕ → ℕ
extended width n = if ltb n (2 ^ (width - 1)) then n else 2 ^ 64 - 2 ^ width + n

abbrev pub input_of : Basic → Scalar → Input
input_of Basic.string (text s) = string_in s
input_of Basic.bool (truth b) = bool_in b
input_of Basic.int (word n) = int_in (extended 64 n)
input_of Basic.int8 (word n) = int_in (extended 8 n)
input_of Basic.int16 (word n) = int_in (extended 16 n)
input_of Basic.int32 (word n) = int_in (extended 32 n)
input_of Basic.int64 (word n) = int_in (extended 64 n)
input_of Basic.float32 (float x) = float32_in x
input_of Basic.float64 (float x) = float64_in x
input_of Basic.uint (word n) = uint_in n
input_of Basic.uint8 (word n) = uint_in n
input_of Basic.uint16 (word n) = uint_in n
input_of Basic.uint32 (word n) = uint_in n
input_of Basic.uint64 (word n) = uint_in n
input_of _ _ = other_in

-- `getFieldAsString`; another kind without a method gives the empty text.
unfoldable pub get_elem_as_string : Env → ElemType → Scalar → Option Text
unfolding to_string
get_elem_as_string env (basic_type b) v = to_string env (input_of b v)
get_elem_as_string env (renamed b) v = to_string env (input_of b v)
get_elem_as_string env (custom t) (opaque n) = env.marshal_text t n
get_elem_as_string env _ v = some []
