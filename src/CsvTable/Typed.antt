-- ===== src/CsvTable/Typed.antt =====
-- What is stored by reflection fits the type of the field.
use gogame.Common.{
  ℕ, zero, suc, ◌%◌, ◌^◌, ◌<◌, ◌≡◌, refl, Bool, true, false, List, [], ◌∷◌, map, Option, none, some,
  if◌then◌else◌, arith, All,
}
use native.Mathlib.Nat.{mod-lt, pow-suc}
use gogame.Text.{Text, to_lower}
use gogame.Text.Numbers.{atoi, atoi-lt}
use gogame.CsvTable.{
  Floats, Basic, FieldType, Value, word, float, text, truth, words, floats, texts, zero_value,
  Parsed, to_string, parse_all, parsed_then, to_int, converted, to_words, to_float64,
  to_float32_list, Setting, stored, skipped, failed, panics, number_or_empty, store_word,
  field_set_int, store_float, field_set_float, is_one_of, true_words, false_words, field_set_bool,
  store_words, store_floats, field_set_slice, field_set_basic, set_value,
}

-- A word has the bits of its type; a float is any float.
pub data Shape : Type 0 where
  word_shape : ℕ → Shape
  float_shape text_shape truth_shape : Shape

abbrev pub shape_of : Basic → Shape
shape_of Basic.int = word_shape 64
shape_of Basic.int8 = word_shape 8
shape_of Basic.int16 = word_shape 16
shape_of Basic.int32 = word_shape 32
shape_of Basic.int64 = word_shape 64
shape_of Basic.uint = word_shape 64
shape_of Basic.uint8 = word_shape 8
shape_of Basic.uint16 = word_shape 16
shape_of Basic.uint32 = word_shape 32
shape_of Basic.uint64 = word_shape 64
shape_of Basic.float32 = float_shape
shape_of Basic.float64 = float_shape
shape_of Basic.string = text_shape
shape_of Basic.bool = truth_shape

abbrev pub HasShape : Shape → Value → Type 0
HasShape (word_shape width) (word n) = n < 2 ^ width
HasShape float_shape (float x) = Unit {0}
HasShape text_shape (text s) = Unit {0}
HasShape truth_shape (truth b) = Unit {0}
HasShape _ _ = ⊥

abbrev pub HasElements : Shape → Value → Type 0
HasElements (word_shape width) (words ns) = All (λ n. n < 2 ^ width) ns
HasElements float_shape (floats xs) = Unit {0}
HasElements text_shape (texts strs) = Unit {0}
HasElements truth_shape zero_value = Unit {0}
HasElements _ _ = ⊥

abbrev pub HasType : FieldType → Value → Type 0
HasType (FieldType.basic b) v = HasShape (shape_of b) v
HasType (FieldType.slice b) v = HasElements (shape_of b) v
HasType _ zero_value = Unit {0}
HasType _ _ = ⊥

-- Nothing panics, and what is stored has the property.
abbrev pub Stores : (Value → Type 0) → Setting → Type 0
Stores P (stored v) = P v
Stores P skipped = Unit {0}
Stores P failed = Unit {0}
Stores P panics = ⊥

pow_pos : (width : ℕ) → 0 < 2 ^ width
pow_pos zero = omega arith
pow_pos (suc width) = omega (arith, pow_pos width, pow-suc 2 width)

module _ (width : ℕ) where
  store_word-Stores : (o : Option ℕ) → Stores (HasShape (word_shape width)) (store_word width o)
  store_word-Stores none = tt
  store_word-Stores (some n) = mod-lt n (pow_pos width)

  field_set_int-Stores : (s : Text) → Stores (HasShape (word_shape width)) (field_set_int width s)
  unfolding field_set_int
  field_set_int-Stores s = store_word-Stores (number_or_empty (atoi s) s)

  store_words-Stores :
      (p : Parsed)
      → All (λ n. n < 2 ^ width) p.0
      → Stores (HasElements (word_shape width)) (store_words p)
  store_words-Stores (values, true) h = h
  store_words-Stores (values, false) h = tt

  wrapped : (values : List ℕ) → All (λ n. n < 2 ^ width) (map (λ v. v % 2 ^ width) values)
  wrapped [] = tt
  wrapped (v ∷ values) = (mod-lt v (pow_pos width), wrapped values)

  converted-fits : (p : Parsed) → All (λ n. n < 2 ^ width) (converted (λ v. v % 2 ^ width) p).0
  converted-fits (values, true) = wrapped values
  converted-fits (values, false) = tt

  to_words-fits :
      (s : Text) → Stores (HasElements (word_shape width)) (store_words (to_words width s))
  unfolding to_words
  to_words-fits s =
      store_words-Stores (converted (λ v. v % 2 ^ width) (to_int s)) (converted-fits (to_int s))

store_float-Stores :
    (narrow : ℕ → ℕ) (o : Option ℕ) → Stores (HasShape float_shape) (store_float narrow o)
store_float-Stores narrow none = tt
store_float-Stores narrow (some x) = tt

store_floats-Stores : (p : Parsed) → Stores (HasElements float_shape) (store_floats p)
store_floats-Stores (values, true) = tt
store_floats-Stores (values, false) = tt

either_stored :
    (a b : Bool)
    → Stores
        (HasShape truth_shape)
        (if a then stored (truth true) else if b then stored (truth false) else failed)
either_stored true b = tt
either_stored false true = tt
either_stored false false = tt

field_set_bool-Stores : (s : Text) → Stores (HasShape truth_shape) (field_set_bool s)
unfolding field_set_bool
field_set_bool-Stores s =
    either_stored (is_one_of (to_lower s) true_words) (is_one_of (to_lower s) false_words)

field_set_float-Stores :
    (env : Floats) (narrow : ℕ → ℕ) (s : Text)
    → Stores (HasShape float_shape) (field_set_float env narrow s)
unfolding field_set_float
field_set_float-Stores env narrow s =
    store_float-Stores narrow (number_or_empty (env.parse_float s) s)

-- The numbers of `ToInt` are those of `Atoi`.
next_fits :
    (o : Option ℕ) (p : Parsed)
    → ((n : ℕ) → o ≡ some n → n < 2 ^ 64)
    → All (λ n. n < 2 ^ 64) p.0
    → All (λ n. n < 2 ^ 64) (parsed_then o p).0
next_fits none p h rest = tt
next_fits (some n) (values, done) h rest = (h n refl, rest)

parse_all-fits : (strs : List Text) → All (λ n. n < 2 ^ 64) (parse_all atoi strs).0
unfolding parse_all
parse_all-fits [] = tt
parse_all-fits (s ∷ strs) =
    next_fits (atoi s) (parse_all atoi strs) (atoi-lt s) (parse_all-fits strs)

to_int-fits : (s : Text) → Stores (HasElements (word_shape 64)) (store_words (to_int s))
unfolding to_int
to_int-fits s = store_words-Stores 64 (parse_all atoi (to_string s)) (parse_all-fits (to_string s))

field_set_basic-Stores :
    (env : Floats) (b : Basic) (s : Text) → Stores (HasShape (shape_of b)) (field_set_basic env b s)
unfolding field_set_basic
field_set_basic-Stores env Basic.int s = field_set_int-Stores 64 s
field_set_basic-Stores env Basic.int8 s = field_set_int-Stores 8 s
field_set_basic-Stores env Basic.int16 s = field_set_int-Stores 16 s
field_set_basic-Stores env Basic.int32 s = field_set_int-Stores 32 s
field_set_basic-Stores env Basic.int64 s = field_set_int-Stores 64 s
field_set_basic-Stores env Basic.uint s = field_set_int-Stores 64 s
field_set_basic-Stores env Basic.uint8 s = field_set_int-Stores 8 s
field_set_basic-Stores env Basic.uint16 s = field_set_int-Stores 16 s
field_set_basic-Stores env Basic.uint32 s = field_set_int-Stores 32 s
field_set_basic-Stores env Basic.uint64 s = field_set_int-Stores 64 s
field_set_basic-Stores env Basic.float32 s = field_set_float-Stores env env.to_float32 s
field_set_basic-Stores env Basic.float64 s = field_set_float-Stores env (λ x. x) s
field_set_basic-Stores env Basic.string s = tt
field_set_basic-Stores env Basic.bool s = field_set_bool-Stores s

field_set_slice-Stores :
    (env : Floats) (b : Basic) (s : Text)
    → Stores (HasElements (shape_of b)) (field_set_slice env b s)
unfolding field_set_slice
field_set_slice-Stores env Basic.int s = to_int-fits s
field_set_slice-Stores env Basic.uint32 s = to_words-fits 32 s
field_set_slice-Stores env Basic.string s = tt
field_set_slice-Stores env Basic.float64 s = store_floats-Stores (to_float64 env s)
field_set_slice-Stores env Basic.uint8 s = to_words-fits 8 s
field_set_slice-Stores env Basic.int32 s = to_words-fits 32 s
field_set_slice-Stores env Basic.float32 s = store_floats-Stores (to_float32_list env s)
field_set_slice-Stores env Basic.int64 s = to_words-fits 64 s
field_set_slice-Stores env _ s = tt

-- A pointer is the one type at which reflection panics.
abbrev pub IsNoPointer : FieldType → Type 0
IsNoPointer (FieldType.pointer t) = ⊥
IsNoPointer _ = Unit {0}

pub set_value-Stores :
    (env : Floats) (t : FieldType) (s : Text)
    → IsNoPointer t
    → Stores (HasType t) (set_value env t s)
unfolding set_value
set_value-Stores env (FieldType.basic b) s h = field_set_basic-Stores env b s
set_value-Stores env (FieldType.slice b) s h = field_set_slice-Stores env b s
set_value-Stores env (FieldType.pointer t) s h = absurd h
set_value-Stores env FieldType.unsupported s h = tt
