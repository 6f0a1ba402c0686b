-- ===== src/CsvParse/Restored.antt =====
-- What `getFieldAsString` writes, `setField` reads.
use gogame.Common.{
  ℕ, ◌-◌, ◌%◌, ◌^◌, ◌<◌, ◌≡◌, ◌≢◌, ◌⊎◌, refl, ap, ◌∙◌, inl, inr, Bool, true, false, [], ◌∷◌, some,
  ltb, Bool-cases, ne→==, arith, All, All-map,
}
use gogame.Text.{Text, is_in, spaces, trim_space, print_decimal, trim}
use gogame.Text.Numbers.{IsDigit, print_decimal-IsDigit, print_decimal-starts}
use gogame.Text.Literals.{parse_uint, parse_int}
use gogame.Text.Trimmed.{trim-free}
use gogame.CsvTable.{Basic}
use gogame.CsvParse.{
  Env, string_in, Scalar, text, truth, word, ElemType, basic_type, renamed, print_int, print_bool,
  to_string, to_bool, before_dot, int_of_text, to_int, uint_of_text, to_uint, map_option, set_int,
  set_uint, set_native, set_elem, extended, input_of, get_elem_as_string,
}
use gogame.CsvParse.Printed.{parse_uint-print, parse_int-print_int}

-- Digits and the sign are neither trimmed nor cut.
abbrev IsPrinted : ℕ → Type 0
IsPrinted b = (b ≡ b'-') ⊎ IsDigit b

printed_not_blank : (b : ℕ) → IsPrinted b → is_in b spaces ≡ false
unfolding is_in
printed_not_blank b (inl e) = ground arith
printed_not_blank b (inr d) = ground arith

before_dot-IsPrinted : (s : Text) → All IsPrinted s → before_dot s ≡ s
unfolding before_dot
before_dot-IsPrinted [] h = refl
before_dot-IsPrinted (b ∷ s) h = rw (ne→== b b'.' (not_dot b h.0), before_dot-IsPrinted s h.1) refl
  where
    not_dot : (b : ℕ) → IsPrinted b → b ≢ b'.'
    not_dot b (inl e) = omega arith
    not_dot b (inr d) = omega arith

print_int-shape : (n : ℕ) → (a : ℕ) × (t : Text) × (print_int n ≡ a ∷ t) × All IsPrinted (a ∷ t)
unfolding print_int
print_int-shape n = elim (Bool-cases (ltb n (2 ^ 63))) [
  | inl small ↦
      let (a, t, e) = print_decimal-starts 19 n in
      rw small (
        a,
        t,
        e,
        All-map IsDigit IsPrinted (λ b d. inr d) (a ∷ t) (rw e at (print_decimal-IsDigit 20 n)),
      )
  | inr large ↦ rw large (
    b'-',
    print_decimal 20 (2 ^ 64 - n),
    refl,
    (
      inl refl,
      All-map IsDigit IsPrinted (λ b d. inr d) (print_decimal 20 (2 ^ 64 - n))
          (print_decimal-IsDigit 20 (2 ^ 64 - n)),
    ),
  )
]

int_of_text-IsPrinted :
    (a : ℕ) (t : Text)
    → All IsPrinted (a ∷ t)
    → int_of_text (trim_space (a ∷ t)) ≡ parse_int (a ∷ t)
int_of_text-IsPrinted a t h =
    rw
      (trim-free spaces (a ∷ t)
        (All-map IsPrinted (λ b. is_in b spaces ≡ false) printed_not_blank (a ∷ t) h))
      (ap parse_int (before_dot-IsPrinted (a ∷ t) h))

to_int-print_int : (env : Env) (n : ℕ) → n < 2 ^ 64 → to_int env (string_in (print_int n)) ≡ some n
unfolding to_int
to_int-print_int env n h =
    let (a, t, e, printed) = print_int-shape n in
    rw e (int_of_text-IsPrinted a t printed ∙ (rw e at (parse_int-print_int n h)))

digits_no_dot : (s : Text) → All IsDigit s → is_in b'.' s ≡ false
unfolding is_in
digits_no_dot [] h = refl
digits_no_dot (b ∷ s) h = rw (ne→== b b'.' (omega arith)) (digits_no_dot s h.1)

uint_of_text-digits :
    (env : Env) (a : ℕ) (t : Text)
    → All IsDigit (a ∷ t)
    → uint_of_text env (trim_space (a ∷ t)) ≡ parse_uint (a ∷ t)
uint_of_text-digits env a t h =
    rw
      (
        trim-free spaces (a ∷ t) (
            All-map IsDigit (λ b. is_in b spaces ≡ false) (λ b d. printed_not_blank b (inr d))
              (a ∷ t) h),
        digits_no_dot (a ∷ t) h,
      )
      refl

to_uint-print :
    (env : Env) (n : ℕ) → n < 2 ^ 64 → to_uint env (string_in (print_decimal 20 n)) ≡ some n
unfolding to_uint
to_uint-print env n h =
    let (a, t, e) = print_decimal-starts 19 n in
    rw e (
      uint_of_text-digits env a t (rw e at (print_decimal-IsDigit 20 n))
      ∙ (rw e at (parse_uint-print n h)))

-- The bits of a signed word, extended and cut again.
set_int-print :
    (env : Env) (width n m : ℕ)
    → m < 2 ^ 64
    → m % 2 ^ width ≡ n
    → set_int env width (print_int m) ≡ some (word n)
set_int-print env width n m h e =
    ap (map_option (λ k. word (k % 2 ^ width))) (to_int-print_int env m h)
    ∙ ap (λ k. some (word k)) e

set_uint-print :
    (env : Env) (width n : ℕ)
    → n < 2 ^ 64
    → n % 2 ^ width ≡ n
    → set_uint env width (print_decimal 20 n) ≡ some (word n)
set_uint-print env width n h e =
    ap (map_option (λ k. word (k % 2 ^ width))) (to_uint-print env n h) ∙ ap (λ k. some (word k)) e

to_bool-print_bool : (env : Env) (b : Bool) → to_bool env (string_in (print_bool b)) ≡ some b
unfolding to_bool trim
to_bool-print_bool env true = refl
to_bool-print_bool env false = refl

-- A value of a basic type that is not a float.
abbrev pub IsExact : Basic → Scalar → Type 0
IsExact Basic.string (text s) = Unit {0}
IsExact Basic.bool (truth b) = Unit {0}
IsExact Basic.int (word n) = n < 2 ^ 64
IsExact Basic.int8 (word n) = n < 2 ^ 8
IsExact Basic.int16 (word n) = n < 2 ^ 16
IsExact Basic.int32 (word n) = n < 2 ^ 32
IsExact Basic.int64 (word n) = n < 2 ^ 64
IsExact Basic.uint (word n) = n < 2 ^ 64
IsExact Basic.uint8 (word n) = n < 2 ^ 8
IsExact Basic.uint16 (word n) = n < 2 ^ 16
IsExact Basic.uint32 (word n) = n < 2 ^ 32
IsExact Basic.uint64 (word n) = n < 2 ^ 64
IsExact _ _ = ⊥

-- The text of a value sets the same value again.
set_native-to_string :
    (env : Env) (b : Basic) (v : Scalar)
    → IsExact b v
    → (s : Text) × (to_string env (input_of b v) ≡ some s) × (set_native env b s ≡ some v)
unfolding set_native to_string
set_native-to_string env Basic.string (text s) h = (s, refl, refl)
set_native-to_string env Basic.bool (truth b) h =
    (print_bool b, refl, ap (map_option truth) (to_bool-print_bool env b))
set_native-to_string env Basic.int (word n) h = (
  print_int (extended 64 n),
  refl,
  set_int-print env 64 n (extended 64 n) (ground arith) (ground arith),
)
set_native-to_string env Basic.int8 (word n) h = (
  print_int (extended 8 n),
  refl,
  set_int-print env 8 n (extended 8 n) (ground arith) (ground arith),
)
set_native-to_string env Basic.int16 (word n) h = (
  print_int (extended 16 n),
  refl,
  set_int-print env 16 n (extended 16 n) (ground arith) (ground arith),
)
set_native-to_string env Basic.int32 (word n) h = (
  print_int (extended 32 n),
  refl,
  set_int-print env 32 n (extended 32 n) (ground arith) (ground arith),
)
set_native-to_string env Basic.int64 (word n) h = (
  print_int (extended 64 n),
  refl,
  set_int-print env 64 n (extended 64 n) (ground arith) (ground arith),
)
set_native-to_string env Basic.uint (word n) h =
    (print_decimal 20 n, refl, set_uint-print env 64 n (omega arith) (omega arith))
set_native-to_string env Basic.uint8 (word n) h =
    (print_decimal 20 n, refl, set_uint-print env 8 n (omega arith) (omega arith))
set_native-to_string env Basic.uint16 (word n) h =
    (print_decimal 20 n, refl, set_uint-print env 16 n (omega arith) (omega arith))
set_native-to_string env Basic.uint32 (word n) h =
    (print_decimal 20 n, refl, set_uint-print env 32 n (omega arith) (omega arith))
set_native-to_string env Basic.uint64 (word n) h =
    (print_decimal 20 n, refl, set_uint-print env 64 n (omega arith) (omega arith))
set_native-to_string env b v h = absurd h

abbrev pub IsExactElem : ElemType → Scalar → Type 0
IsExactElem (basic_type b) v = IsExact b v
IsExactElem (renamed b) v = IsExact b v
IsExactElem _ v = ⊥

-- The text that `getFieldAsString` makes of a value of a basic type that is no float, or of a named type
-- without methods over such a type, sets the same value again, where the value fits the type's width.
pub set_elem-get_elem_as_string :
    (env : Env) (t : ElemType) (v : Scalar)
    → IsExactElem t v
    → (s : Text) × (get_elem_as_string env t v ≡ some s) × (set_elem env t s ≡ some v)
unfolding set_elem get_elem_as_string
set_elem-get_elem_as_string env (basic_type b) v h = set_native-to_string env b v h
set_elem-get_elem_as_string env (renamed b) v h = set_native-to_string env b v h
set_elem-get_elem_as_string env t v h = absurd h
