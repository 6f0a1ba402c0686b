-- ===== src/CsvParse/Printed.antt =====
-- Integers as `%v` writes them, read by `ParseInt` and `ParseUint`.
use gogame.Common.{
  ℕ, zero, suc, ◌+◌, ◌-◌, ◌/◌, ◌%◌, ◌*◌, ◌^◌, ◌<◌, ◌≤◌, ◌≡◌, ◌≢◌, refl, ap, ◌∙◌, inl, inr, true,
  false, [], ◌∷◌, ◌++◌, some, ltb, Bool-cases, ltb→lt, ltb_false→le, ne→==, arith, All,
}
use native.Mathlib.Nat.{pow-suc}
use gogame.Text.{Text, digit_value, print_decimal}
use gogame.Text.Numbers.{
  IsDigit, print_decimal-IsDigit, print_decimal-starts, print_decimal-cases, parse_decimal,
  parse_decimal-print, positive, negative,
}
use gogame.Text.Literals.{parse_base, underscores_ok, parse_uint, parse_int}
use gogame.CsvParse.{print_int}

digit_value-digit : (b : ℕ) → IsDigit b → digit_value b ≡ some (b - b'0')
unfolding digit_value
digit_value-digit b d = ground arith

-- Decimal digits without underscores.
parse_base-digits : (s : Text) (n : ℕ) → All IsDigit s → parse_base 10 s n ≡ parse_decimal n s
unfolding parse_base parse_decimal
parse_base-digits [] n h = refl
parse_base-digits (b ∷ s) n h =
    ground (arith, digit_value-digit b, parse_base-digits s (n * 10 + (b - b'0')))

underscores_ok-digits :
    (before : ℕ) (s : Text) → before ≢ b'_' → All IsDigit s → underscores_ok false before s ≡ true
unfolding underscores_ok
underscores_ok-digits before [] h d = ground arith
underscores_ok-digits before (b ∷ s) h d = ground (arith, underscores_ok-digits b'0' s)

print_small : (fuel n : ℕ) → ltb n 10 ≡ true → print_decimal (suc fuel) n ≡ (b'0' + n) ∷ []
unfolding print_decimal
print_small fuel n small = rw small refl

print_large :
    (fuel n : ℕ)
    → ltb n 10 ≡ false
    → print_decimal (suc fuel) n ≡ print_decimal fuel (n / 10) ++ (b'0' + n % 10) ∷ []
unfolding print_decimal
print_large fuel n large = rw large refl

-- A number above 0 does not start with the digit 0.
print_decimal-starts_pos :
    (fuel n : ℕ)
    → 0 < n
    → n < 10 ^ suc fuel
    → (a : ℕ) × (t : Text) × (a ≢ b'0') × (print_decimal (suc fuel) n ≡ a ∷ t)
unfolding print_decimal
print_decimal-starts_pos zero n h g =
    print_decimal-cases 0 n (λ s. (a : ℕ) × (t : Text) × (a ≢ b'0') × (s ≡ a ∷ t))
      (λ small. (b'0' + n, [], omega arith, refl)) (b'0' + n % 10, [], omega arith, refl)
print_decimal-starts_pos (suc fuel) n h g = elim (Bool-cases (ltb n 10)) [
  | inl small ↦ (b'0' + n, [], omega arith, print_small (suc fuel) n small)
  | inr large ↦
      let (a, t, nonzero, e) =
        print_decimal-starts_pos fuel (n / 10) (let big = ltb_false→le n 10 large in omega arith)
          (omega (arith, pow-suc 10 (suc fuel))) in
      (
        a,
        t ++ (b'0' + n % 10) ∷ [],
        nonzero,
        print_large (suc fuel) n large ∙ ap (λ s. s ++ (b'0' + n % 10) ∷ []) e,
      )
]

-- An unsigned number of 64 bits.
parse_uint-nonzero :
    (a : ℕ) (t : Text) (n : ℕ)
    → a ≢ b'0'
    → All IsDigit (a ∷ t)
    → n < 2 ^ 64
    → parse_decimal 0 (a ∷ t) ≡ some n
    → parse_uint (a ∷ t) ≡ some n
unfolding parse_uint
parse_uint-nonzero a t n h d lt e =
    rw
      (
        ne→== a b'0' h,
        underscores_ok-digits b'^' (a ∷ t) (omega arith) d,
        parse_base-digits (a ∷ t) 0 d,
        e,
      )
      (ground arith)

pub parse_uint-print : (n : ℕ) → n < 2 ^ 64 → parse_uint (print_decimal 20 n) ≡ some n
unfolding parse_uint print_decimal
parse_uint-print zero h = refl
parse_uint-print (suc n) h =
    let (a, t, nonzero, e) = print_decimal-starts_pos 19 (suc n) (omega arith) (omega arith) in
    let digits : All IsDigit (a ∷ t) = rw e at (print_decimal-IsDigit 20 (suc n)) in
    rw e (
      parse_uint-nonzero a t (suc n) nonzero digits h
        (rw e at (parse_decimal-print 20 (suc n) (omega arith))))

parse_int-digits :
    (a : ℕ) (t : Text) (n : ℕ)
    → IsDigit a
    → n < 2 ^ 63
    → parse_uint (a ∷ t) ≡ some n
    → parse_int (a ∷ t) ≡ some n
unfolding parse_int
parse_int-digits a t n d h e =
    rw (ne→== a b'-' (omega arith), ne→== a b'+' (omega arith)) (ap positive e ∙ ground arith)

parse_int-minus :
    (s : Text) (m n : ℕ)
    → parse_uint s ≡ some m
    → m ≤ 2 ^ 63
    → (2 ^ 64 - m) % 2 ^ 64 ≡ n
    → parse_int (b'-' ∷ s) ≡ some n
unfolding parse_int
parse_int-minus s m n e h same = ap negative e ∙ ground arith

-- A signed number of 64 bits, by its pattern.
pub parse_int-print_int : (n : ℕ) → n < 2 ^ 64 → parse_int (print_int n) ≡ some n
unfolding print_int
parse_int-print_int n h = elim (Bool-cases (ltb n (2 ^ 63))) [
  | inl small ↦
      let (a, t, e) = print_decimal-starts 19 n in
      let digits : All IsDigit (a ∷ t) = rw e at (print_decimal-IsDigit 20 n) in
      rw (small, e)
        (parse_int-digits a t n digits.0 (ltb→lt n (2 ^ 63) small) (rw e at (parse_uint-print n h)))
  | inr large ↦
      let big = ltb_false→le n (2 ^ 63) large in
      rw large (
        parse_int-minus (print_decimal 20 (2 ^ 64 - n)) (2 ^ 64 - n) n
          (parse_uint-print (2 ^ 64 - n) (omega arith)) (omega arith) (omega arith))
]
