-- ===== src/Text/Numbers.antt =====
-- Decimal numbers: `strconv.Atoi`, for an `int` of 64 bits, and what it reads of a printed number.
use gogame.Common.{
  refl, All, All-append, ◌≤◌, ltb→lt, ℕ, zero, suc, ◌+◌, ◌-◌, ◌*◌, ◌/◌, ◌%◌, ◌^◌, ◌<◌, ◌≡◌, ap, ◌∙◌,
  inl, inr, ◌&&◌, [], ◌∷◌, ◌++◌, Option, none, some, ◌==◌, ltb, leb, if◌then◌else◌, Bool-cases,
  arith,
}
use native.Mathlib.Nat.{pow-suc}
use gogame.Text.{Text, print_decimal}

unfoldable pub parse_decimal : ℕ → Text → Option ℕ
parse_decimal n [] = some n
parse_decimal n (b ∷ s) =
    let rest = parse_decimal (n * 10 + (b - b'0')) s in
    if leb b'0' b && leb b b'9' then rest else none

abbrev pub parse_unsigned : Text → Option ℕ
parse_unsigned [] = none
parse_unsigned (b ∷ s) = parse_decimal 0 (b ∷ s)

abbrev pub positive : Option ℕ → Option ℕ
positive none = none
positive (some n) = if ltb n (2 ^ 63) then some n else none

abbrev pub negative : Option ℕ → Option ℕ
negative none = none
negative (some n) = if leb n (2 ^ 63) then some ((2 ^ 64 - n) % 2 ^ 64) else none

-- The bit pattern of the integer, or an error.
unfoldable pub atoi : Text → Option ℕ
unfolding parse_decimal
atoi [] = none
atoi (b ∷ s) =
    if b == b'-'
    then negative (parse_unsigned s)
    else if b == b'+'
    then positive (parse_unsigned s)
    else positive (parse_unsigned (b ∷ s))

positive-lt : (o : Option ℕ) (n : ℕ) → positive o ≡ some n → n < 2 ^ 64
positive-lt none n e = ground arith
positive-lt (some m) n e = ground arith

negative-lt : (o : Option ℕ) (n : ℕ) → negative o ≡ some n → n < 2 ^ 64
negative-lt none n e = ground arith
negative-lt (some m) n e = ground arith

pub atoi-lt : (s : Text) (n : ℕ) → atoi s ≡ some n → n < 2 ^ 64
unfolding atoi
atoi-lt [] n e = ground arith
atoi-lt (b ∷ s) n e = elim (Bool-cases (b == b'-')) [
  | inl minus ↦ negative-lt (parse_unsigned s) n (rw minus at e)
  | inr other ↦ elim (Bool-cases (b == b'+')) [
    | inl plus ↦ positive-lt (parse_unsigned s) n (rw (other, plus) at e)
    | inr digit ↦ positive-lt (parse_unsigned (b ∷ s)) n (rw (other, digit) at e)
  ]
]

parse_decimal-append :
    (n : ℕ) (s : Text) (d m : ℕ)
    → d < 10
    → parse_decimal n s ≡ some m
    → parse_decimal n (s ++ (b'0' + d) ∷ []) ≡ some (m * 10 + d)
unfolding parse_decimal
parse_decimal-append n [] d m h e = ground arith
parse_decimal-append n (b ∷ s) d m h e =
    ground (arith, parse_decimal-append (n * 10 + (b - b'0')) s d m h)

-- A number of at most `fuel` digits.
pub parse_decimal-print :
    (fuel n : ℕ) → n < 10 ^ fuel → parse_decimal 0 (print_decimal fuel n) ≡ some n
unfolding print_decimal parse_decimal
parse_decimal-print zero n h = ground arith
parse_decimal-print (suc fuel) n h = elim (Bool-cases (ltb n 10)) [
  | inl small ↦ rw small (ground arith)
  | inr large ↦ rw large (
      parse_decimal-append 0 (print_decimal fuel (n / 10)) (n % 10) (n / 10) (omega arith)
        (parse_decimal-print fuel (n / 10) (omega (arith, pow-suc 10 fuel)))
      ∙ ap some (let e : n / 10 * 10 + n % 10 ≡ n = omega arith in e))
]

-- The bytes of a printed number.
abbrev pub IsDigit : ℕ → Type 0
IsDigit b = (b'0' ≤ b) × (b ≤ b'9')

pub print_decimal-cases :
    (fuel n : ℕ) (P : Text → Type 0)
    → (n < 10 → P ((b'0' + n) ∷ []))
    → P (print_decimal fuel (n / 10) ++ (b'0' + n % 10) ∷ [])
    → P (print_decimal (suc fuel) n)
unfolding print_decimal
print_decimal-cases fuel n P low high = elim (Bool-cases (ltb n 10)) [
  | inl small ↦ rw small (low (ltb→lt n 10 small))
  | inr large ↦ rw large high
]

pub print_decimal-IsDigit : (fuel n : ℕ) → All IsDigit (print_decimal fuel n)
unfolding print_decimal
print_decimal-IsDigit zero n = tt
print_decimal-IsDigit (suc fuel) n =
    print_decimal-cases fuel n (All IsDigit) (λ h. ((omega arith, omega arith), tt))
      (All-append IsDigit (print_decimal fuel (n / 10)) ((b'0' + n % 10) ∷ [])
        (print_decimal-IsDigit fuel (n / 10)) ((omega arith, omega arith), tt))

-- A text that is not empty, of digits.
starts : (s : Text) (b : ℕ) → (a : ℕ) × (t : Text) × (s ++ b ∷ [] ≡ a ∷ t)
starts [] b = (b, [], refl)
starts (a ∷ s) b = (a, s ++ b ∷ [], refl)

pub print_decimal-starts :
    (fuel n : ℕ) → (a : ℕ) × (t : Text) × (print_decimal (suc fuel) n ≡ a ∷ t)
print_decimal-starts fuel n =
    print_decimal-cases fuel n (λ s. (a : ℕ) × (t : Text) × (s ≡ a ∷ t)) (λ h. (b'0' + n, [], refl))
      (starts (print_decimal fuel (n / 10)) (b'0' + n % 10))
