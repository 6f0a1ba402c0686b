-- ===== src/Text/Digits.antt =====
-- Numbers printed in hexadecimal, and read again.
use gogame.Common.{
  ℕ, zero, suc, ◌+◌, ◌-◌, ◌*◌, ◌/◌, ◌%◌, ◌^◌, ◌<◌, ◌≡◌, refl, ap, ◌∙◌, inl, inr, true, [], ◌∷◌,
  ◌++◌, some, if◌then◌else◌, Option-cases, Bool-cases, ltb, arith,
}
use native.Mathlib.Nat.{pow-suc}
use gogame.Text.{Text, hex_digit, print_hex, digit_value, parse_digits, to_lower, lower_byte}

-- The bytes of a printed number, in lower case.
abbrev pub lower_hex : ℕ → ℕ
lower_hex d = if ltb d 10 then b'0' + d else b'a' + d - 10

lower_byte-hex_digit : (d : ℕ) → d < 16 → lower_byte (hex_digit d) ≡ lower_hex d
lower_byte-hex_digit d h = ground arith

digit_value-lower_hex : (d : ℕ) → d < 16 → digit_value (lower_hex d) ≡ some d
unfolding digit_value
digit_value-lower_hex d h = ground arith

digit_value-printed : (d : ℕ) → d < 16 → digit_value (lower_byte (hex_digit d)) ≡ some d
digit_value-printed d h = rw (lower_byte-hex_digit d h) (digit_value-lower_hex d h)

pub to_lower-append : (s t : Text) → to_lower (s ++ t) ≡ to_lower s ++ to_lower t
unfolding to_lower
to_lower-append [] t = refl
to_lower-append (b ∷ s) t = ap (λ l. lower_byte b ∷ l) (to_lower-append s t)

-- One more digit, after digits that were read.
module _ (c d m : ℕ) (h : d < 16) (g : m * 16 + d < 65536) (f : digit_value c ≡ some d) where
  parse_digits-append :
      (n : ℕ) (s : Text)
      → parse_digits 16 n s ≡ (m, true)
      → parse_digits 16 n (s ++ c ∷ []) ≡ (m * 16 + d, true)
  unfolding parse_digits
  parse_digits-append n [] e = ground arith
  parse_digits-append n (b ∷ s) e = elim (Option-cases (digit_value b)) [
    | inl stops ↦ ground arith
    | inr (k, q) ↦ ground (arith, parse_digits-append (n * 16 + k) s)
  ]

-- A number below 16 ^ fuel, printed, put in lower case and read.
pub parse_digits-print_hex :
    (fuel n : ℕ)
    → n < 65536
    → n < 16 ^ fuel
    → parse_digits 16 0 (to_lower (print_hex fuel n)) ≡ (n, true)
unfolding print_hex to_lower parse_digits
parse_digits-print_hex zero n h g = rw (let e : n ≡ 0 = omega arith in e) (ground arith)
parse_digits-print_hex (suc fuel) n h g = elim (Bool-cases (ltb n 16)) [
  | inl small ↦ rw small (ground (arith, digit_value-printed n))
  | inr large ↦ rw large (
      rw (to_lower-append (print_hex fuel (n / 16)) (hex_digit (n % 16) ∷ [])) (
        parse_digits-append (lower_byte (hex_digit (n % 16))) (n % 16) (n / 16) (omega arith)
          (omega arith) (digit_value-printed (n % 16) (omega arith)) 0
          (to_lower (print_hex fuel (n / 16)))
          (parse_digits-print_hex fuel (n / 16) (omega arith) (omega (arith, pow-suc 16 fuel)))
        ∙ ap (λ (k : ℕ). (k, true)) (omega arith)))
]
