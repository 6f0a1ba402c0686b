-- ===== src/Text/Literals.antt =====
-- `strconv.ParseInt` and `ParseUint` with base 0 and 64 bits: a prefix gives the base, and underscores
-- may separate digits.
use gogame.Common.{
  ℕ, ◌+◌, ◌*◌, ◌^◌, Bool, true, false, ◌&&◌, ◌||◌, [], ◌∷◌, Option, none, some, ◌==◌, ltb, leb,
  if◌then◌else◌,
}
use gogame.Text.Numbers.{positive, negative}
use gogame.Text.{Text, digit_value, lower_byte}

abbrev pub below_base : ℕ → Option ℕ → Option ℕ
below_base base none = none
below_base base (some d) = if ltb d base then some d else none

abbrev pub next_value : ℕ → ℕ → Option ℕ → (ℕ → Option ℕ) → Option ℕ
next_value base n none rest = none
next_value base n (some d) rest = rest (n * base + d)

-- The digits, with underscores left out.
unfoldable pub parse_base : ℕ → Text → ℕ → Option ℕ
unfolding digit_value
parse_base base [] n = some n
parse_base base (b ∷ s) n =
    let rest = parse_base base s in
    if b == b'_' then rest n else next_value base n (below_base base (digit_value b)) rest

-- `underscoreOK`, from the byte before: a digit or a prefix, an underscore, or another.
unfoldable pub underscores_ok : Bool → ℕ → Text → Bool
underscores_ok hex before [] = if before == b'_' then false else true
underscores_ok hex before (b ∷ s) =
    let after_digit = underscores_ok hex b'0' s in
    let after_underscore = underscores_ok hex b'_' s in
    let after_other = underscores_ok hex b'!' s in
    if (leb b'0' b && leb b b'9') || (hex && (leb b'a' (lower_byte b) && leb (lower_byte b) b'f'))
    then after_digit
    else if b == b'_'
    then (if before == b'0' then after_underscore else false)
    else if before == b'_'
    then false
    else after_other

abbrev pub checked : Bool → Option ℕ → Option ℕ
checked true (some n) = if ltb n (2 ^ 64) then some n else none
checked _ _ = none

abbrev pub prefixed : ℕ → Text → Option ℕ
prefixed b s =
    if lower_byte b == b'b'
    then checked (underscores_ok false b'0' s) (parse_base 2 s 0)
    else if lower_byte b == b'o'
    then checked (underscores_ok false b'0' s) (parse_base 8 s 0)
    else if lower_byte b == b'x'
    then checked (underscores_ok true b'0' s) (parse_base 16 s 0)
    else checked (underscores_ok false b'0' (b ∷ s)) (parse_base 8 (b ∷ s) 0)

-- After the digit 0: a prefix wants a byte behind it.
abbrev pub after_zero : Text → Option ℕ
after_zero [] = some 0
after_zero (b ∷ []) = checked (underscores_ok false b'0' (b ∷ [])) (parse_base 8 (b ∷ []) 0)
after_zero (b ∷ c ∷ s) = prefixed b (c ∷ s)

unfoldable pub parse_uint : Text → Option ℕ
unfolding parse_base underscores_ok
parse_uint [] = none
parse_uint (b ∷ s) =
    if b == b'0'
    then after_zero s
    else checked (underscores_ok false b'^' (b ∷ s)) (parse_base 10 (b ∷ s) 0)

-- The bit pattern of the integer.
unfoldable pub parse_int : Text → Option ℕ
unfolding parse_uint
parse_int [] = none
parse_int (b ∷ s) =
    if b == b'-'
    then negative (parse_uint s)
    else if b == b'+'
    then positive (parse_uint s)
    else positive (parse_uint (b ∷ s))
