-- ===== src/Text.antt =====
-- Strings as their bytes, with what the code uses of the packages strings, strconv and bufio: only
-- ASCII letters have a case, and only ASCII blanks are spaces.
pub mod Trimmed
pub mod Joined
pub mod Digits
pub mod Numbers
pub mod Literals
pub mod Keyed
use Prim.Native.Char.{code}
use Prim.Native.String.{String}
use gogame.Common.{
  ℕ, zero, suc, ◌+◌, ◌-◌, ◌*◌, ◌/◌, ◌%◌, Bool, true, false, ◌&&◌, List, [], ◌∷◌, ◌++◌, Option, none,
  some, ◌==◌, leb, ltb, if◌then◌else◌,
}

abbrev pub Text : Type 0
Text = List ℕ

-- The bytes of an ASCII literal.
abbrev pub codes : String → Text
codes String.[] = []
codes (String.◌∷◌ c s) = code c ∷ codes s

unfoldable pub equals : Text → Text → Bool
equals [] [] = true
equals (a ∷ x) (b ∷ y) = if a == b then equals x y else false
equals _ _ = false

unfoldable pub is_in : ℕ → Text → Bool
is_in b [] = false
is_in b (c ∷ cs) = if c == b then true else is_in b cs

-- `strings.HasPrefix`
unfoldable pub has_prefix : Text → Text → Bool
has_prefix s [] = true
has_prefix [] (p ∷ prefix) = false
has_prefix (b ∷ s) (p ∷ prefix) = if b == p then has_prefix s prefix else false

-- `strings.Trim` by the bytes of a cutset.
unfoldable pub trim_left : Text → Text → Text
unfolding is_in
trim_left cutset [] = []
trim_left cutset (b ∷ s) = if is_in b cutset then trim_left cutset s else b ∷ s

abbrev pub kept : Text → ℕ → Text → Text
kept cutset b [] = if is_in b cutset then [] else b ∷ []
kept cutset b (c ∷ s) = b ∷ c ∷ s

unfoldable pub trim_right : Text → Text → Text
unfolding is_in
trim_right cutset [] = []
trim_right cutset (b ∷ s) = kept cutset b (trim_right cutset s)

unfoldable pub trim : Text → Text → Text
unfolding trim_left trim_right
trim cutset s = trim_right cutset (trim_left cutset s)

abbrev pub spaces : Text
spaces = b' ' ∷ 9 ∷ 10 ∷ 11 ∷ 12 ∷ 13 ∷ []

-- `strings.TrimSpace`
abbrev pub trim_space : Text → Text
trim_space s = trim spaces s

-- `strings.Split` by a byte.
abbrev pub cons_part : ℕ → List Text → List Text
cons_part b [] = (b ∷ []) ∷ []
cons_part b (part ∷ parts) = (b ∷ part) ∷ parts

unfoldable pub split : ℕ → Text → List Text
split sep [] = [] ∷ []
split sep (b ∷ s) = let rest = split sep s in if b == sep then [] ∷ rest else cons_part b rest

-- The lines that `bufio.Reader.ReadLine` gives of a text whose lines are shorter than its buffer:
-- what follows the last line break is a line only if it is not empty, and a `\r` before a line break
-- is dropped.
abbrev pub starts_with : ℕ → Text → Bool
starts_with b [] = false
starts_with b (c ∷ s) = c == b

abbrev pub add_to_lines : ℕ → Bool → List Text → List Text
add_to_lines b true lines = lines
add_to_lines b false lines = cons_part b lines

unfoldable pub read_lines : Text → List Text
read_lines [] = []
read_lines (b ∷ s) =
    let rest = read_lines s in
    if b == 10 then [] ∷ rest else add_to_lines b (b == 13 && starts_with 10 s) rest

-- `strings.ToLower`
abbrev pub lower_byte : ℕ → ℕ
lower_byte b = if leb b'A' b && leb b b'Z' then b + 32 else b

unfoldable pub to_lower : Text → Text
to_lower [] = []
to_lower (b ∷ s) = lower_byte b ∷ to_lower s

-- The text before the first `//`, and the text from it on.
abbrev pub before : ℕ → Text × Text → Text × Text
before b (s, rest) = (b ∷ s, rest)

unfoldable pub cut_comment : Text → Text × Text
unfolding has_prefix
cut_comment [] = ([], [])
cut_comment (b ∷ s) =
    let rest = cut_comment s in
    if has_prefix (b ∷ s) (b'/' ∷ b'/' ∷ []) then ([], b ∷ s) else before b rest

-- `strconv.ParseUint` with a base and 16 bits: the value, and whether there was no error.
unfoldable pub digit_value : ℕ → Option ℕ
digit_value b =
    if leb b'0' b && leb b b'9'
    then some (b - b'0')
    else if leb b'a' (lower_byte b) && leb (lower_byte b) b'z'
    then some (lower_byte b - b'a' + 10)
    else none

unfoldable pub parse_digits : ℕ → ℕ → Text → ℕ × Bool
unfolding digit_value
parse_digits base n [] = (n, true)
parse_digits base n (b ∷ s) = elim (digit_value b) [
  | none ↦ (0, false)
  | some d ↦
      let rest = parse_digits base (n * base + d) s in
      if leb base d then (0, false) else if ltb 65535 (n * base + d) then (65535, false) else rest
]

unfoldable pub parse_uint16 : ℕ → Text → ℕ × Bool
unfolding parse_digits
parse_uint16 base [] = (0, false)
parse_uint16 base (b ∷ s) = parse_digits base 0 (b ∷ s)

-- `%X` of a number below 16 ^ fuel.
abbrev pub hex_digit : ℕ → ℕ
hex_digit d = if ltb d 10 then b'0' + d else b'A' + d - 10

unfoldable pub print_hex : ℕ → ℕ → Text
print_hex zero n = []
print_hex (suc fuel) n =
    let high = print_hex fuel (n / 16) in
    if ltb n 16 then hex_digit n ∷ [] else high ++ hex_digit (n % 16) ∷ []

-- `%d` of a number below 10 ^ fuel.
unfoldable pub print_decimal : ℕ → ℕ → Text
print_decimal zero n = []
print_decimal (suc fuel) n =
    let high = print_decimal fuel (n / 10) in
    if ltb n 10 then (b'0' + n) ∷ [] else high ++ (b'0' + n % 10) ∷ []
