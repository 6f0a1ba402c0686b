-- ===== src/Generator/Entries.antt =====
-- A line that `writerNewProto` writes, and what `loadRegisterFile` makes of it.
use gogame.Common.{
  ℕ, zero, suc, ◌/◌, ◌%◌, ◌<◌, ◌≡◌, ◌≢◌, refl, sym, ap, ◌∙◌, Bool, false, [], ◌∷◌, ◌++◌, ltb,
  Bool-cases, inl, inr, ltb→lt, All-append, All-map, arith, All,
}
use mathlib.Core.List.{append_assoc}
use gogame.Text.{
  Text, parse_digits, trim_space, trim_left, has_prefix, is_in, spaces, print_hex, hex_digit,
  to_lower, trim, split, parse_uint16,
}
use gogame.Text.Digits.{parse_digits-print_hex}
use gogame.Text.Trimmed.{trim_right-free, trim_right-free_self, trim-between, cut_comment-append}
use gogame.Text.Joined.{split-free, split-append}
use gogame.Generator.{
  Loading, register_item, load_line, load_parts, load_content, load_cut, parse_id, item_of,
}

-- What a name of Go is free of.
abbrev pub IsPlain : ℕ → Type 0
IsPlain b = (is_in b spaces ≡ false) × (b ≢ 61) × (b ≢ 47)

hex_digit-IsPlain : (d : ℕ) → d < 16 → IsPlain (hex_digit d)
unfolding is_in
hex_digit-IsPlain d h = ground arith

print_hex-cases :
    (fuel n : ℕ) (P : Text → Type 0)
    → (n < 16 → P (hex_digit n ∷ []))
    → P (print_hex fuel (n / 16) ++ hex_digit (n % 16) ∷ [])
    → P (print_hex (suc fuel) n)
unfolding print_hex
print_hex-cases fuel n P low high = elim (Bool-cases (ltb n 16)) [
  | inl small ↦ rw small (low (ltb→lt n 16 small))
  | inr large ↦ rw large high
]

print_hex-IsPlain : (fuel n : ℕ) → All IsPlain (print_hex fuel n)
unfolding print_hex
print_hex-IsPlain zero n = tt
print_hex-IsPlain (suc fuel) n =
    print_hex-cases fuel n (All IsPlain) (λ h. (hex_digit-IsPlain n h, tt))
      (All-append IsPlain (print_hex fuel (n / 16)) _ (print_hex-IsPlain fuel (n / 16))
        (hex_digit-IsPlain (n % 16) (omega arith), tt))

-- The last digit.
print_hex-last :
    (fuel n : ℕ)
    → (high : Text) × (d : ℕ) × (d < 16) × (print_hex (suc fuel) n ≡ high ++ hex_digit d ∷ [])
print_hex-last fuel n =
    print_hex-cases fuel n
      (λ s. (high : Text) × (d : ℕ) × (d < 16) × (s ≡ high ++ hex_digit d ∷ []))
      (λ h. ([], n, h, refl)) (print_hex fuel (n / 16), n % 16, omega arith, refl)

parse_uint16-value : (base : ℕ) (s : Text) → (parse_uint16 base s).0 ≡ (parse_digits base 0 s).0
unfolding parse_uint16 parse_digits
parse_uint16-value base [] = refl
parse_uint16-value base (b ∷ s) = refl

-- `0x` and the digits, with the blank before them.
abbrev pub hex_number : ℕ → Text
hex_number n = b'0' ∷ b'x' ∷ print_hex 4 n

IsFreeOfSpaces : (s : Text) → All IsPlain s → All (λ b. is_in b spaces ≡ false) s
IsFreeOfSpaces s = All-map IsPlain (λ b. is_in b spaces ≡ false) (λ b p. p.0) s

pub hex_number-IsPlain : (n : ℕ) → All IsPlain (hex_number n)
unfolding is_in
hex_number-IsPlain n =
    ((refl, omega arith, omega arith), ((refl, omega arith, omega arith), print_hex-IsPlain 4 n))

parse_id-hex_number : (n : ℕ) → n < 65536 → parse_id (to_lower (hex_number n)) ≡ n
unfolding parse_id has_prefix to_lower
parse_id-hex_number n h =
    parse_uint16-value 16 (to_lower (print_hex 4 n))
    ∙ ap (λ (r : ℕ × Bool). r.0) (parse_digits-print_hex 4 n h (omega arith))

trim-hex_number : (n : ℕ) → trim_space (b' ' ∷ hex_number n) ≡ hex_number n
unfolding trim trim_left is_in
trim-hex_number n =
    trim_right-free_self spaces (hex_number n)
      (IsFreeOfSpaces (hex_number n) (hex_number-IsPlain n))

module _ (a : ℕ) (letters : Text) (plain : All IsPlain (a ∷ letters)) (n : ℕ) (h : n < 65536) where
  trim-name : trim_space ((a ∷ letters) ++ b' ' ∷ []) ≡ a ∷ letters
  unfolding trim trim_left is_in
  trim-name = rw (plain.0.0) (
      trim_right-free spaces (a ∷ letters) (b' ' ∷ []) (IsFreeOfSpaces (a ∷ letters) plain)
        (refl, tt))

  abbrev pub content : Text
  content = (a ∷ letters) ++ (b' ' ∷ b'=' ∷ b' ' ∷ hex_number n)

  item_of-entry :
      (comma : Text)
      → item_of ((a ∷ letters) ++ b' ' ∷ []) (b' ' ∷ hex_number n) comma
        ≡ record { id = n; msg = a ∷ letters; comma = comma }
  item_of-entry comma =
      rw (trim-name, trim-hex_number n)
        (ap (λ id. record { id = id; msg = a ∷ letters; comma = comma }) (parse_id-hex_number n h))

  split-content : split b'=' content ≡ ((a ∷ letters) ++ b' ' ∷ []) ∷ (b' ' ∷ hex_number n) ∷ []
  split-content = rw (← append_assoc (a ∷ letters) (b' ' ∷ []) (b'=' ∷ b' ' ∷ hex_number n)) (
      split-append b'=' ((a ∷ letters) ++ b' ' ∷ []) (b' ' ∷ hex_number n) (
        All-append (λ b. b ≢ b'=') (a ∷ letters) (b' ' ∷ [])
          (All-map IsPlain (λ b. b ≢ b'=') (λ b p. p.1) (a ∷ letters) plain) (omega arith, tt))
      ∙ ap (λ r. ((a ∷ letters) ++ b' ' ∷ []) ∷ r)
          (split-free b'=' (b' ' ∷ hex_number n) (
            omega arith,
            All-map IsPlain (λ b. b ≢ b'=') (λ b p. p.1) (hex_number n) (hex_number-IsPlain n),
          )))

  abbrev with_digits : Text → Text
  with_digits high = (a ∷ letters) ++ (b' ' ∷ b'=' ∷ b' ' ∷ b'0' ∷ b'x' ∷ high)

  trim-content : trim_space (content ++ b' ' ∷ []) ≡ content
  unfolding is_in
  trim-content =
      let (high, d, small, e) = print_hex-last 3 n in
      let wide : content ++ b' ' ∷ [] ≡ with_digits high ++ hex_digit d ∷ b' ' ∷ [] =
        rw e (simp append_assoc) in
      let same : content ≡ with_digits high ++ hex_digit d ∷ [] = rw e (simp append_assoc) in
      ap trim_space wide
      ∙ trim-between spaces a (letters ++ (b' ' ∷ b'=' ∷ b' ' ∷ b'0' ∷ b'x' ∷ high)) (hex_digit d)
          (b' ' ∷ []) plain.0.0 (hex_digit-IsPlain d small).0 (refl, tt)
      ∙ sym same

  content-HasNoSlash : All (λ b. b ≢ b'/') (content ++ b' ' ∷ [])
  content-HasNoSlash =
      All-append (λ b. b ≢ b'/') content (b' ' ∷ [])
        (All-append (λ b. b ≢ b'/') (a ∷ letters) (b' ' ∷ b'=' ∷ b' ' ∷ hex_number n)
          (All-map IsPlain (λ b. b ≢ b'/') (λ b p. p.2) (a ∷ letters) plain)
          (
            omega arith,
            (
              omega arith,
              (
                omega arith,
                All-map IsPlain (λ b. b ≢ b'/') (λ b p. p.2) (hex_number n) (hex_number-IsPlain n),
              ),
            ),
          ))
        (omega arith, tt)

  load_content-entry :
      (comma : Text) (l : Loading)
      → load_content content comma l
        ≡ register_item (record { id = n; msg = a ∷ letters; comma = comma }) l
  unfolding load_parts
  load_content-entry comma l =
      ap (λ parts. load_parts parts comma l) split-content
      ∙ ap (λ it. register_item it l) (item_of-entry comma)

  pub load_line-entry :
      (comment : Text) (l : Loading)
      → load_line ((content ++ b' ' ∷ []) ++ b'/' ∷ b'/' ∷ comment) l
        ≡ register_item (record { id = n; msg = a ∷ letters; comma = b'/' ∷ b'/' ∷ comment }) l
  unfolding load_line
  load_line-entry comment l =
      ap (λ cut. load_cut cut l)
        (cut_comment-append (content ++ b' ' ∷ []) comment content-HasNoSlash)
      ∙ ap (λ s. load_content s (b'/' ∷ b'/' ∷ comment) l) trim-content
      ∙ load_content-entry (b'/' ∷ b'/' ∷ comment) l
