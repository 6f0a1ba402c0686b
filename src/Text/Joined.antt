-- ===== src/Text/Joined.antt =====
-- Texts that `strings.Split` and `ReadLine` take apart where they were joined.
use gogame.Common.{
  ℕ, ◌≡◌, ◌≢◌, refl, Bool, true, false, ◌&&◌, List, [], ◌∷◌, ◌++◌, ◌==◌, if◌then◌else◌, ==-refl,
  ne→==, All, sym, ap, ◌∙◌, inl, inr, Bool-cases, ==→≡, arith,
}
use mathlib.Core.Path.{subst}
use gogame.Text.{Text, split, cons_part, read_lines, starts_with, add_to_lines}

pub split-free : (sep : ℕ) (s : Text) → All (λ b. b ≢ sep) s → split sep s ≡ s ∷ []
unfolding split
split-free sep [] h = refl
split-free sep (b ∷ s) h = rw (ne→== b sep h.0, split-free sep s h.1)

pub split-append :
    (sep : ℕ) (s rest : Text)
    → All (λ b. b ≢ sep) s
    → split sep (s ++ sep ∷ rest) ≡ s ∷ split sep rest
unfolding split
split-append sep [] rest h = rw (==-refl sep)
split-append sep (b ∷ s) rest h = rw (ne→== b sep h.0, split-append sep s rest h.1)

cons_part-ne-nil : (b : ℕ) (parts : List Text) → cons_part b parts ≢ []
cons_part-ne-nil b [] e = absurd cc
cons_part-ne-nil b (part ∷ parts) e = absurd cc

==→ne : (a b : ℕ) → (a == b) ≡ false → a ≢ b
==→ne a b h e = absurd (ground arith)

cons_part-one :
    (b : ℕ) (parts : List Text) (a : Text)
    → cons_part b parts ≡ a ∷ []
    → parts ≢ []
    → (rest : Text) × (a ≡ b ∷ rest) × (parts ≡ rest ∷ [])
cons_part-one b [] a e h = absurd (h refl)
cons_part-one b (part ∷ parts) a e h = (part, cc, cc)

cons_part-two :
    (b : ℕ) (parts : List Text) (a c : Text)
    → cons_part b parts ≡ a ∷ c ∷ []
    → (rest : Text) × (a ≡ b ∷ rest) × (parts ≡ rest ∷ c ∷ [])
cons_part-two b [] a c e = absurd cc
cons_part-two b (part ∷ parts) a c e = (part, cc, cc)

split-ne-nil : (sep : ℕ) (s : Text) → split sep s ≢ []
unfolding split
split-ne-nil sep [] e = absurd cc
split-ne-nil sep (b ∷ s) e = elim (Bool-cases (b == sep)) [
  | inl same ↦ absurd (let f = rw same at e in cc)
  | inr other ↦ absurd (cons_part-ne-nil b (split sep s) (rw other at e))
]

-- A text that is split into one part is this part.
split-one : (sep : ℕ) (s a : Text) → split sep s ≡ a ∷ [] → (s ≡ a) × All (λ b. b ≢ sep) s
unfolding split
split-one sep [] a e = (cc, tt)
split-one sep (b ∷ s) a e = elim (Bool-cases (b == sep)) [
  | inl same ↦ absurd (split-ne-nil sep s (let f = rw same at e in cc))
  | inr other ↦
      let (rest, first, parts) =
        cons_part-one b (split sep s) a (rw other at e) (split-ne-nil sep s) in
      let (same, free) = split-one sep s rest parts in
      (ap (λ t. b ∷ t) same ∙ sym first, (==→ne b sep other, free))
]

-- A text that is split into two parts is those with the separator between them, which is in neither.
pub split-two :
    (sep : ℕ) (s a c : Text)
    → split sep s ≡ a ∷ c ∷ []
    → (s ≡ a ++ sep ∷ c) × All (λ b. b ≢ sep) a × All (λ b. b ≢ sep) c
unfolding split
split-two sep [] a c e = absurd cc
split-two sep (b ∷ s) a c e = elim (Bool-cases (b == sep)) [
  | inl same ↦
      let cut : [] ∷ split sep s ≡ a ∷ c ∷ [] = rw same at e in
      let (later, free) = split-one sep s c (let f = cut in cc) in
      let is_empty : a ≡ [] = (let f = cut in cc) in
      rw is_empty (
        ap (λ t. t ∷ s) (==→≡ b sep same) ∙ ap (λ t. sep ∷ t) later,
        tt,
        subst (All (λ x. x ≢ sep)) later free,
      )
  | inr other ↦
      let (rest, first, parts) = cons_part-two b (split sep s) a c (rw other at e) in
      let (same, free_a, free_c) = split-two sep s rest c parts in
      rw first (ap (λ t. b ∷ t) same, (==→ne b sep other, free_a), free_c)
]

-- A line without line breaks is read as it was written.
abbrev pub IsInLine : ℕ → Type 0
IsInLine b = (b ≢ 10) × (b ≢ 13)

pub read_lines-line :
    (line rest : Text) → All IsInLine line → read_lines (line ++ 10 ∷ rest) ≡ line ∷ read_lines rest
unfolding read_lines
read_lines-line [] rest h = refl
read_lines-line (b ∷ s) rest h = rw (ne→== b 10 h.0.0, ne→== b 13 h.0.1, read_lines-line s rest h.1)

joined_line :
    (b : ℕ) (flag line_ends : Bool) (line : Text) (lines rest : List Text)
    → (if line_ends
        then [] ∷ ((line ∷ lines) ++ rest)
        else add_to_lines b flag ((line ∷ lines) ++ rest))
      ≡ (if line_ends then [] ∷ (line ∷ lines) else add_to_lines b flag (line ∷ lines)) ++ rest
joined_line b flag true line lines rest = refl
joined_line b true false line lines rest = refl
joined_line b false false line lines rest = refl

is_line :
    (b : ℕ) (flag line_ends : Bool) (line : Text) (lines : List Text)
    → (first : Text) × (more : List Text) × ((if line_ends
          then [] ∷ (line ∷ lines)
          else add_to_lines b flag (line ∷ lines))
        ≡ first ∷ more)
is_line b flag true line lines = ([], line ∷ lines, refl)
is_line b true false line lines = (line, lines, refl)
is_line b false false line lines = (b ∷ line, lines, refl)

-- A text that ends in a line break has a line.
read_lines-break :
    (s : Text) → (first : Text) × (more : List Text) × (read_lines (s ++ 10 ∷ []) ≡ first ∷ more)
unfolding read_lines
read_lines-break [] = ([], [], refl)
read_lines-break (b ∷ s) =
    let (first, more, e) = read_lines-break s in
    rw e (is_line b (b == 13 && starts_with 10 (s ++ 10 ∷ [])) (b == 10) first more)

starts_with-append :
    (s rest : Text) → starts_with 10 (s ++ 10 ∷ rest) ≡ starts_with 10 (s ++ 10 ∷ [])
starts_with-append [] rest = refl
starts_with-append (b ∷ s) rest = refl

-- A text that ends in a line break, followed by another.
pub read_lines-append :
    (s rest : Text) → read_lines (s ++ 10 ∷ rest) ≡ read_lines (s ++ 10 ∷ []) ++ read_lines rest
unfolding read_lines
read_lines-append [] rest = refl
read_lines-append (b ∷ s) rest =
    let (first, more, e) = read_lines-break s in
    rw (starts_with-append s rest, read_lines-append s rest, e)
      (joined_line b (b == 13 && starts_with 10 (s ++ 10 ∷ [])) (b == 10) first more
        (read_lines rest))
