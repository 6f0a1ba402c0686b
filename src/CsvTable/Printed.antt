-- ===== src/CsvTable/Printed.antt =====
-- A list of numbers, written with commas, is read by `StringArray.ToInt`.
use gogame.Common.{
  ℕ, ◌^◌, ◌<◌, ◌≡◌, ◌≢◌, refl, sym, ap, ◌∙◌, true, false, List, [], ◌∷◌, ◌++◌, map, some, ne→==,
  arith, All, All-append, All-map,
}
use gogame.Text.{Text, is_in, trim, trim_left, split, print_decimal, codes}
use gogame.Text.Numbers.{
  IsDigit, print_decimal-IsDigit, print_decimal-starts, atoi, parse_decimal, parse_decimal-print,
  positive,
}
use gogame.Text.Trimmed.{trim_right-free}
use gogame.Text.Joined.{split-free, split-append}
use gogame.CsvTable.{split_list, to_string, parse_all, to_int}

-- Any number of an `int` that is not negative has at most 19 digits.
abbrev pub print_number : ℕ → Text
print_number n = print_decimal 19 n

unfoldable pub join_numbers : List ℕ → Text
join_numbers [] = []
join_numbers (n ∷ []) = print_number n
join_numbers (n ∷ m ∷ ns) = print_number n ++ b',' ∷ join_numbers (m ∷ ns)

atoi-digits :
    (a : ℕ) (t : Text) (n : ℕ)
    → IsDigit a
    → n < 2 ^ 63
    → parse_decimal 0 (a ∷ t) ≡ some n
    → atoi (a ∷ t) ≡ some n
unfolding atoi
atoi-digits a t n d h e =
    rw (ne→== a b'-' (omega arith), ne→== a b'+' (omega arith)) (ap positive e ∙ ground arith)

atoi-print_number : (n : ℕ) → n < 2 ^ 63 → atoi (print_number n) ≡ some n
atoi-print_number n h =
    let (a, t, e) = print_decimal-starts 18 n in
    let digits : All IsDigit (a ∷ t) = rw e at (print_decimal-IsDigit 19 n) in
    rw e (atoi-digits a t n digits.0 h (rw e at (parse_decimal-print 19 n (omega arith))))

parse_all-print_number :
    (ns : List ℕ) → All (λ n. n < 2 ^ 63) ns → parse_all atoi (map print_number ns) ≡ (ns, true)
unfolding parse_all
parse_all-print_number [] h = refl
parse_all-print_number (n ∷ ns) h = rw (atoi-print_number n h.0, parse_all-print_number ns h.1) refl

digit_not_comma : (s : Text) → All IsDigit s → All (λ b. b ≢ b',') s
digit_not_comma s = All-map IsDigit (λ b. b ≢ b',') (λ b d e. omega arith) s

split-join_numbers :
    (n : ℕ) (ns : List ℕ) → split b',' (join_numbers (n ∷ ns)) ≡ map print_number (n ∷ ns)
unfolding join_numbers
split-join_numbers n [] =
    split-free b',' (print_number n) (digit_not_comma (print_number n) (print_decimal-IsDigit 19 n))
split-join_numbers n (m ∷ ns) =
    split-append b',' (print_number n) (join_numbers (m ∷ ns))
      (digit_not_comma (print_number n) (print_decimal-IsDigit 19 n))
    ∙ ap (λ r. print_number n ∷ r) (split-join_numbers m ns)

-- Neither digits nor commas are trimmed.
abbrev brackets : Text
brackets = codes " []{}"

digit_stays : (b : ℕ) → IsDigit b → is_in b brackets ≡ false
unfolding is_in
digit_stays b d = ground arith

digits_stay : (n : ℕ) → All (λ b. is_in b brackets ≡ false) (print_number n)
digits_stay n =
    All-map IsDigit (λ b. is_in b brackets ≡ false) digit_stays (print_number n)
      (print_decimal-IsDigit 19 n)

join_numbers-stays : (ns : List ℕ) → All (λ b. is_in b brackets ≡ false) (join_numbers ns)
unfolding join_numbers is_in
join_numbers-stays [] = tt
join_numbers-stays (n ∷ []) = digits_stay n
join_numbers-stays (n ∷ m ∷ ns) =
    All-append (λ b. is_in b brackets ≡ false) (print_number n) (b',' ∷ join_numbers (m ∷ ns))
      (digits_stay n) (refl, join_numbers-stays (m ∷ ns))

join_numbers-starts : (n : ℕ) (ns : List ℕ) → (a : ℕ) × (t : Text) × (join_numbers (n ∷ ns) ≡ a ∷ t)
unfolding join_numbers
join_numbers-starts n [] = print_decimal-starts 18 n
join_numbers-starts n (m ∷ ns) =
    let (a, t, e) = print_decimal-starts 18 n in (a, t ++ b',' ∷ join_numbers (m ∷ ns), rw e refl)

-- A list in brackets, as the tables have it.
abbrev pub print_list : List ℕ → Text
print_list ns = b'[' ∷ join_numbers ns ++ b']' ∷ []

trim-print_list :
    (a : ℕ) (t : Text)
    → All (λ b. is_in b brackets ≡ false) (a ∷ t)
    → trim brackets (b'[' ∷ (a ∷ t) ++ b']' ∷ []) ≡ a ∷ t
unfolding trim trim_left is_in
trim-print_list a t h = rw h.0 (trim_right-free brackets (a ∷ t) (b']' ∷ []) h (refl, tt))

to_string-print_list :
    (n : ℕ) (ns : List ℕ) → to_string (print_list (n ∷ ns)) ≡ map print_number (n ∷ ns)
unfolding to_string
to_string-print_list n ns =
    let (a, t, e) = join_numbers-starts n ns in
    let stays : All (λ b. is_in b brackets ≡ false) (a ∷ t) =
      rw e at (join_numbers-stays (n ∷ ns)) in
    ap (λ s. split_list (trim brackets (b'[' ∷ s ++ b']' ∷ []))) e
    ∙ ap split_list (trim-print_list a t stays)
    ∙ ap (split b',') (sym e)
    ∙ split-join_numbers n ns

to_int_empty : to_int (print_list []) ≡ ([], true)
unfolding to_int join_numbers trim_left
to_int_empty = refl

-- What was printed is read, with no error.
pub to_int-print_list :
    (ns : List ℕ) → All (λ n. n < 2 ^ 63) ns → to_int (print_list ns) ≡ (ns, true)
unfolding to_int
to_int-print_list [] h = to_int_empty
to_int-print_list (n ∷ ns) h =
    ap (parse_all atoi) (to_string-print_list n ns) ∙ parse_all-print_number (n ∷ ns) h
