-- ===== src/Generator/Compiled.antt =====
-- What the reader of Generator/Program makes of the lines that `genFile` writes.
use gogame.Common.{
  ℕ, ◌<◌, ◌≡◌, ◌≢◌, ◌⊎◌, inl, inr, refl, sym, ap, ◌∙◌, true, List, [], ◌∷◌, ◌++◌, none, some,
  if◌then◌else◌, arith, All, All-append, All-map,
}
use mathlib.Core.List.{append_assoc}
use gogame.Text.{Text, codes, equals, has_prefix, split, print_decimal, cons_part}
use gogame.Text.Numbers.{
  parse_unsigned, parse_decimal, parse_decimal-print, print_decimal-IsDigit, print_decimal-starts,
  IsDigit,
}
use gogame.Text.Joined.{split-free, split-append}
use gogame.Generator.{Item, constant_line, register_line}
use gogame.Generator.Program.{
  after, ends_line, named, constant_parts, constant_of, call_prefix, type_prefix, closed_call,
  call_parts, call_of,
}

-- Letters, digits and `_` are `0` and above.
abbrev pub IsLetter : ℕ → Type 0
IsLetter b = 47 < b

-- A comment in its line, or nothing.
abbrev pub IsComment : Text → Type 0
IsComment s = (s ≡ []) ⊎ ((rest : Text) × (s ≡ b'/' ∷ b'/' ∷ rest))

pub record IsCompiled (it : Item) : Type 0 where
  pub word : it.id < 65536
  pub name : All IsLetter it.msg
  pub comment : IsComment it.comma
  pub in_line : All (λ b. b ≢ 10) it.comma

abbrev pub constant_name : Item → Text
constant_name it = codes "MsgID_" ++ it.msg

-- The lines of an item without their line breaks.
abbrev pub constant_text : Item → Text
constant_text it =
    constant_name it ++ b' ' ∷ (b'=' ∷ b' ' ∷ (print_decimal 5 it.id ++ b' ' ∷ it.comma))

abbrev pub type_arg : Item → Text
type_arg it = type_prefix ++ (it.msg ++ b')' ∷ codes "(nil))")

abbrev pub call_text : Item → Text
call_text it = call_prefix ++ (constant_name it ++ b',' ∷ type_arg it)

free_of : (sep : ℕ) (s : Text) → sep < 48 → All IsLetter s → All (λ b. b ≢ sep) s
free_of sep s h = All-map IsLetter (λ b. b ≢ sep) (λ b l e. omega arith) s

name-free :
    (sep : ℕ) (it : Item) → sep < 48 → All IsLetter it.msg → All (λ b. b ≢ sep) (constant_name it)
name-free sep it h l =
    free_of sep (constant_name it) h
      (omega arith, (omega arith, (omega arith, (omega arith, (omega arith, (omega arith, l))))))

digits-free : (sep n : ℕ) → sep < 48 → All (λ b. b ≢ sep) (print_decimal 5 n)
digits-free sep n h =
    All-map IsDigit (λ b. b ≢ sep) (λ b d e. omega arith) (print_decimal 5 n)
      (print_decimal-IsDigit 5 n)

split-starts :
    (b : ℕ) (parts : List Text)
    → (p : Text) × (more : List Text) × (cons_part b parts ≡ (b ∷ p) ∷ more)
split-starts b [] = ([], [], refl)
split-starts b (p ∷ more) = (p, more, refl)

comment-parts :
    (s : Text)
    → IsComment s
    → (first : Text) × (more : List Text) × (split b' ' s ≡ first ∷ more)
      × (ends_line first more ≡ true)
unfolding split has_prefix
comment-parts s (inl e) = ([], [], rw e refl, refl)
comment-parts s (inr (rest, e)) =
    let (p, more, f) = split-starts b'/' (split b' ' rest) in
    (b'/' ∷ b'/' ∷ p, more, rw (e, f) refl, refl)

unsigned-print : (n : ℕ) → n < 65536 → parse_unsigned (print_decimal 5 n) ≡ some n
unsigned-print n h =
    let (a, t, e) = print_decimal-starts 4 n in
    ap parse_unsigned e ∙ ap (parse_decimal 0) (sym e) ∙ parse_decimal-print 5 n (omega arith)

module _ (it : Item) (c : IsCompiled it) where
  constant-parts :
      (first : Text) (more : List Text)
      → split b' ' it.comma ≡ first ∷ more
      → split b' ' (constant_text it)
        ≡ constant_name it ∷ (b'=' ∷ []) ∷ print_decimal 5 it.id ∷ first ∷ more
  unfolding split
  constant-parts first more e =
      split-append b' ' (constant_name it) _ (name-free b' ' it (omega arith) c.name)
      ∙ ap (λ r. constant_name it ∷ (b'=' ∷ []) ∷ r)
          (split-append b' ' (print_decimal 5 it.id) it.comma (digits-free b' ' it.id (omega arith))
            ∙ ap (λ r. print_decimal 5 it.id ∷ r) e)

  pub constant_of-text : constant_of (constant_text it) ≡ some (constant_name it, it.id)
  unfolding constant_of equals
  constant_of-text =
      let (first, more, e, ends) = comment-parts it.comma c.comment in
      ap constant_parts (constant-parts first more e)
      ∙ ap
          (λ b.
            if b then named (constant_name it) (parse_unsigned (print_decimal 5 it.id)) else none)
          ends
      ∙ ap (named (constant_name it)) (unsigned-print it.id c.word)

  type_arg-free : All (λ b. b ≢ b',') (type_arg it)
  type_arg-free =
      All-append (λ b. b ≢ b',') type_prefix (it.msg ++ b')' ∷ codes "(nil))") (omega arith)
        (All-append (λ b. b ≢ b',') it.msg (b')' ∷ codes "(nil))")
          (free_of b',' it.msg (omega arith) c.name) (omega arith))

  pub call_of-text : call_of (call_text it) ≡ some (constant_name it, it.msg)
  unfolding call_of after equals split
  call_of-text =
      ap call_parts (
        split-append b',' (constant_name it) (type_arg it) (name-free b',' it (omega arith) c.name)
        ∙ ap (λ r. constant_name it ∷ r) (split-free b',' (type_arg it) type_arg-free))
      ∙ ap (closed_call (constant_name it))
          (split-append b')' it.msg (codes "(nil))") (free_of b')' it.msg (omega arith) c.name))

  pub constant_text-free : All (λ b. b ≢ 10) (constant_text it)
  constant_text-free =
      All-append (λ b. b ≢ 10) (constant_name it) _ (name-free 10 it (omega arith) c.name)
        (
          omega arith,
          (
            omega arith,
            (
              omega arith,
              All-append (λ b. b ≢ 10) (print_decimal 5 it.id) (b' ' ∷ it.comma)
                  (digits-free 10 it.id (omega arith)) (omega arith, c.in_line),
            ),
          ),
        )

  pub call_text-free : All (λ b. b ≢ 10) (call_text it)
  call_text-free =
      All-append (λ b. b ≢ 10) call_prefix (constant_name it ++ b',' ∷ type_arg it) (omega arith)
        (All-append (λ b. b ≢ 10) (constant_name it) (b',' ∷ type_arg it)
          (name-free 10 it (omega arith) c.name)
          (
            omega arith,
            All-append (λ b. b ≢ 10) type_prefix (it.msg ++ b')' ∷ codes "(nil))") (omega arith)
                (All-append (λ b. b ≢ 10) it.msg (b')' ∷ codes "(nil))")
                  (free_of 10 it.msg (omega arith) c.name) (omega arith)),
          ))

  pub constant_line-text : (rest : Text) → constant_line it ++ rest ≡ constant_text it ++ 10 ∷ rest
  constant_line-text rest = simp append_assoc

  pub register_line-text : (rest : Text) → register_line it ++ rest ≡ call_text it ++ 10 ∷ rest
  register_line-text rest = simp append_assoc
