-- ===== src/Generator/Program.antt =====
-- What Go makes of the file that protocol/cmd/main.go generates: a reader of such programs, which is
-- independent of the generator. It refuses what would not compile.
use gogame.Common.{ℕ, Bool, true, ◌&&◌, List, [], ◌∷◌, Option, none, some, if◌then◌else◌, ◌==◌}
use gogame.Processor.{Processor, new_processor, register_all}
use gogame.Text.{Text, codes, equals, has_prefix, split}
use gogame.Text.Numbers.{parse_unsigned}

-- What follows a prefix.
unfoldable pub after : Text → Text → Option Text
after [] s = some s
after (p ∷ prefix) [] = none
after (p ∷ prefix) (b ∷ s) = let rest = after prefix s in if b == p then rest else none

-- A line `NAME = NUMBER` and then nothing, or a comment.
abbrev pub ends_line : Text → List Text → Bool
ends_line [] [] = true
ends_line first more = has_prefix first (b'/' ∷ b'/' ∷ [])

abbrev pub named : Text → Option ℕ → Option (Text × ℕ)
named name none = none
named name (some n) = some (name, n)

abbrev pub constant_parts : List Text → Option (Text × ℕ)
constant_parts (name ∷ equal ∷ value ∷ first ∷ more) =
    if equals equal (b'=' ∷ []) && ends_line first more
    then named name (parse_unsigned value)
    else none
constant_parts _ = none

unfoldable pub constant_of : Text → Option (Text × ℕ)
unfolding equals split has_prefix
constant_of line = constant_parts (split b' ' line)

-- A line `processor.Register(NAME, (*pb.TYPE)(nil))`.
abbrev pub call_prefix : Text
call_prefix = 9 ∷ codes "processor.Register("

abbrev pub type_prefix : Text
type_prefix = codes " (*pb."

abbrev pub closed_call : Text → List Text → Option (Text × Text)
closed_call name (type ∷ value ∷ a ∷ b ∷ []) =
    if equals value (codes "(nil") && (equals a [] && equals b []) then some (name, type) else none
closed_call name _ = none

abbrev pub typed_call : Text → Option Text → Option (Text × Text)
typed_call name none = none
typed_call name (some s) = closed_call name (split b')' s)

abbrev pub call_parts : List Text → Option (Text × Text)
call_parts (name ∷ arg ∷ []) = typed_call name (after type_prefix arg)
call_parts _ = none

abbrev pub call_rest : Option Text → Option (Text × Text)
call_rest none = none
call_rest (some s) = call_parts (split b',' s)

unfoldable pub call_of : Text → Option (Text × Text)
unfolding after split equals
call_of line = call_rest (after call_prefix line)

-- The lines of a block up to its last one, and what follows.
abbrev pub with_line {ℓ} :
    {A : Type ℓ} → Option A → Option (List A × List Text) → Option (List A × List Text)
with_line none rest = none
with_line (some x) none = none
with_line (some x) (some (xs, lines)) = some (x ∷ xs, lines)

unfoldable pub read_block {ℓ} :
    {A : Type ℓ} → (Text → Option A) → Text → List Text → Option (List A × List Text)
unfolding equals
read_block line_of end [] = none
read_block line_of end (line ∷ lines) =
    let rest = read_block line_of end lines in
    if equals line end then some ([], lines) else with_line (line_of line) rest

-- The constants and the calls of a file.
pub record Program : Type 0 where
  pub constants : List (Text × ℕ)
  pub calls : List (Text × Text)

abbrev pub with_calls : List (Text × ℕ) → Option (List (Text × Text) × List Text) → Option Program
with_calls constants (some (calls, [] ∷ [])) =
    some (record { constants = constants; calls = calls })
with_calls constants _ = none

abbrev pub with_constants : Option (List (Text × ℕ) × List Text) → Option Program
with_constants (some (constants, head ∷ first ∷ lines)) =
    if equals head (codes "func init() {") && equals first (codes "processor = NewProcessor()")
    then with_calls constants (read_block call_of (b'}' ∷ []) lines)
    else none
with_constants _ = none

unfoldable pub read_program : List Text → Option Program
unfolding read_block constant_of call_of
read_program (comment ∷ clause ∷ imports ∷ block ∷ lines) =
    if has_prefix comment (b'/' ∷ b'/' ∷ [])
      && (equals clause (codes "package protocol")
          && (equals imports (codes "import \"gogame/protocol/pb\"")
              && equals block (codes "const(")))
    then with_constants (read_block constant_of (b')' ∷ []) lines)
    else none
read_program _ = none

-- `init`: a new processor, and `Register` for each call, with the constant's value.
unfoldable pub value_of : Text → List (Text × ℕ) → Option ℕ
value_of name [] = none
value_of name ((n, v) ∷ constants) =
    let rest = value_of name constants in if equals n name then some v else rest

abbrev pub with_call : Option ℕ → ℕ → Option (List (ℕ × ℕ)) → Option (List (ℕ × ℕ))
with_call (some id) t (some calls) = some ((id, t) ∷ calls)
with_call _ t _ = none

unfoldable pub resolve : (Text → ℕ) → List (Text × ℕ) → List (Text × Text) → Option (List (ℕ × ℕ))
unfolding value_of
resolve type_of constants [] = some []
resolve type_of constants ((name, type) ∷ calls) =
    with_call (value_of name constants) (type_of type) (resolve type_of constants calls)

abbrev pub run_calls : Option (List (ℕ × ℕ)) → Option Processor
run_calls none = none
run_calls (some calls) = some (register_all calls new_processor)

abbrev pub run_program : (Text → ℕ) → Option Program → Option Processor
run_program type_of none = none
run_program type_of (some p) = run_calls (resolve type_of p.constants p.calls)

-- The processor after the package of a file's text is initialised, if it compiles.
unfoldable pub run_init : (Text → ℕ) → Text → Option Processor
unfolding read_program resolve
run_init type_of text = run_program type_of (read_program (split 10 text))
