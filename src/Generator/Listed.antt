-- ===== src/Generator/Listed.antt =====
-- The whole file that `genFile` writes, as the reader of Generator/Program reads it.
use gogame.Common.{
  ℕ, ◌≡◌, ◌≢◌, refl, sym, ap, ◌∙◌, inl, inr, false, List, [], ◌∷◌, ◌++◌, Option, some, All, map,
  Bool-cases, drop,
}
use mathlib.Core.List.{append_assoc}
use gogame.Text.{Text, codes, equals, split, has_prefix}
use gogame.Text.Trimmed.{equals_refl, equals→≡}
use gogame.Text.Joined.{split-append}
use gogame.Processor.{new_processor, register_all}
use gogame.Generator.{Item, Globals, constant_line, register_line, lines_of, gen_file}
use gogame.Generator.Program.{
  constant_of, call_of, read_block, Program, with_calls, with_constants, read_program, value_of,
  resolve, run_calls, run_program, run_init,
}
use gogame.Generator.Compiled.{
  IsCompiled, constant_name, constant_text, call_text, constant_of-text, call_of-text,
  constant_text-free, call_text-free, constant_line-text, register_line-text,
}

-- A block of one line for each item, each of which is read as the item's value.
module _ {A : Type 0} (line_of : Text → Option A) (end : Text) (text : Item → Text)
    (value : Item → A) (P : Item → Type 0)
    (reads : (it : Item) → P it → line_of (text it) ≡ some (value it))
    (differs : (it : Item) → equals (text it) end ≡ false) where
  read_block-map :
      (items : List Item) (lines : List Text)
      → All P items
      → read_block line_of end (map text items ++ end ∷ lines) ≡ some (map value items, lines)
  unfolding read_block
  read_block-map [] lines h = rw (equals_refl end) refl
  read_block-map (it ∷ items) lines h =
      rw (differs it, reads it h.0, read_block-map items lines h.1) refl

module _ (line text : Item → Text) (P : Item → Type 0)
    (free : (it : Item) → P it → All (λ b. b ≢ 10) (text it))
    (broken : (it : Item) (rest : Text) → P it → line it ++ rest ≡ text it ++ 10 ∷ rest) where
  split-lines_of :
      (items : List Item) (rest : Text)
      → All P items
      → split 10 (lines_of line items ++ rest) ≡ map text items ++ split 10 rest
  split-lines_of [] rest h = refl
  split-lines_of (it ∷ items) rest h =
      ap (split 10) (append_assoc (line it) (lines_of line items) rest)
      ∙ ap (split 10) (broken it (lines_of line items ++ rest) h.0)
      ∙ split-append 10 (text it) (lines_of line items ++ rest) (free it h.0)
      ∙ ap (λ r. text it ∷ r) (split-lines_of items rest h.1)

abbrev constant : Item → Text × ℕ
constant it = (constant_name it, it.id)

abbrev call : Item → Text × Text
call it = (constant_name it, it.msg)

abbrev tail_text : List Item → Text
tail_text items =
    codes ")\nfunc init() {\nprocessor = NewProcessor()\n"
    ++ (lines_of register_line items ++ codes "}\n")

abbrev tail_lines : List Item → List Text
tail_lines items =
    codes ")"
    ∷ codes "func init() {"
    ∷ codes "processor = NewProcessor()"
    ∷ (map call_text items ++ codes "}" ∷ [] ∷ [])

split-tail :
    (items : List Item) → All IsCompiled items → split 10 (tail_text items) ≡ tail_lines items
unfolding split
split-tail items h =
    ap (λ r. codes ")" ∷ codes "func init() {" ∷ codes "processor = NewProcessor()" ∷ r)
      (split-lines_of register_line call_text IsCompiled call_text-free
        (λ it rest c. register_line-text it c rest) items (codes "}\n") h)

read_calls :
    (items : List Item)
    → All IsCompiled items
    → read_block call_of (codes "}") (map call_text items ++ codes "}" ∷ [] ∷ [])
      ≡ some (map call items, [] ∷ [])
read_calls items h =
    read_block-map call_of (codes "}") call_text call IsCompiled (λ it c. call_of-text it c)
      (λ it. unfold equals in refl) items ([] ∷ []) h

read_constants :
    (items : List Item) (lines : List Text)
    → All IsCompiled items
    → read_block constant_of (codes ")") (map constant_text items ++ codes ")" ∷ lines)
      ≡ some (map constant items, lines)
read_constants items lines h =
    read_block-map constant_of (codes ")") constant_text constant IsCompiled
      (λ it c. constant_of-text it c) (λ it. unfold equals in refl) items lines h

abbrev program : List Item → Program
program items = record { constants = map constant items; calls = map call items }

abbrev head_lines : List Text → List Text
head_lines lines =
    codes "// Code generated by go proto generate tool. DO NOT EDIT."
    ∷ codes "package protocol"
    ∷ codes "import \"gogame/protocol/pb\""
    ∷ codes "const("
    ∷ lines

split-gen_file :
    (g : Globals)
    → All IsCompiled g.all_items
    → split 10 (gen_file g) ≡ head_lines (map constant_text g.all_items ++ tail_lines g.all_items)
unfolding split gen_file
split-gen_file g h = ap head_lines (
    split-lines_of constant_line constant_text IsCompiled constant_text-free
      (λ it rest c. constant_line-text it c rest) g.all_items (tail_text g.all_items) h
    ∙ ap (λ r. map constant_text g.all_items ++ r) (split-tail g.all_items h))

read_head :
    (lines : List Text)
    → read_program (head_lines lines) ≡ with_constants (read_block constant_of (codes ")") lines)
unfolding read_program equals has_prefix
read_head lines = refl

read_tail :
    (items : List Item)
    → All IsCompiled items
    → with_constants (
        some (
          map constant items,
          codes "func init() {"
              ∷ codes "processor = NewProcessor()"
              ∷ (map call_text items ++ codes "}" ∷ [] ∷ []),
        ))
      ≡ some (program items)
unfolding equals
read_tail items h = ap (with_calls (map constant items)) (read_calls items h)

read-gen_file :
    (g : Globals)
    → All IsCompiled g.all_items
    → read_program (split 10 (gen_file g)) ≡ some (program g.all_items)
read-gen_file g h =
    ap read_program (split-gen_file g h)
    ∙ read_head (map constant_text g.all_items ++ tail_lines g.all_items)
    ∙ ap with_constants (read_constants g.all_items _ h)
    ∙ read_tail g.all_items h

-- The constants of items with different names have their ids.
abbrev pub HaveDistinctNames : List Item → Type 0
HaveDistinctNames [] = Unit {0}
HaveDistinctNames (it ∷ items) = All (λ x. x.msg ≢ it.msg) items × HaveDistinctNames items

abbrev HasValue : List Item → Item → Type 0
HasValue items it = value_of (constant_name it) (map constant items) ≡ some it.id

value_of-later :
    (first : Item) (items others : List Item)
    → All (λ x. x.msg ≢ first.msg) others
    → All (HasValue items) others
    → All (HasValue (first ∷ items)) others
unfolding value_of
value_of-later first items [] apart h = tt
value_of-later first items (x ∷ others) apart h = (
  elim (Bool-cases (equals (constant_name first) (constant_name x))) [
    | inl same ↦
        absurd (apart.0 (ap (drop 6) (sym (equals→≡ (constant_name first) (constant_name x) same))))
    | inr other ↦ rw other h.0
  ],
  value_of-later first items others apart.1 h.1,
)

All-HasValue : (items : List Item) → HaveDistinctNames items → All (HasValue items) items
unfolding value_of
All-HasValue [] h = tt
All-HasValue (it ∷ items) h = (
  rw (equals_refl (constant_name it)) refl,
  value_of-later it items items h.0 (All-HasValue items h.1),
)

-- The calls of `Register`, by the types of the messages.
abbrev pub registrations : (Text → ℕ) → List Item → List (ℕ × ℕ)
registrations type_of [] = []
registrations type_of (it ∷ items) = (it.id, type_of it.msg) ∷ registrations type_of items

resolve-calls :
    (type_of : Text → ℕ) (all items : List Item)
    → All (HasValue all) items
    → resolve type_of (map constant all) (map call items) ≡ some (registrations type_of items)
unfolding resolve
resolve-calls type_of all [] h = refl
resolve-calls type_of all (it ∷ items) h = rw (h.0, resolve-calls type_of all items h.1) refl

-- The file compiles, and its `init` makes these calls.
pub run_init-gen_file :
    (type_of : Text → ℕ) (g : Globals)
    → All IsCompiled g.all_items
    → HaveDistinctNames g.all_items
    → run_init type_of (gen_file g)
      ≡ some (register_all (registrations type_of g.all_items) new_processor)
unfolding run_init
run_init-gen_file type_of g h apart =
    ap (run_program type_of) (read-gen_file g h)
    ∙ ap run_calls (resolve-calls type_of g.all_items g.all_items (All-HasValue g.all_items apart))
