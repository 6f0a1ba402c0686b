-- ===== src/Generator/Tests.antt =====
-- Runs of the generator on a small register file, and the theorems at these inputs.
use gogame.Common.{
  false, ◌⊎◌, ℕ, ◌<◌, ◌≡◌, refl, inl, inr, [], ◌∷◌, ◌++◌, List, none, some, arith, All, All-map,
}
use gogame.Text.{Text, codes, is_in, parse_uint16, print_hex, trim}
use gogame.Generator.{
  Decl, Globals, Loading, Outcome, load_register_file, load_proto_file, writer_new_proto, gen_file,
  generate, entry,
}
use gogame.Generator.Missing.{types_of}
use gogame.Generator.Reload.{IsWritable, HasSameIds}
use gogame.Generator.Entries.{IsPlain}
use gogame.Text.Joined.{IsInLine}
use gogame.Generator.Again.{generate-generate}
use gogame.Processor.{Processor}

abbrev text : Text
text = codes "MessageA = 0x10 // first\r\n\nMessageC=12"

-- The last declaration is grouped: its second type is not looked at.
abbrev decls : List Decl
decls =
    record { doc = []; specs = none ∷ some (codes "Other") ∷ [] }
    ∷ record { doc = codes "second\n"; specs = some (codes "MessageB") ∷ [] }
    ∷ record { doc = []; specs = some (codes "MessageC") ∷ [] }
    ∷ record { doc = []; specs = some (codes "MessageD") ∷ some (codes "MessageE") ∷ [] }
    ∷ []

abbrev loaded : Loading
loaded = record {
  id_map = (16, codes "MessageA") ∷ (12, codes "MessageC") ∷ [];
  globals = record {
    all_items =
        record { id = 16; msg = codes "MessageA"; comma = codes "// first" }
        ∷ record { id = 12; msg = codes "MessageC"; comma = [] }
        ∷ [];
    append_items = [];
    item_map = (codes "MessageC", 12) ∷ (codes "MessageA", 16) ∷ [];
    max_msg_id = 16;
  };
}

text_is_loaded : load_register_file (text ++ 10 ∷ []) ≡ Outcome.goes_on loaded
unfolding load_register_file trim
text_is_loaded = refl

-- Ids without a number, too large, and of hexadecimal digits without `0x`.
no_number : parse_uint16 10 (codes "1f") ≡ (0, false)
unfolding parse_uint16
no_number = refl

too_large : parse_uint16 16 (codes "10000g") ≡ (65535, false)
unfolding parse_uint16
too_large = refl

twice_registered : load_register_file (codes "MessageA = 1\nMessageB = 0x1\n") ≡ Outcome.exits
unfolding load_register_file trim
twice_registered = refl

-- A second line of a comment is taken for an entry, and the rest of the file is not read.
second_line :
    load_register_file (codes "MessageA = 1 // one\ntwo\nMessageB = 2\n")
    ≡ Outcome.broken (record {
      id_map = (1, codes "MessageA") ∷ [];
      globals = record {
        all_items = record { id = 1; msg = codes "MessageA"; comma = codes "// one" } ∷ [];
        append_items = [];
        item_map = (codes "MessageA", 1) ∷ [];
        max_msg_id = 1;
      };
    })
unfolding load_register_file trim
second_line = refl

new_entry :
    entry (record { id = 0x1A; msg = codes "MessageB"; comma = codes "doc\n" })
    ≡ codes "MessageB = 0x1A // doc\n\n"
unfolding entry print_hex
new_entry = refl

letter-IsPlain : (b : ℕ) → 64 < b → IsPlain b
unfolding is_in
letter-IsPlain b h = ground arith

is_writable :
    (a : ℕ) (letters line doc : Text)
    → All (λ b. 64 < b) (a ∷ letters)
    → All IsInLine line
    → (doc ≡ line) ⊎ (doc ≡ line ++ 10 ∷ [])
    → IsWritable (a ∷ letters) doc
is_writable a letters line doc plain in_line documented = record {
  first = a;
  letters = letters;
  named = refl;
  plain = All-map (λ b. 64 < b) IsPlain letter-IsPlain (a ∷ letters) plain;
  line = line;
  in_line = in_line;
  documented = documented;
}

types-IsWritable : All (λ t. IsWritable t.0 t.1) (types_of decls)
types-IsWritable = (
  is_writable b'O' (codes "ther") [] [] (omega arith) tt (inl refl),
  (
    is_writable b'M' (codes "essageB") (codes "second") (codes "second\n") (omega arith)
        (omega arith) (inr refl),
    (
      is_writable b'M' (codes "essageC") [] [] (omega arith) tt (inl refl),
      (is_writable b'M' (codes "essageD") [] [] (omega arith) tt (inl refl), tt),
    ),
  ),
)

generate-generate_example :
    (g : Globals) × (generate
        (writer_new_proto (text ++ 10 ∷ []) (load_proto_file decls loaded.globals))
        decls
      ≡ some (
        g,
        writer_new_proto (text ++ 10 ∷ []) (load_proto_file decls loaded.globals),
        gen_file g,
      ))
    × HasSameIds g (load_proto_file decls loaded.globals)
generate-generate_example =
    generate-generate text decls loaded text_is_loaded (omega arith) types-IsWritable

-- A type for each message, by the last letter of its name.
abbrev last_byte : Text → ℕ
last_byte [] = 0
last_byte (b ∷ []) = b
last_byte (b ∷ c ∷ s) = last_byte (c ∷ s)

-- Declarations without doc comments, for which the generated file compiles.
abbrev plain_decls : List Decl
plain_decls =
    record { doc = []; specs = some (codes "MessageB") ∷ [] }
    ∷ record { doc = []; specs = some (codes "MessageD") ∷ some (codes "MessageE") ∷ [] }
    ∷ []
