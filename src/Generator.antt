-- ===== src/Generator.antt =====
-- The generator of the registration code, protocol/cmd/main.go. Its globals are a record; a file is
-- its text; the program's `os.Exit(1)` on an id that is registered twice is an outcome. The parser
-- of Go files is not modelled: `load_proto_file` takes the declarations in the order in which
-- `ast.Inspect` meets them, each with the text of its doc comment.
pub mod Missing
pub mod Entries
pub mod Loaded
pub mod Written
pub mod Reload
pub mod Again
pub mod Program
pub mod Compiled
pub mod Listed
pub mod Registered
pub mod Runs
mod Tests
use gogame.Common.{
  ℕ, ◌+◌, ◌%◌, Bool, true, false, List, [], ◌∷◌, ◌++◌, Option, none, some, if◌then◌else◌, ltb,
}
use gogame.Common.Assoc
use gogame.Text.{
  Text, equals, has_prefix, trim_space, split, read_lines, to_lower, cut_comment, parse_uint16,
  print_hex, print_decimal, codes,
}
use gogame.Common.{drop}

-- `pbItem`
pub record Item : Type 0 where
  pub id : ℕ
  pub msg : Text
  pub comma : Text

-- `gAllItems`, `gAppendItems`, `gItemMap` with its newest entry first, and `gMaxMsgId`.
pub record Globals : Type 0 where
  pub all_items : List Item
  pub append_items : List Item
  pub item_map : List (Text × ℕ)
  pub max_msg_id : ℕ

abbrev pub new_globals : Globals
new_globals = record { all_items = []; append_items = []; item_map = []; max_msg_id = 0 }

unfoldable pub find_id : Text → List (Text × ℕ) → Option ℕ
unfolding equals
find_id msg [] = none
find_id msg ((name, id) ∷ names) = if equals name msg then some id else find_id msg names

-- The globals with the local `idMap`.
pub record Loading : Type 0 where
  pub id_map : List (ℕ × Text)
  pub globals : Globals

-- What a line does: the loop goes on, is left by `break`, or the program exits.
pub data Outcome : Type 0 where
  goes_on : Loading → Outcome
  broken : Loading → Outcome
  exits : Outcome

-- An error of `ParseUint` is printed, and its value used.
unfoldable pub parse_id : Text → ℕ
unfolding has_prefix parse_uint16
parse_id s =
    if has_prefix s (b'0' ∷ b'x' ∷ [])
    then (parse_uint16 16 (drop 2 s)).0
    else (parse_uint16 10 s).0

abbrev pub larger : ℕ → ℕ → ℕ
larger id most = if ltb most id then id else most

abbrev pub add_item : Item → Globals → Globals
add_item it g = record {
  all_items = g.all_items ++ it ∷ [];
  append_items = g.append_items;
  item_map = (it.msg, it.id) ∷ g.item_map;
  max_msg_id = larger it.id g.max_msg_id;
}

abbrev pub register_unless : Option Text → Item → Loading → Outcome
register_unless (some name) it l = exits
register_unless none it l =
    goes_on
      (record { id_map = Assoc.insert it.id it.msg l.id_map; globals = add_item it l.globals })

unfoldable pub register_item : Item → Loading → Outcome
unfolding Assoc.lookup Assoc.insert
register_item it l = register_unless (Assoc.lookup it.id l.id_map) it l

abbrev pub item_of : Text → Text → Text → Item
item_of name id comma = record {
  id = parse_id (to_lower (trim_space id));
  msg = trim_space name;
  comma = comma;
}

unfoldable pub load_parts : List Text → Text → Loading → Outcome
unfolding parse_id to_lower register_item
load_parts (name ∷ id ∷ []) comma l = register_item (item_of name id comma) l
load_parts _ comma l = broken l

abbrev pub load_content : Text → Text → Loading → Outcome
load_content [] comma l = goes_on l
load_content (b ∷ content) comma l = load_parts (split b'=' (b ∷ content)) comma l

abbrev pub load_cut : Text × Text → Loading → Outcome
load_cut (line, comma) l = load_content (trim_space line) comma l

unfoldable pub load_line : Text → Loading → Outcome
unfolding cut_comment load_parts split
load_line line l = load_cut (cut_comment line) l

unfoldable pub load_lines : List Text → Outcome → Outcome
unfolding load_line
load_lines lines (broken l) = broken l
load_lines lines exits = exits
load_lines [] (goes_on l) = goes_on l
load_lines (line ∷ lines) (goes_on l) = load_lines lines (load_line line l)

-- Of a file that can be opened; at its end the loop is left too.
unfoldable pub load_register_file : Text → Outcome
unfolding load_lines read_lines
load_register_file text =
    load_lines (read_lines text) (goes_on (record { id_map = []; globals = new_globals }))

-- A declaration, `ast.GenDecl`: the text of its doc comment, and its specs, by name where it is a type.
pub record Decl : Type 0 where
  pub doc : Text
  pub specs : List (Option Text)

-- The id of a new item is a `uint16`.
abbrev pub append_item : Item → Globals → Globals
append_item it g = record {
  all_items = g.all_items ++ it ∷ [];
  append_items = g.append_items ++ it ∷ [];
  item_map = (it.msg, it.id) ∷ g.item_map;
  max_msg_id = it.id;
}

abbrev pub message_prefix : Text
message_prefix = codes "Message"

abbrev pub new_item : Text → Text → Globals → Item
new_item msg doc g = record { id = (g.max_msg_id + 1) % 65536; msg = msg; comma = doc }

abbrev pub append_unless : Option ℕ → Text → Text → Globals → Globals
append_unless (some id) msg doc g = g
append_unless none msg doc g = append_item (new_item msg doc g) g

unfoldable pub load_type : Text × Text → Globals → Globals
unfolding has_prefix find_id
load_type (msg, doc) g =
    if has_prefix msg message_prefix then append_unless (find_id msg g.item_map) msg doc g else g

-- The loop over `ret.Specs`: it skips what is no type, and the first type leaves the function.
unfoldable pub load_specs : Text → List (Option Text) → Globals → Globals
unfolding load_type
load_specs doc [] g = g
load_specs doc (none ∷ specs) g = load_specs doc specs g
load_specs doc (some msg ∷ specs) g = load_type (msg, doc) g

unfoldable pub load_proto_file : List Decl → Globals → Globals
unfolding load_specs
load_proto_file [] g = g
load_proto_file (d ∷ decls) g = load_proto_file decls (load_specs d.doc d.specs g)

-- A line of the constants, `MsgID_%s = %d %s`, and one of `init`, without the text between them.
abbrev pub constant_line : Item → Text
constant_line it =
    codes "MsgID_"
    ++ (it.msg ++ (b' ' ∷ b'=' ∷ b' ' ∷ print_decimal 5 it.id ++ (b' ' ∷ it.comma ++ 10 ∷ [])))

-- `%s = 0x%X // %s`
unfoldable pub entry : Item → Text
entry it =
    it.msg
    ++ (b' ' ∷ b'=' ∷ b' ' ∷ b'0' ∷ b'x' ∷ print_hex 4 it.id
        ++ (b' ' ∷ b'/' ∷ b'/' ∷ b' ' ∷ it.comma ++ 10 ∷ []))

unfoldable pub entries : List Item → Text
unfolding entry
entries [] = []
entries (it ∷ items) = entry it ++ entries items

-- The file after `writerNewProto` has appended to it.
abbrev pub appended : List Item → Text → Text
appended [] text = text
appended (it ∷ items) text = text ++ 10 ∷ entries (it ∷ items)

unfoldable pub writer_new_proto : Text → Globals → Text
unfolding entries
writer_new_proto text g = appended g.append_items text

-- `%s` of a line of `init`.
abbrev pub register_line : Item → Text
register_line it =
    9 ∷ codes "processor.Register(MsgID_"
    ++ (it.msg ++ (codes ", (*pb." ++ (it.msg ++ codes ")(nil))\n")))

abbrev pub lines_of : (Item → Text) → List Item → Text
lines_of line [] = []
lines_of line (it ∷ items) = line it ++ lines_of line items

-- The text of protoFactory.go.
unfoldable pub gen_file : Globals → Text
unfolding print_decimal
gen_file g =
    codes "// Code generated by go proto generate tool. DO NOT EDIT.\n"
    ++ (codes "package protocol\nimport \"gogame/protocol/pb\"\nconst(\n"
        ++ (lines_of constant_line g.all_items
            ++ (codes ")\nfunc init() {\nprocessor = NewProcessor()\n"
                ++ (lines_of register_line g.all_items ++ codes "}\n"))))

-- `main`, from the text of the register file and the declarations: the globals at the end, the
-- register file, and the generated file.
abbrev pub finish : Text → List Decl → Outcome → Option (Globals × Text × Text)
finish text decls exits = none
finish text decls (goes_on l) =
    let g = load_proto_file decls l.globals in some (g, writer_new_proto text g, gen_file g)
finish text decls (broken l) =
    let g = load_proto_file decls l.globals in some (g, writer_new_proto text g, gen_file g)

unfoldable pub generate : Text → List Decl → Option (Globals × Text × Text)
unfolding load_register_file load_proto_file writer_new_proto gen_file
generate text decls = finish text decls (load_register_file text)
