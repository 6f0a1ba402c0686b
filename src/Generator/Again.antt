-- ===== src/Generator/Again.antt =====
-- The generator, run again on the register file that it has written.
use gogame.Common.{ℕ, ◌+◌, ◌<◌, ◌≡◌, refl, ap, ◌∙◌, List, [], ◌∷◌, ◌++◌, some, All, All-map, length}
use mathlib.Core.List.{append_assoc}
use mathlib.Core.Path.{subst}
use gogame.Text.{Text, read_lines}
use gogame.Text.Joined.{read_lines-append}
use gogame.Generator.{
  Item, Globals, Decl, Loading, Outcome, load_line, load_lines, load_register_file, load_proto_file,
  entries, appended, writer_new_proto, gen_file, generate, finish, new_globals,
}
use gogame.Generator.Written.{load_break}
use gogame.Generator.Loaded.{AtEnd, IsLoaded, load_register_file-IsLoaded}
use gogame.Generator.Missing.{
  types_of, missing, append_all, append_all-append_items, missing-IsAscending, missing-All,
  load_proto_file-missing, IsMessage, IsKnown, load_proto_file-IsKnown, load_proto_file-known,
}
use gogame.Generator.Reload.{IsWritable, HasSameIds, load_entries}

load_lines-append :
    (xs ys : List Text) (o : Outcome) → load_lines (xs ++ ys) o ≡ load_lines ys (load_lines xs o)
unfolding load_lines
load_lines-append [] [] (Outcome.goes_on l) = refl
load_lines-append [] (y ∷ ys) (Outcome.goes_on l) = refl
load_lines-append (x ∷ xs) ys (Outcome.goes_on l) = load_lines-append xs ys (load_line x l)
load_lines-append [] ys (Outcome.broken l) = refl
load_lines-append (x ∷ xs) [] (Outcome.broken l) = refl
load_lines-append (x ∷ xs) (y ∷ ys) (Outcome.broken l) = refl
load_lines-append [] ys Outcome.exits = refl
load_lines-append (x ∷ xs) [] Outcome.exits = refl
load_lines-append (x ∷ xs) (y ∷ ys) Outcome.exits = refl

-- A file that ends in a line break, and is read to its end.
module _ (text : Text) (decls : List Decl) (l : Loading)
    (loaded : load_register_file (text ++ 10 ∷ []) ≡ Outcome.goes_on l)
    (fits : l.globals.max_msg_id + length (types_of decls) < 65536)
    (writable : All (λ t. IsWritable t.0 t.1) (types_of decls)) where
  abbrev file : Text
  file = text ++ 10 ∷ []

  abbrev generated : Globals
  generated = load_proto_file decls l.globals

  abbrev start : Outcome
  start = Outcome.goes_on (record { id_map = []; globals = new_globals })

  start-IsLoaded : IsLoaded l
  start-IsLoaded = subst (AtEnd IsLoaded) loaded (load_register_file-IsLoaded file)

  abbrev items : List Item
  items = missing (types_of decls) l.globals

  append_items-missing : generated.append_items ≡ items
  append_items-missing =
      ap (λ (g : Globals). g.append_items) (load_proto_file-missing decls l.globals)
      ∙ append_all-append_items items l.globals
      ∙ ap (λ before. before ++ items) start-IsLoaded.nothing_new

  load_appended :
      (more : List Item)
      → load_register_file (appended more file)
        ≡ load_lines (read_lines (entries more)) (Outcome.goes_on l)
  unfolding load_register_file entries load_lines
  load_appended [] = loaded
  load_appended (it ∷ more) =
      ap (λ s. load_lines (read_lines s) start)
        (append_assoc text (10 ∷ []) (10 ∷ entries (it ∷ more)))
      ∙ ap (λ lines. load_lines lines start) (read_lines-append text (10 ∷ entries (it ∷ more)))
      ∙ load_lines-append (read_lines file) (read_lines (10 ∷ entries (it ∷ more))) start
      ∙ ap (load_lines (read_lines (10 ∷ entries (it ∷ more)))) loaded
      ∙ load_break (entries (it ∷ more)) l

  load_generated :
      (l' : Loading) × (load_register_file (appended items file) ≡ Outcome.goes_on l')
      × HasSameIds l'.globals (append_all items l.globals)
      × (l'.globals.append_items ≡ [])
  load_generated =
      let (l', read, same, new) =
        load_entries items l l.globals (record { names = refl; most = refl; keys = refl })
          start-IsLoaded.unused start-IsLoaded.nothing_new
          (missing-IsAscending (types_of decls) l.globals fits)
          (missing-All (λ it. IsWritable it.msg it.comma) (types_of decls) l.globals
            (All-map (λ t. IsWritable t.0 t.1) (λ t. (id : ℕ) → id < 65536 → IsWritable t.0 t.1)
              (λ t w id h. w) (types_of decls) writable)) in
      (l', load_appended items ∙ read, same, new)

  nothing_missing :
      (l' : Loading)
      → HasSameIds l'.globals (append_all items l.globals)
      → load_proto_file decls l'.globals ≡ l'.globals
  nothing_missing l' same = load_proto_file-known decls l'.globals (
      All-map (λ t. IsMessage t.0 → IsKnown t.0 generated.item_map)
        (λ t. IsMessage t.0 → IsKnown t.0 l'.globals.item_map)
        (λ t known m.
          let (id, found) = known m in
          (
            id,
            rw
                (
                  same.names,
                  ← ap (λ (g : Globals). g.item_map) (load_proto_file-missing decls l.globals),
                )
                found,
          ))
        (types_of decls) (load_proto_file-IsKnown decls l.globals))

  written_file : writer_new_proto file generated ≡ appended items file
  unfolding writer_new_proto
  written_file = ap (λ more. appended more file) append_items-missing

  writer_new_proto-same : (g : Globals) (s : Text) → g.append_items ≡ [] → writer_new_proto s g ≡ s
  unfolding writer_new_proto
  writer_new_proto-same g s e = ap (λ more. appended more s) e

  generate_lem :
      (s : Text) (l' : Loading)
      → load_register_file s ≡ Outcome.goes_on l'
      → generate s decls ≡ finish s decls (Outcome.goes_on l')
  unfolding generate
  generate_lem s l' e = ap (finish s decls) e

  -- On a register file that ends in a line break and is read to its end, where the new messages do
  -- not bring the ids to 65536, and the first type of each declaration is named without blanks, `=` and
  -- `/` and has a doc comment of one line at most: running the generator again on the file that it has
  -- written changes neither that file nor an id.
  pub generate-generate :
      (g : Globals) × (generate (writer_new_proto file generated) decls
        ≡ some (g, writer_new_proto file generated, gen_file g))
      × HasSameIds g generated
  generate-generate =
      let (l', read, same, new) = load_generated in
      let read' : load_register_file (writer_new_proto file generated) ≡ Outcome.goes_on l' =
        rw written_file read in
      (
        l'.globals,
        generate_lem (writer_new_proto file generated) l' read'
            ∙ ap (λ g. some (g, writer_new_proto (writer_new_proto file generated) g, gen_file g))
                (nothing_missing l' same)
            ∙ ap (λ s. some (l'.globals, s, gen_file l'.globals))
                (writer_new_proto-same l'.globals (writer_new_proto file generated) new),
        rw (load_proto_file-missing decls l.globals) same,
      )
