-- ===== src/Generator/Reload.antt =====
-- The generator, run again on the register file that it has written.
use gogame.Common.{
  ℕ, ◌<◌, ◌≡◌, ◌⊎◌, refl, sym, ap, ◌∙◌, List, [], ◌∷◌, ◌++◌, map, none, ne→==, arith, All,
}
use mathlib.Core.List.{map-append}
use gogame.Common.Assoc
use gogame.Text.{Text, read_lines}
use gogame.Text.Joined.{IsInLine}
use gogame.Generator.{
  Item, Globals, Loading, Outcome, register_item, add_item, append_item, load_lines, larger, entry,
  entries,
}
use gogame.Generator.Entries.{IsPlain}
use gogame.Generator.Written.{reread, load_entry}
use gogame.Generator.Missing.{append_all, IsAscending}

-- The name of a Go type, and a doc text of one line or none.
pub record IsWritable (msg doc : Text) : Type 0 where
  pub first : ℕ
  pub letters : Text
  pub named : msg ≡ first ∷ letters
  pub plain : All IsPlain (first ∷ letters)
  pub line : Text
  pub in_line : All IsInLine line
  pub documented : (doc ≡ line) ⊎ (doc ≡ line ++ 10 ∷ [])

-- Globals with the same ids and names.
abbrev key : Item → ℕ × Text
key it = (it.id, it.msg)

pub record HasSameIds (g g' : Globals) : Type 0 where
  pub names : g.item_map ≡ g'.item_map
  pub most : g.max_msg_id ≡ g'.max_msg_id
  pub keys : map key g.all_items ≡ map key g'.all_items

abbrev Unused : Loading → Type 0
Unused l = (k : ℕ) → l.globals.max_msg_id < k → Assoc.lookup k l.id_map ≡ none

-- The state after an item that is new.
abbrev registered : Item → Loading → Loading
registered it l = record {
  id_map = Assoc.insert it.id it.msg l.id_map;
  globals = add_item it l.globals;
}

larger-new : (id most : ℕ) → most < id → larger id most ≡ id
larger-new id most h = ground arith

module _ (it other : Item) (l : Loading) (same_id : it.id ≡ other.id)
    (same_msg : it.msg ≡ other.msg) (above : l.globals.max_msg_id < it.id) where
  register_item-new : Unused l → register_item it l ≡ Outcome.goes_on (registered it l)
  unfolding register_item
  register_item-new unused = rw (unused it.id above)

  registered-Unused : Unused l → Unused (registered it l)
  registered-Unused unused k h =
      let most : larger it.id l.globals.max_msg_id ≡ it.id =
        larger-new it.id l.globals.max_msg_id above in
      let beyond : it.id < k = rw most at h in
      rw (Assoc.lookup-insert k it.id it.msg l.id_map, ne→== it.id k (omega arith))
        (unused k (omega arith))

  registered-HasSameIds :
      (g : Globals)
      → HasSameIds l.globals g
      → HasSameIds (registered it l).globals (append_item other g)
  registered-HasSameIds g s = record {
    names = cc (s.names);
    most = larger-new it.id l.globals.max_msg_id above ∙ same_id;
    keys =
        rw (map-append key l.globals.all_items (it ∷ []), map-append key g.all_items (other ∷ []))
          (cc (s.keys));
  }

-- The items that were written are read in order, after what was read before them.
pub load_entries :
    (items : List Item) (l : Loading) (g : Globals)
    → HasSameIds l.globals g
    → Unused l
    → l.globals.append_items ≡ []
    → IsAscending l.globals.max_msg_id items
    → All (λ it. IsWritable it.msg it.comma) items
    → (l' : Loading) × (load_lines (read_lines (entries items)) (Outcome.goes_on l)
        ≡ Outcome.goes_on l')
      × HasSameIds l'.globals (append_all items g)
      × (l'.globals.append_items ≡ [])
unfolding entries append_all load_lines read_lines
load_entries [] l g s unused new a w = (l, refl, s, new)
load_entries (it ∷ items) l g s unused new a w =
    let it' = reread w.0.first w.0.letters w.0.plain it.id a.1 w.0.line w.0.in_line in
    let later =
      load_entries items (registered it' l) (append_item it g)
        (registered-HasSameIds it' it l refl (sym w.0.named) a.0 g s)
        (registered-Unused it' it l refl (sym w.0.named) a.0 unused) new
        (let most : larger it.id l.globals.max_msg_id ≡ it.id =
            larger-new it.id l.globals.max_msg_id a.0 in
          rw most a.2)
        w.1 in
    (
      later.0,
      (ap
              (λ m.
                load_lines
                  (read_lines
                    (entry (record { id = it.id; msg = m; comma = it.comma }) ++ entries items))
                  (Outcome.goes_on l))
              w.0.named
            ∙ load_entry w.0.first w.0.letters w.0.plain it.id a.1 w.0.line w.0.in_line it.comma
                (entries items) l (registered it' l) w.0.documented
                (register_item-new it' it l refl (sym w.0.named) a.0 unused))
          ∙ later.1,
      later.2,
      later.3,
    )
