-- ===== src/Generator/Written.antt =====
-- What is read of an item that `writerNewProto` has written.
use gogame.Common.{
  ℕ, ◌<◌, ◌≡◌, ◌⊎◌, refl, ap, ◌∙◌, inl, inr, [], ◌∷◌, ◌++◌, arith, All, All-append, All-map,
}
use mathlib.Core.List.{append_assoc}
use gogame.Text.{Text, is_in, read_lines, cut_comment, trim}
use gogame.Text.Joined.{IsInLine, read_lines-line}
use gogame.Generator.{Item, Loading, Outcome, register_item, load_line, load_lines, entry}
use gogame.Generator.Entries.{IsPlain, content, load_line-entry, hex_number, hex_number-IsPlain}
use gogame.Generator.Missing.{}

IsPlain→IsInLine : (b : ℕ) → IsPlain b → IsInLine b
unfolding is_in
IsPlain→IsInLine b p = ground arith

-- An empty line is skipped.
load_empty : (l : Loading) → load_line [] l ≡ Outcome.goes_on l
unfolding load_line cut_comment trim
load_empty l = refl

pub load_break :
    (rest : Text) (l : Loading)
    → load_lines (read_lines (10 ∷ rest)) (Outcome.goes_on l)
      ≡ load_lines (read_lines rest) (Outcome.goes_on l)
unfolding load_lines read_lines
load_break rest l = ap (load_lines (read_lines rest)) (load_empty l)

-- The line that is written for an item.
module _ (a : ℕ) (letters : Text) (plain : All IsPlain (a ∷ letters)) (n : ℕ) (h : n < 65536)
    (line : Text) (in_line : All IsInLine line) where
  abbrev written : Text
  written = (content a letters plain n h ++ b' ' ∷ []) ++ b'/' ∷ b'/' ∷ b' ' ∷ line

  abbrev pub reread : Item
  reread = record { id = n; msg = a ∷ letters; comma = b'/' ∷ b'/' ∷ b' ' ∷ line }

  written-IsInLine : All IsInLine written
  written-IsInLine =
      let blank : IsInLine b' ' = (omega arith, omega arith) in
      let equal : IsInLine b'=' = (omega arith, omega arith) in
      let slash : IsInLine b'/' = (omega arith, omega arith) in
      All-append IsInLine (content a letters plain n h ++ b' ' ∷ []) (b'/' ∷ b'/' ∷ b' ' ∷ line)
        (All-append IsInLine (content a letters plain n h) (b' ' ∷ [])
          (All-append IsInLine (a ∷ letters) (b' ' ∷ b'=' ∷ b' ' ∷ hex_number n)
            (All-map IsPlain IsInLine IsPlain→IsInLine (a ∷ letters) plain)
            (
              blank,
              (
                equal,
                (
                  blank,
                  All-map IsPlain IsInLine IsPlain→IsInLine (hex_number n) (hex_number-IsPlain n),
                ),
              ),
            ))
          (blank, tt))
        (slash, (slash, (blank, in_line)))

  load_written :
      (rest : Text) (l : Loading)
      → load_lines (read_lines (written ++ 10 ∷ rest)) (Outcome.goes_on l)
        ≡ load_lines (read_lines rest) (register_item reread l)
  unfolding load_lines
  load_written rest l =
      ap (λ lines. load_lines lines (Outcome.goes_on l))
        (read_lines-line written rest written-IsInLine)
      ∙ ap (load_lines (read_lines rest)) (load_line-entry a letters plain n h (b' ' ∷ line) l)

  -- Of an item that is new; the doc text may end in a line break.
  pub load_entry :
      (doc rest : Text) (l l' : Loading)
      → (doc ≡ line) ⊎ (doc ≡ line ++ 10 ∷ [])
      → register_item reread l ≡ Outcome.goes_on l'
      → load_lines
          (read_lines (entry (record { id = n; msg = a ∷ letters; comma = doc }) ++ rest))
          (Outcome.goes_on l)
        ≡ load_lines (read_lines rest) (Outcome.goes_on l')
  unfolding entry
  load_entry doc rest l l' (inl e) r =
      ap
        (λ s.
          load_lines (read_lines (entry (record { id = n; msg = a ∷ letters; comma = s }) ++ rest))
            (Outcome.goes_on l))
        e
      ∙ ap (λ s. load_lines (read_lines s) (Outcome.goes_on l))
          (let same : entry (record { id = n; msg = a ∷ letters; comma = line }) ++ rest
                ≡ written ++ 10 ∷ rest =
              simp append_assoc in
            same)
      ∙ load_written rest l
      ∙ ap (load_lines (read_lines rest)) r
  load_entry doc rest l l' (inr e) r =
      ap
        (λ s.
          load_lines (read_lines (entry (record { id = n; msg = a ∷ letters; comma = s }) ++ rest))
            (Outcome.goes_on l))
        e
      ∙ ap (λ s. load_lines (read_lines s) (Outcome.goes_on l))
          (let same : entry (record { id = n; msg = a ∷ letters; comma = line ++ 10 ∷ [] }) ++ rest
                ≡ written ++ 10 ∷ 10 ∷ rest =
              simp append_assoc in
            same)
      ∙ load_written (10 ∷ rest) l
      ∙ ap (load_lines (read_lines (10 ∷ rest))) r
      ∙ load_break rest l'
