-- ===== src/Logger/Rotated.antt =====
-- A rotation moves the lines of the file to the new name, and loses none.
use gogame.Common.{
  ◌≡◌, ◌≢◌, refl, sym, ap, ◌∙◌, inl, inr, true, false, ◌||◌, not, [], ◌∷◌, none, some,
  if◌then◌else◌, Bool-cases, arith,
}
use gogame.Text.{Text, equals}
use gogame.Text.Keyed
use gogame.Text.Keyed.{equals_iff}
use gogame.Logger.{
  World, Files, contents, lines_of, Faults, remove_file, rename, rename_file, open_file, open_new,
  closed, trunc, trunc_from,
}

lookup-remove_file :
    (other name : Text) (files : Files)
    → Keyed.lookup other (remove_file name files)
      ≡ (if equals name other then none else Keyed.lookup other files)
unfolding Keyed.lookup remove_file
lookup-remove_file other name [] = ground arith
lookup-remove_file other name ((key, lines) ∷ files) = ground (
  arith,
  equals_iff key name,
  equals_iff name other,
  equals_iff key other,
  lookup-remove_file other name files,
)

differs : (a b : Text) → a ≢ b → equals a b ≡ false
differs a b h = elim (Bool-cases (equals a b)) [
  | inl e ↦ absurd (h ((equals_iff a b).0 e))
  | inr e ↦ e
]

same : (a : Text) → equals a a ≡ true
same a = (equals_iff a a).1 refl

-- No call of the file system fails.
abbrev pub fault_free : Faults
fault_free = record { close_fails = false; rename_fails = false; open_fails = false }

module _ (fp nfp : Text) (apart : fp ≢ nfp) (files : Files) where
  abbrev rotated : Files
  rotated = open_file fp (rename fp nfp files)

  old_is_gone : Keyed.lookup fp (rename fp nfp files) ≡ none
  unfolding rename
  old_is_gone =
      Keyed.lookup-insert fp nfp (contents fp files) (remove_file fp files)
      ∙ (rw (differs nfp fp (λ e. apart (sym e)), lookup-remove_file fp fp files, same fp) refl)

  lookup-renamed :
      (other : Text)
      → Keyed.lookup other (rename fp nfp files) ≡ (
          if equals nfp other
          then some (contents fp files)
          else if equals fp other
          then none
          else Keyed.lookup other files)
  unfolding rename
  lookup-renamed other =
      Keyed.lookup-insert other nfp (contents fp files) (remove_file fp files)
      ∙ ap (λ o. if equals nfp other then some (contents fp files) else o)
          (lookup-remove_file other fp files)

  lookup-rotated :
      (other : Text)
      → Keyed.lookup other rotated ≡ (
          if equals fp other
          then some []
          else if equals nfp other
          then some (contents fp files)
          else if equals fp other
          then none
          else Keyed.lookup other files)
  unfolding open_file
  lookup-rotated other =
      Keyed.lookup-insert other fp (contents fp (rename fp nfp files)) (rename fp nfp files)
      ∙ ap
          (λ o.
            if equals fp other then some (lines_of o) else Keyed.lookup other (rename fp nfp files))
          old_is_gone
      ∙ ap (λ o. if equals fp other then some [] else o) (lookup-renamed other)

  -- The three kinds of files after a rotation.
  lookup-rotated_new : Keyed.lookup nfp rotated ≡ some (contents fp files)
  lookup-rotated_new = lookup-rotated nfp ∙ (rw (differs fp nfp apart, same nfp) refl)

  lookup-rotated_old : Keyed.lookup fp rotated ≡ some []
  lookup-rotated_old = lookup-rotated fp ∙ (rw (same fp) refl)

  lookup-rotated_other :
      (other : Text)
      → fp ≢ other
      → nfp ≢ other
      → Keyed.lookup other rotated ≡ Keyed.lookup other files
  lookup-rotated_other other h g =
      lookup-rotated other ∙ (rw (differs fp other h, differs nfp other g) refl)

  module _ (named : nfp ≢ []) (w : World) (here : w.files ≡ files)
      (current : w.logger.file ≡ some fp) (is_open : w.logger.is_open ≡ true) where
    trunc-rotated : (trunc fault_free fp nfp w).files ≡ rotated
    unfolding trunc
    trunc-rotated =
        ap (λ b. (if b then w else trunc_from w.logger.file fault_free fp nfp w).files)
          (differs fp nfp apart)
        ∙ ap (λ o. (trunc_from o fault_free fp nfp w).files) current
        ∙ ap
            (λ b.
              (if false || not b
                then w
                else open_new false fp (record {
                  logger = closed w.logger;
                  files = rename_file fault_free fp nfp w.files;
                  console = w.console;
                })).files)
            is_open
        ∙ ap
            (λ b.
              open_file fp
                (if b then w.files else if equals fp nfp then w.files else rename fp nfp w.files))
            (differs nfp [] named)
        ∙ ap (λ b. open_file fp (if b then w.files else rename fp nfp w.files))
            (differs fp nfp apart)
        ∙ ap (λ f. open_file fp (rename fp nfp f)) here

-- Without a fault, the new file has the lines of the log file, which is empty, and every other file is as
-- it was; what the new file had before is lost.
pub trunc-contents :
    (fp nfp other : Text) (w : World)
    → fp ≢ nfp
    → nfp ≢ []
    → fp ≢ other
    → nfp ≢ other
    → w.logger.file ≡ some fp
    → w.logger.is_open ≡ true
    → (contents nfp (trunc fault_free fp nfp w).files ≡ contents fp w.files)
      × (contents fp (trunc fault_free fp nfp w).files ≡ [])
      × (contents other (trunc fault_free fp nfp w).files ≡ contents other w.files)
trunc-contents fp nfp other w apart named h g current is_open =
    rw (trunc-rotated fp nfp apart w.files named w refl current is_open) (
      ap lines_of (lookup-rotated_new fp nfp apart w.files),
      ap lines_of (lookup-rotated_old fp nfp apart w.files),
      ap lines_of (lookup-rotated_other fp nfp apart w.files other h g),
    )
