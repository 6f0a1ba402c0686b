-- ===== src/Logger/Tests.antt =====
-- A log file of two lines, and an older rotated one.
use gogame.Common.{◌≡◌, refl, true, false, [], ◌∷◌, some, arith}
use gogame.Text.{codes}
use gogame.Logger.{World, contents, trunc, on_interval, error}
use gogame.Logger.Rotated.{fault_free, trunc-contents}

abbrev start : World
start = record {
  logger = record {
    err_count = 0;
    log_level = 4;
    max_size = 100;
    file = some (codes "a.log");
    is_open = true;
    size_ext = 1;
  };
  files =
      (codes "a.log", codes "one" ∷ codes "two" ∷ []) ∷ (codes "b.log", codes "other" ∷ []) ∷ [];
  console = [];
}

-- At the second tick within an hour the lines of the first are lost.
two_intervals :
    (on_interval fault_free
      (codes "-2026010100")
      (on_interval fault_free (codes "-2026010100") start)).files
    ≡ (codes "b.log", codes "other" ∷ [])
      ∷ (codes "a.log-2026010100", codes "log truncated by time interval" ∷ [])
      ∷ (codes "a.log", codes "log truncated by time interval" ∷ [])
      ∷ []
unfolding on_interval
two_intervals = refl

-- After a file that could not be opened nothing is written any more.
never_opened_again :
    (error (codes "lost") (
      on_interval fault_free (codes "-2") (
        on_interval
          (record { close_fails = false; rename_fails = false; open_fails = true })
          (codes "-1")
          start))).files
    ≡ (codes "b.log", codes "other" ∷ []) ∷ (codes "a.log-1", codes "one" ∷ codes "two" ∷ []) ∷ []
unfolding on_interval error
never_opened_again = refl

trunc-contents_example :
    (contents (codes "c.log") (trunc fault_free (codes "a.log") (codes "c.log") start).files
      ≡ contents (codes "a.log") start.files)
    × (contents (codes "a.log") (trunc fault_free (codes "a.log") (codes "c.log") start).files ≡ [])
    × (contents (codes "b.log") (trunc fault_free (codes "a.log") (codes "c.log") start).files
        ≡ contents (codes "b.log") start.files)
trunc-contents_example =
    trunc-contents (codes "a.log") (codes "c.log") (codes "b.log") start (λ e. ground arith)
      (λ e. ground arith) (λ e. ground arith) (λ e. ground arith) refl refl
